-- ===== src/Levenshtein/Edits.antt =====
-- The specification: the least number of single-character edits between two texts.
use kwctoolkit.Prelude.{
  ℕ, suc, ◌+◌, ◌≤◌, ◌≡◌, refl, sym, inl, inr, [], ◌∷◌, arith, ◌==◌, ==_iff, Bool-cases, Bytes,
  length, ◌⊎◌,
}
use mathlib.Core.Path.{subst}
use kwctoolkit.Levenshtein.{min3, cost}

-- `Edits s t n`: `n` insertions, deletions and substitutions make `t` of `s`.
pub data Edits : Bytes → Bytes → ℕ → Type 0 where
  done : Edits [] [] 0
  keep : {s t : Bytes} {n : ℕ} (a : ℕ) → Edits s t n → Edits (a ∷ s) (a ∷ t) n
  change : {s t : Bytes} {n : ℕ} (a b : ℕ) → Edits s t n → Edits (a ∷ s) (b ∷ t) (suc n)
  remove : {s t : Bytes} {n : ℕ} (a : ℕ) → Edits s t n → Edits (a ∷ s) t (suc n)
  insert : {s t : Bytes} {n : ℕ} (b : ℕ) → Edits s t n → Edits s (b ∷ t) (suc n)

recount : {s t : Bytes} {n : ℕ} (k : ℕ) → n ≡ k → Edits s t n → Edits s t k
recount {s} {t} k e d = subst (λ j. Edits s t j) e d

abbrev pub reverse_onto : Bytes → Bytes → Bytes
reverse_onto [] acc = acc
reverse_onto (x ∷ xs) acc = reverse_onto xs (x ∷ acc)

pub reverse_onto_twice : (s acc : Bytes) → reverse_onto (reverse_onto s acc) [] ≡ reverse_onto acc s
reverse_onto_twice [] acc = refl
reverse_onto_twice (x ∷ xs) acc = reverse_onto_twice xs (x ∷ acc)

-- The same edits, read from the other end.
Edits-reverse_onto :
    {s t : Bytes} {n : ℕ} {s' t' : Bytes} {m : ℕ} (k : ℕ)
    → Edits s t n
    → Edits s' t' m
    → n + m ≡ k
    → Edits (reverse_onto s s') (reverse_onto t t') k
Edits-reverse_onto {m = m} k done e h = recount k (omega (arith, h)) e
Edits-reverse_onto k (keep a d) e h = Edits-reverse_onto k d (keep a e) h
Edits-reverse_onto k (change a b d) e h = Edits-reverse_onto k d (change a b e) (omega (arith, h))
Edits-reverse_onto k (remove a d) e h = Edits-reverse_onto k d (remove a e) (omega (arith, h))
Edits-reverse_onto k (insert b d) e h = Edits-reverse_onto k d (insert b e) (omega (arith, h))

pub Edits-reverse :
    {s t : Bytes} {n : ℕ} → Edits s t n → Edits (reverse_onto s []) (reverse_onto t []) n
Edits-reverse {n = n} d = Edits-reverse_onto n d done (omega arith)

pub Edits-reversed :
    (s t : Bytes) (n : ℕ) → Edits (reverse_onto s []) (reverse_onto t []) n → Edits s t n
Edits-reversed s t n d = rw (reverse_onto_twice s [], reverse_onto_twice t []) at (Edits-reverse d)

-- The recursion that the table fills in.
unfoldable pub distance : Bytes → Bytes → ℕ
distance [] t = length t
distance (a ∷ s) [] = suc (length s)
distance (a ∷ s) (b ∷ t) =
    min3 (distance s (b ∷ t) + 1) (distance (a ∷ s) t + 1) (distance s t + cost a b)

pub distance-nil : (s : Bytes) → distance s [] ≡ length s
unfolding distance
distance-nil [] = refl
distance-nil (a ∷ s) = refl

pub distance-le : (s t : Bytes) → distance s t ≤ length s + length t
unfolding distance
distance-le [] t = omega arith
distance-le (a ∷ s) [] = omega arith
distance-le (a ∷ s) (b ∷ t) = omega (arith, distance-le s (b ∷ t))

min3-cases : (a b c : ℕ) → (min3 a b c ≡ a) ⊎ ((min3 a b c ≡ b) ⊎ (min3 a b c ≡ c))
min3-cases a b c = omega arith

diagonal : {s t : Bytes} {n : ℕ} (a b : ℕ) → Edits s t n → Edits (a ∷ s) (b ∷ t) (n + cost a b)
diagonal {s} {t} {n} a b d = elim (Bool-cases (a == b)) [
  | inl e ↦ rw (e, ← (==_iff a b).0 e) (recount (n + 0) (omega arith) (keep a d))
  | inr e ↦ rw e (recount (n + 1) (omega arith) (change a b d))
]

distance-remove : (a : ℕ) (s t : Bytes) → distance (a ∷ s) t ≤ suc (distance s t)
unfolding distance
distance-remove a s [] = omega (arith, distance-nil s)
distance-remove a s (b ∷ t) = omega arith

distance-insert : (b : ℕ) (s t : Bytes) → distance s (b ∷ t) ≤ suc (distance s t)
unfolding distance
distance-insert b [] t = omega arith
distance-insert b (a ∷ s) t = omega arith

-- So many edits are enough ...
pub distance-Edits : (s t : Bytes) → Edits s t (distance s t)
unfolding distance
distance-Edits [] [] = done
distance-Edits [] (b ∷ t) = insert b (distance-Edits [] t)
distance-Edits (a ∷ s) [] = rw (distance-nil s) at (remove a (distance-Edits s []))
distance-Edits (a ∷ s) (b ∷ t) =
    elim (min3-cases (distance s (b ∷ t) + 1) (distance (a ∷ s) t + 1) (distance s t + cost a b)) [
      | inl e ↦ recount _ (omega (arith, e)) (remove a (distance-Edits s (b ∷ t)))
      | inr (inl e) ↦ recount _ (omega (arith, e)) (insert b (distance-Edits (a ∷ s) t))
      | inr (inr e) ↦ recount _ (sym e) (diagonal a b (distance-Edits s t))
    ]

-- ... and fewer are not.
pub distance-least : {s t : Bytes} {n : ℕ} → Edits s t n → distance s t ≤ n
unfolding distance
distance-least done = omega arith
distance-least (keep a d) = ground (arith, distance-least d)
distance-least (change a b d) = ground (arith, distance-least d)
distance-least (remove {s = s} {t = t} a d) = omega (arith, distance-remove a s t, distance-least d)
distance-least (insert {s = s} {t = t} b d) = omega (arith, distance-insert b s t, distance-least d)
