-- ===== src/File/Path/Stripping.antt =====
-- Stripping trailing separators.
use kwctoolkit.Prelude.{
  ℕ, zero, suc, ◌≡◌, refl, sym, ap, ◌∙◌, inl, inr, true, false, not, ◌&&◌, ◌||◌, arith, Bool-cases,
  Option, none, some, [], ◌∷◌, ltb, ◌==◌, if◌then◌else◌, is_empty, get_or, take, Bytes, codes,
  bytes_eq, length, length-take,
}
use kwctoolkit.File.Path.{is_separator, is_3, strip_loop, strip_trailing_separators}

-- The text before its trailing separators.
abbrev pub before_separators : Bytes → Bytes
before_separators [] = []
before_separators (c ∷ cs) =
    let rest = before_separators cs in if is_separator c && is_empty rest then [] else c ∷ rest

-- The first character stays.
abbrev pub stripped : Bytes → Bytes
stripped [] = []
stripped (c ∷ cs) = c ∷ before_separators cs

before_separators-take :
    (cs : Bytes) (n : ℕ)
    → length cs ≡ suc n
    → is_separator (get_or cs n 0) ≡ true
    → before_separators (take n cs) ≡ before_separators cs
before_separators-take [] n h e = absurd (omega arith)
before_separators-take (c ∷ []) zero h e = rw (e) refl
before_separators-take (c ∷ d ∷ ds) zero h e = absurd (omega arith)
before_separators-take (c ∷ cs) (suc n) h e = rw (before_separators-take cs n (omega arith) e) refl

before_separators-keep :
    (cs : Bytes) (n : ℕ)
    → length cs ≡ suc n
    → is_separator (get_or cs n 0) ≡ false
    → before_separators cs ≡ cs
before_separators-keep [] n h e = absurd (omega arith)
before_separators-keep (c ∷ []) zero h e = rw (e) refl
before_separators-keep (c ∷ d ∷ ds) zero h e = absurd (omega arith)
before_separators-keep (c ∷ []) (suc n) h e = absurd (omega arith)
before_separators-keep (c ∷ d ∷ ds) (suc n) h e =
    rw (before_separators-keep (d ∷ ds) n (omega arith) e) (ground arith)

module _ (n : ℕ) (last : Option ℕ) (path : Bytes) where
  pub strip_stop :
      (ltb 1 (suc n) && is_separator (get_or path n 0)) ≡ false
      → strip_loop (suc n) last path ≡ path
  unfolding strip_loop
  strip_stop h = rw (h, strip_loop) refl

  strip_round :
      (ltb 1 (suc n) && is_separator (get_or path n 0)) ≡ true
      → (not (suc n == 2) || (is_3 last || not (is_separator (get_or path 0 0)))) ≡ true
      → strip_loop (suc n) last path ≡ strip_loop n (some (suc n)) (take n path)
  unfolding strip_loop
  strip_round h g = rw (h, strip_loop) (rw (g) refl)

-- A loop that stripped the character behind strips on.
strip_loop-on :
    (n : ℕ) (path : Bytes) → length path ≡ n → strip_loop n (some (suc n)) path ≡ stripped path
unfolding strip_loop
strip_loop-on zero [] h = refl
strip_loop-on zero (c ∷ cs) h = absurd (omega arith)
strip_loop-on (suc n) [] h = absurd (omega arith)
strip_loop-on (suc zero) (c ∷ []) h = refl
strip_loop-on (suc zero) (c ∷ d ∷ ds) h = absurd (omega arith)
strip_loop-on (suc (suc n)) (c ∷ cs) h = elim (Bool-cases (is_separator (get_or cs n 0))) [
  | inl sep ↦
      strip_round (suc n) (some (suc (suc (suc n)))) (c ∷ cs) (ground (arith, sep)) (ground arith)
      ∙ strip_loop-on (suc n) (take (suc n) (c ∷ cs)) (omega (arith, length-take (suc n) (c ∷ cs)))
      ∙ ap (λ r. c ∷ r) (before_separators-take cs n (omega arith) sep)
  | inr other ↦
      strip_stop (suc n) (some (suc (suc (suc n)))) (c ∷ cs) (ground (arith, other))
      ∙ ap (λ r. c ∷ r) (sym (before_separators-keep cs n (omega arith) other))
]

two_characters :
    (c d : ℕ)
    → strip_trailing_separators (c ∷ d ∷ [])
      ≡ (if bytes_eq (c ∷ d ∷ []) (codes "//") then c ∷ d ∷ [] else stripped (c ∷ d ∷ []))
unfolding strip_trailing_separators strip_loop bytes_eq
two_characters c d = elim (Bool-cases (is_separator d)) [
  | inr other ↦ rw (other) (ground arith)
  | inl sep ↦ elim (Bool-cases (is_separator c)) [
    | inl first ↦ rw (sep, strip_loop, strip_trailing_separators) (rw (first) refl)
    | inr other ↦ rw (sep, strip_loop, strip_trailing_separators) (rw (other) refl)
  ]
]

strip_one :
    (c : ℕ)
    → strip_trailing_separators (c ∷ [])
      ≡ (if bytes_eq (c ∷ []) (codes "//") then c ∷ [] else stripped (c ∷ []))
unfolding strip_trailing_separators strip_loop bytes_eq
strip_one c = elim (Bool-cases (is_separator c)) [ inl e ↦ rw (e) refl | inr e ↦ rw (e) refl ]

long_path : (c d e : ℕ) (es : Bytes) → bytes_eq (c ∷ d ∷ e ∷ es) (codes "//") ≡ false
unfolding bytes_eq
long_path c d e es = ground arith

many_characters :
    (c d e : ℕ) (es : Bytes)
    → strip_loop (suc (suc (suc (length es)))) none (c ∷ d ∷ e ∷ es) ≡ stripped (c ∷ d ∷ e ∷ es)
many_characters c d e es = elim (Bool-cases (is_separator (get_or (e ∷ es) (length es) 0))) [
  | inl sep ↦
      strip_round (suc (suc (length es))) none (c ∷ d ∷ e ∷ es) (ground (arith, sep)) (ground arith)
      ∙ strip_loop-on (suc (suc (length es))) (take (suc (suc (length es))) (c ∷ d ∷ e ∷ es))
          (omega (arith, length-take (suc (suc (length es))) (c ∷ d ∷ e ∷ es)))
      ∙ ap (λ r. c ∷ r) (before_separators-take (d ∷ e ∷ es) (suc (length es)) refl sep)
  | inr other ↦
      strip_stop (suc (suc (length es))) none (c ∷ d ∷ e ∷ es) (ground (arith, other))
      ∙ ap (λ r. c ∷ r) (sym (before_separators-keep (d ∷ e ∷ es) (suc (length es)) refl other))
]

-- Stripping leaves "//" alone. Of any other path it keeps the first character and drops exactly
-- the separators at the end behind it.
pub strip_trailing_separators-stripped :
    (path : Bytes)
    → strip_trailing_separators path ≡ (if bytes_eq path (codes "//") then path else stripped path)
unfolding strip_trailing_separators bytes_eq
strip_trailing_separators-stripped [] = refl
strip_trailing_separators-stripped (c ∷ []) = strip_one c
strip_trailing_separators-stripped (c ∷ d ∷ []) = two_characters c d
strip_trailing_separators-stripped (c ∷ d ∷ e ∷ es) =
    rw (long_path c d e es) (many_characters c d e es)
