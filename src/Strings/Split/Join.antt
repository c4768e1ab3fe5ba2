-- ===== src/Strings/Split/Join.antt =====
-- SplitString undone by putting the separator back between the pieces.
use kwctoolkit.Prelude.{
  ℕ, ◌≡◌, refl, ap, inl, inr, true, List, [], ◌∷◌, ◌++◌, arith, Bool-cases, Bytes, one_of, returned,
  ◌>>=◌,
}
use kwctoolkit.Strings.Split.{tidy, split_string, whitespace_keep, split_want_all}
use kwctoolkit.Strings.Split.Laws.{cons_head, split_on, collect, split_string-collect}

-- Puts the first character of `sep` between the pieces.
abbrev pub join : ℕ → List Bytes → Bytes
join c [] = []
join c (p ∷ []) = p
join c (p ∷ q ∷ ps) = p ++ c ∷ join c (q ∷ ps)

collect-keep : (ps : List Bytes) → collect whitespace_keep split_want_all ps ≡ returned ps
unfolding tidy
collect-keep [] = refl
collect-keep (p ∷ ps) = rw (collect-keep ps)

join-cons_head : (c x : ℕ) (ps : List Bytes) → join c (cons_head x ps) ≡ x ∷ join c ps
join-cons_head c x [] = refl
join-cons_head c x (p ∷ []) = refl
join-cons_head c x (p ∷ q ∷ ps) = refl

split_on-cons : (sep s : Bytes) → (q : Bytes) × (ps : List Bytes) × (split_on sep s ≡ q ∷ ps)
split_on-cons sep [] = ([], [], refl)
split_on-cons sep (x ∷ xs) =
    let (q, ps, e) = split_on-cons sep xs in
    elim (Bool-cases (one_of sep x)) [
      | inl t ↦ ([], split_on sep xs, rw t)
      | inr f ↦ (x ∷ q, ps, ground (arith))
    ]

join-sep :
    (c : ℕ) (ps : List Bytes) (q : Bytes) (qs : List Bytes)
    → ps ≡ q ∷ qs
    → join c ([] ∷ ps) ≡ c ∷ join c ps
join-sep c ps q qs e = rw e

one_of-single : (c x : ℕ) → one_of (c ∷ []) x ≡ true → c ≡ x
unfolding one_of
one_of-single c x h = ground arith

join-split_on : (c : ℕ) (s : Bytes) → join c (split_on (c ∷ []) s) ≡ s
join-split_on c [] = refl
join-split_on c (x ∷ xs) =
    let (q, ps, e) = split_on-cons (c ∷ []) xs in
    elim (Bool-cases (one_of (c ∷ []) x)) [
      | inl t ↦
          rw (t, join-sep c (split_on (c ∷ []) xs) q ps e, join-split_on c xs)
            (ap (λ d. d ∷ xs) (one_of-single c x t))
      | inr f ↦ rw (f, join-cons_head c x (split_on (c ∷ []) xs), join-split_on c xs)
    ]

-- With a separator of one character, whitespace kept and all pieces wanted, the pieces of a
-- nonempty text, put together again with the separator between, are the text.
pub split_string-join :
    (c x : ℕ) (xs : Bytes)
    → (split_string (x ∷ xs) (c ∷ []) whitespace_keep split_want_all >>= λ pieces.
        returned (join c pieces))
      ≡ returned (x ∷ xs)
split_string-join c x xs =
    rw
      (
        split_string-collect whitespace_keep split_want_all (x ∷ xs) (c ∷ []),
        collect-keep (split_on (c ∷ []) (x ∷ xs)),
      )
      (ap returned (join-split_on c (x ∷ xs)))
