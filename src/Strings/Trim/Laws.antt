-- ===== src/Strings/Trim/Laws.antt =====
-- TrimString against the meaning of trimming.
use kwctoolkit.Prelude.{
  ℕ, zero, suc, ◌-◌, ◌≤◌, ◌<◌, ◌≡◌, ◌≢◌, refl, sym, ap, ◌∙◌, inl, inr, true, false, not, ◌&&◌, none,
  some, [], ◌∷◌, arith, if◌then◌else◌, Option-cases, Bytes, length, is_empty, take, drop, one_of,
  substr, size_sub, take-all, length-drop,
}
use kwctoolkit.Strings.Trim.{
  TrimPositions, trim_none, trim_leading, trim_trailing, trim_all, trims_leading, find_first_not_of,
  find_last_not_of, after, trim_string, drop_while, drop_while_end, all_of, trimmed,
}

module _ (cs : Bytes) where
  find_first-none : (s : Bytes) → find_first_not_of s cs ≡ none → all_of cs s ≡ true
  unfolding find_first_not_of
  find_first-none [] h = refl
  find_first-none (x ∷ xs) h = elim (Option-cases (find_first_not_of xs cs)) [
    | inl e ↦ ground (arith, find_first-none xs)
    | inr (i, e) ↦ ground arith
  ]

  find_first-some :
      (s : Bytes) (i : ℕ)
      → find_first_not_of s cs ≡ some i
      → (all_of cs s ≡ false) × (i ≤ length s) × (drop i s ≡ drop_while cs s)
  unfolding find_first_not_of
  find_first-some [] i h = cc
  find_first-some (x ∷ xs) zero h = elim (Option-cases (find_first_not_of xs cs)) [
    | inl e ↦ ground arith
    | inr (j, e) ↦ ground arith
  ]
  find_first-some (x ∷ xs) (suc i) h = elim (Option-cases (find_first_not_of xs cs)) [
    | inl e ↦ ground arith
    | inr (j, e) ↦ ground (arith, find_first-some xs i)
  ]

  find_last-none :
      (s : Bytes) → find_last_not_of s cs ≡ none → (all_of cs s ≡ true) × (drop_while_end cs s ≡ [])
  unfolding find_last_not_of
  find_last-none [] h = (refl, refl)
  find_last-none (x ∷ xs) h = elim (Option-cases (find_last_not_of xs cs)) [
    | inl e ↦ ground (arith, find_last-none xs)
    | inr (j, e) ↦ ground arith
  ]

  find_last-some :
      (s : Bytes) (i : ℕ)
      → find_last_not_of s cs ≡ some i
      → (all_of cs s ≡ false)
        × (i < length s)
        × (take (suc i) s ≡ drop_while_end cs s)
        × (drop_while_end cs s ≢ [])
  unfolding find_last_not_of
  find_last-some [] i h = cc
  find_last-some (x ∷ xs) i h = elim (Option-cases (find_last_not_of xs cs)) [
    | inl e ↦ ground (arith, find_last-none xs e)
    | inr (j, e) ↦ ground (arith, find_last-some xs j e)
  ]

module _ (cs : Bytes) where
  all_of→drop_while : (s : Bytes) → all_of cs s ≡ true → drop_while cs s ≡ []
  all_of→drop_while [] h = refl
  all_of→drop_while (x ∷ xs) h = ground (arith, all_of→drop_while xs)

  first_zero : (x : ℕ) (xs : Bytes) → find_first_not_of (x ∷ xs) cs ≡ some 0 → one_of cs x ≡ false
  unfolding find_first_not_of
  first_zero x xs h = elim (Option-cases (find_first_not_of xs cs)) [
    | inl e ↦ ground arith
    | inr (j, e) ↦ ground arith
  ]

  first_suc :
      (x : ℕ) (xs : Bytes) (i : ℕ)
      → find_first_not_of (x ∷ xs) cs ≡ some (suc i)
      → (one_of cs x ≡ true) × (find_first_not_of xs cs ≡ some i)
  unfolding find_first_not_of
  first_suc x xs i h = elim (Option-cases (find_first_not_of xs cs)) [
    | inl e ↦ ground arith
    | inr (j, e) ↦ ground arith
  ]

  last_suc :
      (x : ℕ) (xs : Bytes) (j : ℕ)
      → find_last_not_of (x ∷ xs) cs ≡ some j
      → all_of cs xs ≡ false
      → (k : ℕ) × (j ≡ suc k) × (find_last_not_of xs cs ≡ some k)
  unfolding find_last_not_of
  last_suc x xs j h a = elim (Option-cases (find_last_not_of xs cs)) [
    | inl e ↦ absurd (ground (arith, find_last-none cs xs e))
    | inr (k, e) ↦ (k, ground arith, e)
  ]

  -- Between the two positions that the searches return lies the trimmed text.
  between :
      (s : Bytes) (i j : ℕ)
      → find_first_not_of s cs ≡ some i
      → find_last_not_of s cs ≡ some j
      → (i ≤ j) × (take (suc j - i) (drop i s) ≡ drop_while_end cs (drop_while cs s))
  between [] i j h k = unfold find_first_not_of in cc
  between (x ∷ xs) zero j h k =
      let e : suc j - 0 ≡ suc j = omega arith in
      (omega arith, rw (e, first_zero x xs h) (find_last-some cs (x ∷ xs) j k).2)
  between (x ∷ xs) (suc i) j h k =
      let (fx, fs) = first_suc x xs i h in
      let (j', ej, ls) = last_suc x xs j k (find_first-some cs xs i fs).0 in
      let (le, eq) = between xs i j' fs ls in
      let e : suc j - suc i ≡ suc j' - i = omega arith in (omega arith, rw (e, fx) eq)

substr-within :
    (s : Bytes) (i j : ℕ)
    → i ≤ length s
    → i ≤ j
    → substr s i (size_sub j i) ≡ some (take (j - i) (drop i s))
unfolding substr
substr-within s i j h k = ground arith

substr-front : (s : Bytes) (j : ℕ) → substr s 0 (size_sub j 0) ≡ some (take j s)
substr-front s j =
    let e : j - 0 ≡ j = omega arith in
    substr-within s 0 j (omega arith) (omega arith) ∙ ap (λ n. some (take n s)) e

trim_both :
    (s cs : Bytes) (i : ℕ)
    → find_first_not_of s cs ≡ some i
    → substr s i (size_sub (after (find_last_not_of s cs)) i)
      ≡ some (drop_while_end cs (drop_while cs s))
trim_both s cs i h =
    let (other, le, eq) = find_first-some cs s i h in
    elim (Option-cases (find_last_not_of s cs)) [
      | inl e ↦ absurd (ground (arith, find_last-none cs s e))
      | inr (j, e) ↦
          let (ij, eq) = between cs s i j h e in
          rw e (substr-within s i (suc j) le (omega arith) ∙ ap some eq)
    ]

-- Trimming throws exactly if a nonempty text is to be trimmed in front and has no other
-- characters than the trimmed ones; otherwise it returns the text between.
pub trim_string-trimmed :
    (s cs : Bytes) (p : TrimPositions)
    → trim_string s cs p
      ≡ (if trims_leading p && not (is_empty s) && all_of cs s then none else some (trimmed s cs p))
unfolding trim_string
trim_string-trimmed [] cs trim_none = refl
trim_string-trimmed [] cs trim_leading = refl
trim_string-trimmed [] cs trim_trailing = refl
trim_string-trimmed [] cs trim_all = refl
trim_string-trimmed (x ∷ xs) cs trim_none =
    substr-front (x ∷ xs) (length (x ∷ xs))
    ∙ ap some (take-all (length (x ∷ xs)) (x ∷ xs) (omega arith))
trim_string-trimmed (x ∷ xs) cs trim_leading = elim (Option-cases (find_first_not_of (x ∷ xs) cs)) [
  | inl e ↦ ground (arith, find_first-none cs (x ∷ xs) e)
  | inr (i, e) ↦
      let (some_other, le, eq) = find_first-some cs (x ∷ xs) i e in
      rw (e, some_other)
        (substr-within (x ∷ xs) i (length (x ∷ xs)) le le
          ∙ ap some (
              take-all (length (x ∷ xs) - i) (drop i (x ∷ xs))
                (omega (arith, length-drop i (x ∷ xs)))
              ∙ eq))
]
trim_string-trimmed (x ∷ xs) cs trim_trailing = elim (Option-cases (find_last_not_of (x ∷ xs) cs)) [
  | inl e ↦ rw e (substr-front (x ∷ xs) 0 ∙ ap some (sym (find_last-none cs (x ∷ xs) e).1))
  | inr (i, e) ↦ rw e (substr-front (x ∷ xs) (suc i) ∙ ap some (find_last-some cs (x ∷ xs) i e).2)
]
trim_string-trimmed (x ∷ xs) cs trim_all = elim (Option-cases (find_first_not_of (x ∷ xs) cs)) [
  | inl e ↦ ground (arith, find_first-none cs (x ∷ xs) e)
  | inr (i, e) ↦ rw (e, (find_first-some cs (x ∷ xs) i e).0) (trim_both (x ∷ xs) cs i e)
]
