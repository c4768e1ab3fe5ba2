-- ===== src/Strings/Split/Laws.antt =====
-- SplitString against the pieces between separators.
use kwctoolkit.Prelude.{
  ℕ, zero, suc, ◌+◌, ◌-◌, ◌≤◌, ◌<◌, ◌≡◌, refl, ap, ◌∙◌, inl, inr, none, some, List, [], ◌∷◌, ◌++◌,
  arith, if◌then◌else◌, Option-cases, Bytes, append-nil, append_assoc, length, is_empty, take, drop,
  one_of, substr, size_sub, take-all, length-drop, drop-drop, Outcome, returned, thrown, exhausted,
  ◌>>=◌,
}
use kwctoolkit.Strings.Split.{
  WhitespaceHandling, SplitResult, first_of, find_first_of, tidy, is_kept, push_piece, split_loop,
  split_string,
}

abbrev pub cons_head : ℕ → List Bytes → List Bytes
cons_head c [] = (c ∷ []) ∷ []
cons_head c (p ∷ ps) = (c ∷ p) ∷ ps

-- The pieces between separators, in order; one more than there are separators.
abbrev pub split_on : Bytes → Bytes → List Bytes
split_on sep [] = [] ∷ []
split_on sep (c ∷ cs) =
    let rest = split_on sep cs in if one_of sep c then [] ∷ rest else cons_head c rest

-- Each piece is trimmed if that is asked for, and dropped if it is then empty and not wanted.
abbrev pub collect : WhitespaceHandling → SplitResult → List Bytes → Outcome (List Bytes)
collect ws want [] = returned []
collect ws want (p ∷ ps) = do
  q ← tidy ws p
  rest ← collect ws want ps
  returned (if is_kept want q then q ∷ rest else rest)

module _ (sep : Bytes) where
  split_on-none : (s : Bytes) → first_of s sep ≡ none → split_on sep s ≡ s ∷ []
  unfolding first_of
  split_on-none [] h = refl
  split_on-none (c ∷ cs) h = elim (Option-cases (first_of cs sep)) [
    | inl e ↦ ground (arith, split_on-none cs e)
    | inr (i, e) ↦ ground arith
  ]

  split_on-some :
      (s : Bytes) (i : ℕ)
      → first_of s sep ≡ some i
      → (i < length s) × (split_on sep s ≡ take i s ∷ split_on sep (drop (suc i) s))
  unfolding first_of
  split_on-some [] i h = cc
  split_on-some (c ∷ cs) zero h = elim (Option-cases (first_of cs sep)) [
    | inl e ↦ ground arith
    | inr (i, e) ↦ ground arith
  ]
  split_on-some (c ∷ cs) (suc i) h = elim (Option-cases (first_of cs sep)) [
    | inl e ↦ ground arith
    | inr (j, e) ↦ ground (arith, split_on-some cs i)
  ]

-- What `result` holds already goes in front.
abbrev prepend : List Bytes → Outcome (List Bytes) → Outcome (List Bytes)
prepend result m = m >>= λ rest. returned (result ++ rest)

substr-tail :
    (s : Bytes) (start : ℕ) → start ≤ length s → substr s start (length s) ≡ some (drop start s)
unfolding substr
substr-tail s start h = ground (arith, take-all (length s) (drop start s), length-drop start s)

substr-piece :
    (s : Bytes) (start i : ℕ)
    → start ≤ length s
    → substr s start (size_sub (start + i) start) ≡ some (take i (drop start s))
unfolding substr
substr-piece s start i h =
    let e : start + i - start ≡ i = omega arith in ground (arith, ap (λ n. take n (drop start s)) e)

module _ (input sep : Bytes) (start : ℕ) where
  find_first_of-none : first_of (drop start input) sep ≡ none → find_first_of input sep start ≡ none
  unfolding find_first_of
  find_first_of-none e = rw e

  find_first_of-some :
      (i : ℕ)
      → first_of (drop start input) sep ≡ some i
      → find_first_of input sep start ≡ some (start + i)
  unfolding find_first_of
  find_first_of-some i e = rw e

prepend-nil : (m : Outcome (List Bytes)) → prepend [] m ≡ m
prepend-nil (returned r) = refl
prepend-nil thrown = refl
prepend-nil exhausted = refl

module _ (ws : WhitespaceHandling) (want : SplitResult) where
  prepend-push :
      (result : List Bytes) (q : Bytes) (m : Outcome (List Bytes))
      → prepend (push_piece want result q) m
        ≡ prepend result (m >>= λ rest. returned (if is_kept want q then q ∷ rest else rest))
  prepend-push result q thrown = refl
  prepend-push result q exhausted = refl
  prepend-push result q (returned rest) = ground (arith, append_assoc result (q ∷ []) rest)

  inner_round :
      (result : List Bytes) (t : Outcome Bytes) (m : Outcome (List Bytes))
      (loop : List Bytes → Outcome (List Bytes))
      → ((r : List Bytes) → loop r ≡ prepend r m)
      → (t >>= λ q. loop (push_piece want result q))
        ≡ prepend result
            (t >>= λ q. m >>= λ rest. returned (if is_kept want q then q ∷ rest else rest))
  inner_round result thrown m loop h = refl
  inner_round result exhausted m loop h = refl
  inner_round result (returned q) m loop h = h (push_piece want result q) ∙ prepend-push result q m

  last_round :
      (result : List Bytes) (t : Outcome Bytes)
      → (t >>= λ q. returned (push_piece want result q))
        ≡ prepend result (t >>= λ q. returned (if is_kept want q then q ∷ [] else []))
  last_round result thrown = refl
  last_round result exhausted = refl
  last_round result (returned q) = ground (arith, append-nil result)

  split_loop-collect :
      (fuel : ℕ) (input sep : Bytes) (start : ℕ) (result : List Bytes)
      → start ≤ length input
      → length input < fuel + start
      → split_loop fuel input sep ws want start result
        ≡ prepend result (collect ws want (split_on sep (drop start input)))
  unfolding split_loop
  split_loop-collect zero input sep start result h hf = absurd (omega arith)
  split_loop-collect (suc fuel) input sep start result h hf =
      elim (Option-cases (first_of (drop start input) sep)) [
        | inl e ↦
            rw (find_first_of-none input sep start e, split_loop)
              (rw (substr-tail input start h, split_on-none sep (drop start input) e)
                (last_round result (tidy ws (drop start input))))
        | inr (i, e) ↦
            let (lt, eq) = split_on-some sep (drop start input) i e in
            let next : drop (suc i) (drop start input) ≡ drop (start + i + 1) input =
              drop-drop start (suc i) input ∙ ap (λ n. drop n input) (omega arith) in
            rw (find_first_of-some input sep start i e, split_loop)
              (rw (substr-piece input start i h, eq, next)
                (inner_round result (tidy ws (take i (drop start input))) _
                  (split_loop fuel input sep ws want (start + i + 1))
                  (λ r.
                    split_loop-collect fuel input sep (start + i + 1) r
                      (omega (arith, length-drop start input)) (omega arith))))
      ]

  -- SplitString runs to its end on every text: it throws, or returns what tidying the pieces
  -- between separators one by one gives.
  pub split_string-collect :
      (input sep : Bytes)
      → split_string input sep ws want
        ≡ (if is_empty input then returned [] else collect ws want (split_on sep input))
  unfolding split_string
  split_string-collect [] sep = refl
  split_string-collect (x ∷ xs) sep =
      split_loop-collect (suc (length (x ∷ xs))) (x ∷ xs) sep 0 [] (omega arith) (omega arith)
      ∙ prepend-nil (collect ws want (split_on sep (x ∷ xs)))
