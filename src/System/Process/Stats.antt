-- ===== src/System/Process/Stats.antt =====
-- What the parser finds in the stats of a process.
use kwctoolkit.Prelude.{
  ℕ, zero, suc, ◌+◌, ◌≤◌, ◌<◌, ◌≡◌, refl, sym, ap, ◌∙◌, inl, inr, arith, Bool-cases, Option-cases,
  Bool, true, false, ◌||◌, some, List, [], ◌∷◌, ◌++◌, ltb, leb, is_empty, Bytes, codes, length,
  length-append, length-drop, take, drop, take-append_length, has_prefix, substr, size_sub, pos,
  returned,
}
use kwctoolkit.Prelude.{one_of}
use kwctoolkit.Strings.Trim.{trim_string, find_first_not_of, find_last_not_of}
use kwctoolkit.Strings.Split.{split_string, split_loop, find_first_of, first_of, tidy}
use kwctoolkit.System.Process.{find, rfind, parse_between, parse_proc_stats, field_of_stats}

-- A text with a prefix is that prefix and the rest.
has_prefix-split : (p s : Bytes) → has_prefix p s ≡ true → s ≡ p ++ drop (length p) s
unfolding has_prefix
has_prefix-split [] s h = refl
has_prefix-split (c ∷ p) [] h = cc
has_prefix-split (c ∷ p) (d ∷ s) h =
    let same : c ≡ d = ground arith in
    let rest : has_prefix p s ≡ true = ground arith in
    ap (λ e. e ∷ s) (sym same) ∙ ap (λ t. c ∷ t) (has_prefix-split p s rest)

find-has_prefix :
    (text s : Bytes) (i : ℕ) → find text s ≡ some i → has_prefix text (drop i s) ≡ true
unfolding find
find-has_prefix text [] i h = cc
find-has_prefix text (c ∷ s) zero h = elim (Bool-cases (has_prefix text (c ∷ s))) [
  | inl e ↦ e
  | inr e ↦ elim (Option-cases (find text s)) [
    | inl missing ↦ ground arith
    | inr (j, found) ↦ ground arith
  ]
]
find-has_prefix text (c ∷ s) (suc i) h = elim (Bool-cases (has_prefix text (c ∷ s))) [
  | inl e ↦ ground arith
  | inr e ↦ elim (Option-cases (find text s)) [
    | inl missing ↦ ground arith
    | inr (j, found) ↦ ground (arith, find-has_prefix text s i)
  ]
]

rfind-has_prefix :
    (text s : Bytes) (i : ℕ) → rfind text s ≡ some i → has_prefix text (drop i s) ≡ true
unfolding rfind
rfind-has_prefix text [] i h = cc
rfind-has_prefix text (c ∷ s) zero h = elim (Option-cases (rfind text s)) [
  | inl missing ↦ ground arith
  | inr (j, found) ↦ ground arith
]
rfind-has_prefix text (c ∷ s) (suc i) h = elim (Option-cases (rfind text s)) [
  | inl missing ↦ ground arith
  | inr (j, found) ↦ ground (arith, rfind-has_prefix text s i)
]

-- What stands where a text begins.
substr-prefix :
    (p s : Bytes) (i : ℕ)
    → 0 < length p
    → has_prefix p (drop i s) ≡ true
    → (i + length p ≤ length s) × (substr s i (length p) ≡ some p)
unfolding substr
substr-prefix p s i hp h =
    let e = has_prefix-split p (drop i s) h in
    let len : length (drop i s) ≡ length p + length (drop (length p) (drop i s)) =
      ap length e ∙ length-append p (drop (length p) (drop i s)) in
    let bound : i + length p ≤ length s = omega (arith, len, length-drop i s) in
    let t : leb i (length s) ≡ true = ground arith in
    (
      bound,
      rw (t) (
          ap (λ u. some (take (length p) u)) e
          ∙ ap some (take-append_length p (drop (length p) (drop i s)))),
    )

substr-within : (s : Bytes) (i n : ℕ) → i ≤ length s → substr s i n ≡ some (take n (drop i s))
unfolding substr
substr-within s i n h = let t : leb i (length s) ≡ true = ground arith in rw (t) refl

-- Between the parentheses there is the name, and behind the closing one nothing is found but the
-- parenthesis itself.
parse_between-short :
    (s : Bytes) (open_parens_idx close_parens_idx : ℕ)
    → find (codes " (") s ≡ some open_parens_idx
    → rfind (codes ") ") s ≡ some close_parens_idx
    → (pid name : Bytes) × (parse_between s open_parens_idx close_parens_idx
        ≡ returned (pid ∷ name ∷ codes ")" ∷ []))
unfolding parse_between split_string split_loop find_first_of first_of tidy trim_string
    find_first_not_of find_last_not_of one_of
parse_between-short s i j hi hj =
    let (oi, ei) =
      substr-prefix (codes " (") s i (omega arith) (find-has_prefix (codes " (") s i hi) in
    let (oj, ej) =
      substr-prefix (codes ") ") s j (omega arith) (rfind-has_prefix (codes ") ") s j hj) in
    (
      take (i + 1) s,
      take (size_sub j (i + 1 + 1)) (drop (i + 1 + 1) s),
      rw
          (
            substr-within s 0 (i + 1) (omega arith),
            substr-within s (i + 1 + 1) (size_sub j (i + 1 + 1)) (omega arith),
            ej,
          )
          refl,
    )

parse_found-short :
    (c : ℕ) (s : Bytes)
    → (stats : List Bytes) × (parse_proc_stats (c ∷ s) ≡ returned stats) × (length stats ≤ 3)
unfolding parse_proc_stats
parse_found-short c s = elim (Option-cases (find (codes " (") (c ∷ s))) [
  | inl missing ↦ ([], rw (missing) refl, omega arith)
  | inr (i, opens) ↦ elim (Option-cases (rfind (codes ") ") (c ∷ s))) [
    | inl missing ↦ ([], rw (opens, missing) refl, omega arith)
    | inr (j, closes) ↦ elim (Bool-cases (ltb j i)) [
      | inl wrong ↦ ([], rw (opens, closes) (rw (wrong) refl), omega arith)
      | inr right ↦
          let (pid, name, e) = parse_between-short (c ∷ s) i j opens closes in
          (pid ∷ name ∷ codes ")" ∷ [], rw (opens, closes) (rw (right) e), omega arith)
    ]
  ]
]

-- Whatever the stat file of a process holds, the fields from the fourth on (the parent, the process
-- group, the times, the number of threads, the memory) are returned as 0, without an exception: the
-- rest of the text is cut to two characters before it is split.
pub field_of_stats-zero :
    (stats_data : Bytes) (field_num : ℕ)
    → 3 ≤ field_num
    → field_of_stats stats_data field_num ≡ returned (pos 0)
unfolding field_of_stats
field_of_stats-zero [] k h = refl
field_of_stats-zero (c ∷ s) k h =
    let (stats, e, short) = parse_found-short c s in
    let t : leb (length stats) k ≡ true = ground arith in
    rw (e) (rw (t) (rw (or_true (is_empty stats)) refl))
  where
    or_true : (b : Bool) → (b || true) ≡ true
    or_true true = refl
    or_true false = refl
