-- ===== src/Levenshtein.antt =====
-- LevenshteinDistance of kwctoolkit/utils/levenshtein.h: two columns of a table of distances.
-- `unsigned int` is 32 bits wide. Each round of the outer loop writes the whole of `col` before it
-- is swapped, so a column is the list that the inner loop writes, front to back.
pub mod Edits
pub mod Table
use kwctoolkit.Prelude.{
  ℕ, zero, suc, ◌+◌, ◌%◌, ◌^◌, min, [], ◌∷◌, ◌==◌, if◌then◌else◌, Bytes, List, length, get_or,
}

-- std::iota: `n` numbers from `start` on.
pub iota : ℕ → ℕ → List ℕ
iota start zero = []
iota start (suc n) = start ∷ iota (suc start) n

abbrev pub wrap : ℕ → ℕ
wrap x = x % 2 ^ 32

abbrev pub min3 : ℕ → ℕ → ℕ → ℕ
min3 a b c = min (min a b) c

abbrev pub cost : ℕ → ℕ → ℕ
cost a b = if a == b then 0 else 1

-- for j: `left` is col[j], the list is prev_col from j on, and the text s2 from j on.
pub inner_loop : ℕ → ℕ → List ℕ → Bytes → List ℕ
inner_loop a left (p ∷ q ∷ prev) (b ∷ s2) =
    let d = min3 (wrap (q + 1)) (wrap (left + 1)) (wrap (p + cost a b)) in
    d ∷ inner_loop a d (q ∷ prev) s2
inner_loop a left prev s2 = []

-- for i: each round ends with the swap.
pub outer_loop : ℕ → List ℕ → Bytes → Bytes → List ℕ
unfolding inner_loop
outer_loop i prev [] s2 = prev
outer_loop i prev (a ∷ s1) s2 =
    outer_loop (i + 1) (wrap (i + 1) ∷ inner_loop a (wrap (i + 1)) prev s2) s1 s2

unfoldable pub levenshtein_distance : Bytes → Bytes → ℕ
unfolding iota outer_loop
levenshtein_distance s1 s2 = get_or (outer_loop 0 (iota 0 (suc (length s2))) s1 s2) (length s2) 0
