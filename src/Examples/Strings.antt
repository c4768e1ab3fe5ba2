-- ===== src/Examples/Strings.antt =====
-- Trimming, splitting and the edit distance on short texts.
use kwctoolkit.Prelude.{
  codes, ◌≡◌, ◌≤◌, refl, ℕ, arith, some, [], ◌∷◌, returned, thrown, ◌>>=◌, one_of,
}
use kwctoolkit.Strings.Trim.{trim_string, find_first_not_of, find_last_not_of, trim_all}
use kwctoolkit.Strings.Trim.Laws.{trim_string-trimmed}
use kwctoolkit.Strings.Split.{
  split_string, whitespace_trim, whitespace_keep, split_want_all, split_want_nonempty,
}
use kwctoolkit.Strings.Split.Laws.{split_string-collect}
use kwctoolkit.Strings.Split.Join.{join, split_string-join}
use kwctoolkit.Strings.Split.Trimming.{split_string-trim}
use kwctoolkit.Levenshtein.{levenshtein_distance}
use kwctoolkit.Levenshtein.Edits.{Edits}
use kwctoolkit.Levenshtein.Table.{levenshtein_distance-least}

trim_spaces : trim_string (codes "  a b ") (codes " ") trim_all ≡ some (codes "a b")
unfolding trim_string find_first_not_of find_last_not_of one_of
trim_spaces = refl

trim_string-trimmed_example : trim_string (codes "  a b ") (codes " ") trim_all ≡ some (codes "a b")
unfolding one_of
trim_string-trimmed_example = trim_string-trimmed (codes "  a b ") (codes " ") trim_all

split_string-collect_example :
    split_string (codes "a, b") (codes ",") whitespace_trim split_want_all
    ≡ returned (codes "a" ∷ codes "b" ∷ [])
unfolding one_of trim_string find_first_not_of find_last_not_of split_string
split_string-collect_example =
    split_string-collect whitespace_trim split_want_all (codes "a, b") (codes ",")

split_string-join_example :
    (split_string (codes "a,,b") (codes ",") whitespace_keep split_want_all >>= λ pieces.
    returned (join 44 pieces))
    ≡ returned (codes "a,,b")
split_string-join_example = split_string-join 44 97 (codes ",,b")

split_string-trim_example :
    split_string (codes "a, ,b") (codes ",") whitespace_trim split_want_nonempty ≡ thrown
unfolding one_of
split_string-trim_example = split_string-trim (codes "a, ,b") (codes ",") split_want_nonempty

levenshtein_distance-least_example :
    Edits
      (codes "kitten")
      (codes "sitting")
      (levenshtein_distance (codes "kitten") (codes "sitting"))
    × ((n : ℕ)
        → Edits (codes "kitten") (codes "sitting") n
        → levenshtein_distance (codes "kitten") (codes "sitting") ≤ n)
levenshtein_distance-least_example =
    levenshtein_distance-least (codes "kitten") (codes "sitting") (omega arith)

kitten : levenshtein_distance (codes "kitten") (codes "sitting") ≡ 3
unfolding levenshtein_distance
kitten = refl
