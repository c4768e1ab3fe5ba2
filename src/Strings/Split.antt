-- ===== src/Strings/Split.antt =====
-- SplitString of kwctoolkit/strings/string_split.cc.
pub mod Laws
pub mod Join
pub mod Trimming
use mathlib.Core.Option
use kwctoolkit.Prelude.{
  ℕ, zero, suc, ◌+◌, ◌-◌, ◌^◌, Bool, true, false, not, ◌||◌, Option, none, some, List, [], ◌∷◌,
  ◌++◌, leb, if◌then◌else◌, Bytes, length, is_empty, drop, one_of, substr, size_sub, Outcome,
  returned, thrown, exhausted, or_thrown, ◌>>=◌,
}
use kwctoolkit.Strings.Trim.{trim_string, trim_all}

pub data WhitespaceHandling : Type 0 where
  whitespace_keep whitespace_trim : WhitespaceHandling

pub data SplitResult : Type 0 where
  split_want_all split_want_nonempty : SplitResult

-- kWhitespaceASCII: tab, line tab, form feed, space, line feed, carriage return.
abbrev pub whitespace_ascii : Bytes
whitespace_ascii = 0x09 ∷ 0x0b ∷ 0x0c ∷ 0x20 ∷ 0x0a ∷ 0x0d ∷ []

unfoldable pub first_of : Bytes → Bytes → Option ℕ
first_of [] sep = none
first_of (x ∷ xs) sep = if one_of sep x then some 0 else Option.map suc (first_of xs sep)

-- input.find_first_of(separator, start)
unfoldable pub find_first_of : Bytes → Bytes → ℕ → Option ℕ
unfolding first_of
find_first_of input sep start = Option.map (λ i. start + i) (first_of (drop start input) sep)

unfoldable pub tidy : WhitespaceHandling → Bytes → Outcome Bytes
tidy whitespace_trim piece = or_thrown (trim_string piece whitespace_ascii trim_all)
tidy whitespace_keep piece = returned piece

abbrev pub is_want_all : SplitResult → Bool
is_want_all split_want_all = true
is_want_all split_want_nonempty = false

abbrev pub is_kept : SplitResult → Bytes → Bool
is_kept want piece = is_want_all want || not (is_empty piece)

abbrev pub push_piece : SplitResult → List Bytes → Bytes → List Bytes
push_piece want result piece = if is_kept want piece then result ++ piece ∷ [] else result

-- One round for each value of `start`; a round that finds no separator is the last.
unfoldable pub split_loop :
    ℕ → Bytes → Bytes → WhitespaceHandling → SplitResult → ℕ → List Bytes → Outcome (List Bytes)
split_loop zero input sep ws want start result = exhausted
split_loop (suc fuel) input sep ws want start result = elim (find_first_of input sep start) [
  | none ↦ do
    piece ← or_thrown (substr input start (length input))
    piece' ← tidy ws piece
    returned (push_piece want result piece')
  | some end ↦ do
    piece ← or_thrown (substr input start (size_sub end start))
    piece' ← tidy ws piece
    split_loop fuel input sep ws want (end + 1) (push_piece want result piece')
]

-- There is a round for each character at most, and one more.
unfoldable pub split_string :
    Bytes → Bytes → WhitespaceHandling → SplitResult → Outcome (List Bytes)
unfolding split_loop find_first_of tidy substr trim_string
split_string [] sep ws want = returned []
split_string (x ∷ xs) sep ws want = split_loop (suc (length (x ∷ xs))) (x ∷ xs) sep ws want 0 []
