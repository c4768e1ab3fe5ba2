-- ===== src/Strings/Trim.antt =====
-- TrimString of kwctoolkit/strings/string_utils.cc.
pub mod Laws
use mathlib.Core.Option
use kwctoolkit.Prelude.{
  ℕ, suc, ◌+◌, ◌-◌, ◌^◌, Bool, true, false, ◌&&◌, Option, none, some, [], ◌∷◌, leb, if◌then◌else◌,
  Bytes, length, is_empty, one_of, substr, size_sub,
}

pub data TrimPositions : Type 0 where
  trim_none trim_leading trim_trailing trim_all : TrimPositions

-- positions & TRIM_LEADING, positions & TRIM_TRAILING
abbrev pub trims_leading : TrimPositions → Bool
trims_leading trim_leading = true
trims_leading trim_all = true
trims_leading trim_none = false
trims_leading trim_trailing = false

abbrev pub trims_trailing : TrimPositions → Bool
trims_trailing trim_trailing = true
trims_trailing trim_all = true
trims_trailing trim_none = false
trims_trailing trim_leading = false

-- input.find_first_not_of(trim_chars)
unfoldable pub find_first_not_of : Bytes → Bytes → Option ℕ
find_first_not_of [] cs = none
find_first_not_of (x ∷ xs) cs =
    let rest = find_first_not_of xs cs in if one_of cs x then Option.map suc rest else some 0

-- input.find_last_not_of(trim_chars)
unfoldable pub find_last_not_of : Bytes → Bytes → Option ℕ
find_last_not_of [] cs = none
find_last_not_of (x ∷ xs) cs = elim (find_last_not_of xs cs) [
  | some i ↦ some (suc i)
  | none ↦ if one_of cs x then none else some 0
]

-- npos + 1 wraps to 0.
abbrev pub after : Option ℕ → ℕ
after none = 0
after (some i) = suc i

-- A call of `substr` from npos throws; `none` is the exception.
abbrev pub substr_from : Bytes → Option ℕ → ℕ → Option Bytes
substr_from s none end = none
substr_from s (some begin) end = substr s begin (size_sub end begin)

unfoldable pub trim_string : Bytes → Bytes → TrimPositions → Option Bytes
unfolding substr
trim_string [] cs p = some []
trim_string (x ∷ xs) cs p =
    let begin = if trims_leading p then find_first_not_of (x ∷ xs) cs else some 0 in
    let end = if trims_trailing p then after (find_last_not_of (x ∷ xs) cs) else length (x ∷ xs) in
    substr_from (x ∷ xs) begin end

-- What trimming means: the longest prefix, or suffix, of trimmed characters goes.
abbrev pub drop_while : Bytes → Bytes → Bytes
drop_while cs [] = []
drop_while cs (x ∷ xs) = if one_of cs x then drop_while cs xs else x ∷ xs

abbrev pub drop_while_end : Bytes → Bytes → Bytes
drop_while_end cs [] = []
drop_while_end cs (x ∷ xs) =
    let rest = drop_while_end cs xs in if one_of cs x && is_empty rest then [] else x ∷ rest

abbrev pub all_of : Bytes → Bytes → Bool
all_of cs [] = true
all_of cs (x ∷ xs) = one_of cs x && all_of cs xs

abbrev pub trimmed : Bytes → Bytes → TrimPositions → Bytes
trimmed s cs trim_none = s
trimmed s cs trim_leading = drop_while cs s
trimmed s cs trim_trailing = drop_while_end cs s
trimmed s cs trim_all = drop_while_end cs (drop_while cs s)
