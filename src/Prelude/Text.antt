-- ===== src/Prelude/Text.antt =====
-- A std::string as the list of its bytes, and the parts of std::string that the code calls.
-- `none` as a position stands for std::string::npos, and as a text for std::out_of_range.
use Prim.Native.Nat.{ℕ, suc, ◌+◌, ◌-◌, ◌^◌}
use Prim.Native.Char.{code}
use Prim.Native.String.{String}
use mathlib.Core.Path.{◌≡◌, refl}
use mathlib.Core.Bool.{Bool, true, false, ◌&&◌, ◌||◌}
use mathlib.Core.Option
use mathlib.Core.Option.{Option, none, some}
use mathlib.Core.List.{List, [], ◌∷◌}
use native.Mathlib.Omega.{arith}
use kwctoolkit.Prelude.Tests.{leb, ◌==◌, if◌then◌else◌, ==-refl}
use kwctoolkit.Prelude.Lists.{length, take, drop}

abbrev pub Bytes : Type 0
Bytes = List ℕ

abbrev pub codes : String → Bytes
codes String.[] = []
codes (String.◌∷◌ c s) = code c ∷ codes s

-- s == t
unfoldable pub bytes_eq : Bytes → Bytes → Bool
bytes_eq [] [] = true
bytes_eq [] (y ∷ ys) = false
bytes_eq (x ∷ xs) [] = false
bytes_eq (x ∷ xs) (y ∷ ys) = x == y && bytes_eq xs ys

pub bytes_eq_refl : (s : Bytes) → bytes_eq s s ≡ true
unfolding bytes_eq
bytes_eq_refl [] = refl
bytes_eq_refl (x ∷ xs) = ground (arith, bytes_eq_refl xs, ==-refl x)

pub bytes_eq→eq : (s t : Bytes) → bytes_eq s t ≡ true → s ≡ t
unfolding bytes_eq
bytes_eq→eq [] [] h = refl
bytes_eq→eq [] (y ∷ ys) h = cc
bytes_eq→eq (x ∷ xs) [] h = cc
bytes_eq→eq (x ∷ xs) (y ∷ ys) h = ground (arith, bytes_eq→eq xs ys)

-- Whether `c` is one of the characters of `set`.
unfoldable pub one_of : Bytes → ℕ → Bool
one_of [] c = false
one_of (x ∷ xs) c = x == c || one_of xs c

-- s.substr(pos, count), which throws if `pos` is past the end.
unfoldable pub substr : Bytes → ℕ → ℕ → Option Bytes
substr s pos count = if leb pos (length s) then some (take count (drop pos s)) else none

-- a - b in size_t, for `a` and `b` that fit it.
abbrev pub size_sub : ℕ → ℕ → ℕ
size_sub a b = if leb b a then a - b else 2 ^ 64 + a - b

-- s.find(c), from the front.
unfoldable pub find_char : Bytes → ℕ → Option ℕ
find_char [] c = none
find_char (x ∷ xs) c = if x == c then some 0 else Option.map suc (find_char xs c)

-- Whether `p` is a prefix of `s`: s.compare(0, p.length(), p) == 0.
unfoldable pub has_prefix : Bytes → Bytes → Bool
has_prefix [] s = true
has_prefix (p ∷ ps) [] = false
has_prefix (p ∷ ps) (c ∷ s) = p == c && has_prefix ps s
