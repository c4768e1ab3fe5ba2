-- ===== src/Base/Flags.antt =====
-- kwctoolkit/base/cmdline_flags.cc. A C string is the list of its bytes in front of the NUL, and
-- nullptr is `none`. A function that returns false leaves its result alone: it is `none`. The
-- messages on std::cerr are left out, and so are the flags of floating-point numbers.
pub mod Values
use kwctoolkit.Prelude.{
  ℕ, suc, ◌+◌, ◌-◌, ◌^◌, ◌%◌, Bool, true, false, not, ◌&&◌, ◌||◌, Option, none, some, [], ◌∷◌, ◌++◌,
  ltb, leb, ◌==◌, if◌then◌else◌, is_empty, Bytes, codes, length, drop, has_prefix, ℤ, pos, negsuc,
}
use kwctoolkit.Base.Numbers.{strtol, strtoull}

-- Behind the name of the flag.
unfoldable pub flag_end_value : Bool → Bytes → Option Bytes
flag_end_value def_optional [] = if def_optional then some [] else none
flag_end_value def_optional (c ∷ value) = if c == b'=' then some value else none

unfoldable pub parse_flag_value : Option Bytes → Option Bytes → Bool → Option Bytes
unfolding has_prefix flag_end_value
parse_flag_value none flag def_optional = none
parse_flag_value (some str) none def_optional = none
parse_flag_value (some str) (some flag) def_optional =
    let flag_str = codes "--" ++ flag in
    if not (has_prefix flag_str str)
    then none
    else flag_end_value def_optional (drop (length flag_str) str)

-- static_cast<int32> of an int64.
abbrev pub to_int32 : ℤ → ℤ
to_int32 (pos n) = let r = n % 2 ^ 32 in if ltb r (2 ^ 31) then pos r else negsuc (2 ^ 32 - 1 - r)
to_int32 (negsuc n) =
    let r = n % 2 ^ 32 in if ltb r (2 ^ 31) then negsuc r else pos (2 ^ 32 - 1 - r)

abbrev pub eq_ℤ : ℤ → ℤ → Bool
eq_ℤ (pos m) (pos n) = m == n
eq_ℤ (negsuc m) (negsuc n) = m == n
eq_ℤ (pos m) (negsuc n) = false
eq_ℤ (negsuc m) (pos n) = false

-- The minimum and the maximum of int64.
abbrev pub is_limit : ℤ → Bool
is_limit n = eq_ℤ (negsuc (2 ^ 63 - 1)) n || eq_ℤ (pos (2 ^ 63 - 1)) n

unfoldable pub parse_int32 : Bytes → Option ℤ
unfolding strtol
parse_int32 str =
    let (long_val, end) = strtol 10 str in
    if not (is_empty end)
    then none
    else (let result = to_int32 long_val in
        if is_limit long_val || not (eq_ℤ result long_val) then none else some result)

unfoldable pub parse_uint16 : Bytes → Option ℕ
unfolding strtoull
parse_uint16 str =
    let (ulong_val, end) = strtoull 10 str in
    if not (is_empty end)
    then none
    else (let result = ulong_val % 2 ^ 16 in
        if 0 == ulong_val || ((2 ^ 64 - 1) == ulong_val || not (result == ulong_val))
        then none
        else some result)

-- The first character, which is the NUL in an empty string, decides.
abbrev pub is_true_value : Bytes → Bool
is_true_value [] = true
is_true_value (c ∷ value) = not (c == b'0' || (c == b'f' || c == b'F'))

abbrev pub then_parse {ℓ} : {A : Type ℓ} → Option Bytes → (Bytes → Option A) → Option A
then_parse none parse = none
then_parse (some value_str) parse = parse value_str

unfoldable pub parse_bool_flag : Option Bytes → Option Bytes → Option Bool
unfolding parse_flag_value
parse_bool_flag str flag = then_parse (parse_flag_value str flag true) (λ v. some (is_true_value v))

unfoldable pub parse_int32_flag : Option Bytes → Option Bytes → Option ℤ
unfolding parse_flag_value parse_int32
parse_int32_flag str flag = then_parse (parse_flag_value str flag false) parse_int32

unfoldable pub parse_uint16_flag : Option Bytes → Option Bytes → Option ℕ
unfolding parse_flag_value parse_uint16
parse_uint16_flag str flag = then_parse (parse_flag_value str flag false) parse_uint16

unfoldable pub parse_string_flag : Option Bytes → Option Bytes → Option Bytes
unfolding parse_flag_value
parse_string_flag str flag = then_parse (parse_flag_value str flag false) (λ v. some v)

abbrev is_some : Option Bytes → Bool
is_some none = false
is_some (some v) = true

unfoldable pub is_flag : Option Bytes → Option Bytes → Bool
unfolding parse_flag_value
is_flag str flag = is_some (parse_flag_value str flag true)
