-- ===== src/Base/Numbers.antt =====
-- The conversions of <cstdlib> from text to numbers, as the code calls them, on 64-bit long. A text
-- ends at its end or at a NUL. Shared by the parsers of flags, responses and process data.
pub mod Spelling
pub mod Digits
pub mod Decimals
use kwctoolkit.Prelude.{
  ℕ, zero, suc, ◌+◌, ◌-◌, ◌*◌, ◌/◌, ◌%◌, ◌^◌, Bool, true, false, not, ◌&&◌, ◌||◌, Option, none,
  some, [], ◌∷◌, leb, ltb, ◌==◌, if◌then◌else◌, Bytes, ℤ, pos, negsuc,
}
use kwctoolkit.Strings.Ascii.{is_whitespace, is_ascii_lower, is_ascii_upper}

abbrev pub is_digit : ℕ → Bool
is_digit c = leb b'0' c && leb c b'9'

-- What a character counts as a digit of any base.
abbrev pub digit_value : ℕ → ℕ
digit_value c =
    if is_digit c
    then c - b'0'
    else if is_ascii_lower c
    then c - b'a' + 10
    else if is_ascii_upper c
    then c - b'A' + 10
    else 36

unfoldable pub skip_space : Bytes → Bytes
skip_space [] = []
skip_space (c ∷ cs) = if is_whitespace c then skip_space cs else c ∷ cs

-- Whether there is a minus sign, and the text behind the sign.
unfoldable pub take_sign : Bytes → Bool × Bytes
take_sign [] = (false, [])
take_sign (c ∷ cs) =
    if c == b'-' then (true, cs) else if c == b'+' then (false, cs) else (false, c ∷ cs)

abbrev pub starts_with_digit : ℕ → Bytes → Bool
starts_with_digit base [] = false
starts_with_digit base (c ∷ cs) = ltb (digit_value c) base

-- The prefix of a number in base 16, if a digit follows.
unfoldable pub skip_prefix : ℕ → Bytes → Bytes
skip_prefix base (z ∷ x ∷ rest) =
    if base == 16 && (z == b'0' && ((x == b'x' || x == b'X') && starts_with_digit base rest))
    then rest
    else z ∷ x ∷ rest
skip_prefix base (z ∷ []) = z ∷ []
skip_prefix base [] = []

-- The number that the leading digits spell behind `acc`, and the rest.
unfoldable pub read_digits : ℕ → ℕ → Bytes → ℕ × Bytes
read_digits base acc [] = (acc, [])
read_digits base acc (c ∷ cs) = elim (ltb (digit_value c) base) [
  | true ↦ read_digits base (acc * base + digit_value c) cs
  | false ↦ (acc, c ∷ cs)
]

-- LONG_MAX and LONG_MIN on overflow.
abbrev pub to_long : Bool → ℕ → ℤ
to_long false n = if ltb n (2 ^ 63) then pos n else pos (2 ^ 63 - 1)
to_long true zero = pos 0
to_long true (suc n) = if ltb n (2 ^ 63) then negsuc n else negsuc (2 ^ 63 - 1)

-- The sign, the number, and the text where the conversion ended; no conversion gives 0 and all of
-- the text.
unfoldable pub scan_number : ℕ → Bytes → Bool × ℕ × Bytes
unfolding skip_space take_sign skip_prefix read_digits
scan_number base text =
    let (minus, unsigned) = take_sign (skip_space text) in
    let body = skip_prefix base unsigned in
    if starts_with_digit base body
    then (let (n, rest) = read_digits base 0 body in (minus, n, rest))
    else (false, 0, text)

-- strtol(text, &end, base): the value, and the text at `end`.
unfoldable pub strtol : ℕ → Bytes → ℤ × Bytes
unfolding scan_number
strtol base text = let (minus, n, rest) = scan_number base text in (to_long minus n, rest)

-- strtoull(text, &end, base); a minus sign negates in uint64.
unfoldable pub strtoull : ℕ → Bytes → ℕ × Bytes
unfolding scan_number
strtoull base text =
    let (minus, n, rest) = scan_number base text in
    (
      (if not (ltb n (2 ^ 64)) then 2 ^ 64 - 1 else if minus then (2 ^ 64 - n) % 2 ^ 64 else n),
      rest,
    )

-- atoi(text), for a value that fits an int; of a larger one the code is undefined.
unfoldable pub atoi : Bytes → ℤ
unfolding strtol
atoi text = (strtol 10 text).0
