-- ===== src/Strings/Ascii.antt =====
-- Character classes, case and affixes of kwctoolkit/strings/string_utils.h and string_utils.cc.
pub mod Prefixes
use kwctoolkit.Prelude.{
  ℕ, ◌+◌, ◌-◌, Bool, true, false, ◌&&◌, ◌||◌, [], ◌∷◌, map, leb, ltb, ◌==◌, if◌then◌else◌, Bytes,
  length, take, bytes_eq,
}
use mathlib.Core.List.{reverse}

-- isspace in the "C" locale.
abbrev pub is_whitespace : ℕ → Bool
is_whitespace c = c == 0x20 || (leb 0x09 c && leb c 0x0d)

abbrev pub is_ascii_lower : ℕ → Bool
is_ascii_lower c = leb b'a' c && leb c b'z'

abbrev pub is_ascii_upper : ℕ → Bool
is_ascii_upper c = leb b'A' c && leb c b'Z'

unfoldable pub to_lower_char : ℕ → ℕ
to_lower_char c = if is_ascii_upper c then c + (b'a' - b'A') else c

unfoldable pub to_upper_char : ℕ → ℕ
to_upper_char c = if is_ascii_lower c then c - (b'a' - b'A') else c

unfoldable pub to_lower_ascii : Bytes → Bytes
unfolding to_lower_char
to_lower_ascii = map to_lower_char

unfoldable pub to_upper_ascii : Bytes → Bytes
unfolding to_upper_char
to_upper_ascii = map to_upper_char

-- CaseInsensitiveCompare
abbrev pub same_letter : ℕ → ℕ → Bool
same_letter x y = to_lower_char x == to_lower_char y

-- std::equal over [a, a + length a) with a predicate.
abbrev pub equal_by : (ℕ → ℕ → Bool) → Bytes → Bytes → Bool
equal_by same [] ys = true
equal_by same (x ∷ xs) [] = false
equal_by same (x ∷ xs) (y ∷ ys) = same x y && equal_by same xs ys

unfoldable pub starts_with : Bytes → Bytes → Bool → Bool
unfolding bytes_eq to_lower_char
starts_with str search_for case_sensitive =
    if ltb (length str) (length search_for)
    then false
    else let source = take (length search_for) str in
      if case_sensitive then bytes_eq source search_for else equal_by same_letter search_for source

unfoldable pub ends_with : Bytes → Bytes → Bool
ends_with value suffix =
    if ltb (length value) (length suffix)
    then false
    else equal_by (λ x y. x == y) (reverse suffix) (reverse value)
