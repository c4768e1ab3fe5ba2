-- ===== src/Strings/Unicode.antt =====
-- ConvertUnicode of kwctoolkit/strings/utf_string_conversion.cc, in both directions, behind the
-- tests for ASCII. The macros of ICU are parameters: CBU8_NEXT gives the code point at an index, which
-- is negative on an error, and the index behind it, and CBU8_APPEND_UNSAFE the bytes of a code
-- point. wchar_t has 32 bits.
use kwctoolkit.Prelude.{
  ℕ, zero, suc, Bool, true, false, ◌&&◌, ◌||◌, List, [], ◌∷◌, ◌++◌, leb, ltb, if◌then◌else◌, Bytes,
  length, ℤ, pos, negsuc, Outcome, returned, exhausted, ◌>>=◌,
}

abbrev pub is_valid_codepoint : ℕ → Bool
is_valid_codepoint code_point =
    ltb code_point 0xD800 || leb 0xE000 code_point && leb code_point 0x10FFFF

-- What is written for a code point that could not be read.
abbrev pub replacement : ℕ
replacement = 0xFFFD

-- A negative code point is a large one in uint32.
abbrev pub read_code_point : ℤ → Bool × ℕ
read_code_point (pos n) = (is_valid_codepoint n, if is_valid_codepoint n then n else replacement)
read_code_point (negsuc n) = (false, replacement)

module _ (append_unsafe : ℕ → Bytes) where
  abbrev pub write_utf8 : ℕ → Bytes
  write_utf8 code_point = if leb code_point 0x7f then code_point ∷ [] else append_unsafe code_point

  -- From wide characters to UTF-8: whether all could be read, and the text.
  unfoldable pub convert_to_utf8 : List ℕ → Bool × Bytes
  convert_to_utf8 [] = (true, [])
  convert_to_utf8 (c ∷ src) =
      let (valid, code_point) = read_code_point (pos c) in
      let (success, output) = convert_to_utf8 src in
      (valid && success, write_utf8 code_point ++ output)

module _ (next : Bytes → ℕ → ℤ × ℕ) where
  -- From UTF-8 to wide characters, one round for each code point.
  unfoldable pub wide_loop : ℕ → Bytes → ℕ → Outcome (Bool × List ℕ)
  wide_loop zero src i = exhausted
  wide_loop (suc fuel) src i = elim (ltb i (length src)) [
    | false ↦ returned (true, [])
    | true ↦ do
      let (c, behind) = next src i
      let (valid, code_point) = read_code_point c
      (success, output) ← wide_loop fuel src behind
      returned (valid && success, code_point ∷ output)
  ]

  unfoldable pub convert_to_wide : ℕ → Bytes → Outcome (Bool × List ℕ)
  unfolding wide_loop
  convert_to_wide fuel src = wide_loop fuel src 0
