-- ===== src/Strings/Ascii/Prefixes.antt =====
-- Prefixes of texts, with and without regard to case.
use kwctoolkit.Prelude.{
  ℕ, ◌≡◌, refl, true, false, arith, [], ◌∷◌, map, ltb, if◌then◌else◌, Bytes, length, take, bytes_eq,
  has_prefix,
}
use kwctoolkit.Strings.Ascii.{to_lower_char, to_lower_ascii, same_letter, equal_by, starts_with}

exact :
    (p s : Bytes)
    → (if ltb (length s) (length p) then false else bytes_eq (take (length p) s) p) ≡ has_prefix p s
unfolding bytes_eq has_prefix
exact [] s = ground arith
exact (x ∷ p) [] = ground arith
exact (x ∷ p) (c ∷ s) = ground (arith, exact p s)

ignoring_case :
    (p s : Bytes)
    → (if ltb (length s) (length p) then false else equal_by same_letter p (take (length p) s))
      ≡ has_prefix (map to_lower_char p) (map to_lower_char s)
unfolding has_prefix
ignoring_case [] s = ground arith
ignoring_case (x ∷ p) [] = ground arith
ignoring_case (x ∷ p) (c ∷ s) = ground (arith, ignoring_case p s)

-- StartsWith tells exactly whether one text is a prefix of the other: as they are if case matters,
-- else after both are converted to lower case.
pub starts_with-prefix :
    (s p : Bytes)
    → (starts_with s p true ≡ has_prefix p s)
      × (starts_with s p false ≡ has_prefix (to_lower_ascii p) (to_lower_ascii s))
unfolding starts_with to_lower_ascii
starts_with-prefix s p = (exact p s, ignoring_case p s)

to_lower_char-settles : (c : ℕ) → to_lower_char (to_lower_char c) ≡ to_lower_char c
unfolding to_lower_char
to_lower_char-settles c = ground arith

-- Converting to lower case twice is converting once, and lower case compares as equal to the
-- original.
pub to_lower_ascii-settles :
    (s : Bytes)
    → (to_lower_ascii (to_lower_ascii s) ≡ to_lower_ascii s)
      × (equal_by same_letter (to_lower_ascii s) s ≡ true)
unfolding to_lower_ascii
to_lower_ascii-settles [] = (refl, refl)
to_lower_ascii-settles (c ∷ s) =
    let (twice, equal) = to_lower_ascii-settles s in
    (rw (to_lower_char-settles c, twice) refl, rw (to_lower_char-settles c, equal) (ground arith))
