-- ===== src/Image/Formats.antt =====
-- Which sizes pass, and which files count as PNG.
use kwctoolkit.Prelude.{
  ℕ, ◌+◌, ◌-◌, ◌*◌, ◌/◌, ◌%◌, ◌^◌, ◌<◌, ◌≤◌, ◌≡◌, refl, inl, inr, arith, Bool-cases, true, ◌&&◌,
  ◌||◌, ltb, leb, ◌==◌, ==-refl, if◌then◌else◌, Bytes, ◌∷◌, length,
}
use native.Mathlib.Nat.{mod-lt, mod-eq_of_lt}
use kwctoolkit.Image.{
  through_int, check_size_args_overflow, InputImageFormat, png_format, jpeg_format, tiff_format,
  pnm_format, unsupported_format, guess_image_type,
}

through_int-fits :
    (stride : ℕ)
    → stride < 2 ^ 64
    → (through_int stride == stride) ≡ (ltb stride (2 ^ 31) || leb (2 ^ 64 - 2 ^ 31) stride)
through_int-fits stride h = elim (Bool-cases (ltb (stride % 2 ^ 32) (2 ^ 31))) [
  | inl low ↦ rw (low) (ground arith)
  | inr high ↦ rw (high) (ground arith)
]

-- The size check passes exactly for the strides of 64 bits that an int holds, which are those
-- below 2^31 and, as negative numbers, the last 2^31. The height has no part in it: a product that
-- overflows passes.
pub check_size_args_overflow-stride :
    (stride height : ℕ)
    → stride < 2 ^ 64
    → check_size_args_overflow stride height ≡ (ltb stride (2 ^ 31) || leb (2 ^ 64 - 2 ^ 31) stride)
unfolding check_size_args_overflow
check_size_args_overflow-stride stride height h =
    let total = stride * height % 2 ^ 64 in
    let e : total % 2 ^ 64 ≡ total = mod-eq_of_lt (mod-lt (stride * height) (omega arith)) in
    rw (e) (rw (==-refl total) (through_int-fits stride h))

-- The format by the signature of four bytes.
abbrev pub by_signature : ℕ → ℕ → ℕ → ℕ → InputImageFormat
by_signature a b c d =
    if a == 0x89 && (b == b'P' && (c == b'N' && d == b'G'))
    then png_format
    else if a == 0xff && (b == 0xd8 && c == 0xff)
    then jpeg_format
    else if a == b'I' && (b == b'I' && (c == 0x2a && d == 0))
        || a == b'M' && (b == b'M' && (c == 0 && d == 0x2a))
    then tiff_format
    else if a == b'P'
    then (if leb b'5' b && leb b b'7' then pnm_format else unsupported_format)
    else unsupported_format

module _ (a b c d : ℕ) (ha : a < 256) (hb : b < 256) (hc : c < 256) (hd : d < 256) where
  magic : ℕ
  magic = a * 2 ^ 24 + b * 2 ^ 16 + c * 2 ^ 8 + d

  magic-eq :
      (p q r s : ℕ)
      → p < 256
      → q < 256
      → r < 256
      → s < 256
      → (magic == (p * 2 ^ 24 + q * 2 ^ 16 + r * 2 ^ 8 + s))
        ≡ (a == p && (b == q && (c == r && d == s)))
  unfolding magic
  magic-eq p q r s hp hq hr hs = ground arith

  magic_is_jpeg :
      (leb 0xFFD8FF00 magic && leb magic 0xFFD8FFFF) ≡ (a == 0xff && (b == 0xd8 && c == 0xff))
  unfolding magic
  magic_is_jpeg = ground arith

  magic-byte_0 : magic / 2 ^ 24 % 2 ^ 8 ≡ a
  unfolding magic
  magic-byte_0 = omega arith

  magic-byte_1 : magic / 2 ^ 16 % 2 ^ 8 ≡ b
  unfolding magic
  magic-byte_1 = omega arith

  -- Of twelve bytes or more the first four decide, as the signatures of the formats say.
  pub guess_image_type-by_signature :
      (rest : Bytes)
      → 8 ≤ length rest
      → guess_image_type (a ∷ b ∷ c ∷ d ∷ rest) ≡ by_signature a b c d
  unfolding guess_image_type magic
  guess_image_type-by_signature rest h =
      let e : leb 12 (length (a ∷ b ∷ c ∷ d ∷ rest)) ≡ true = ground arith in
      rw (e) (
        rw
          (
            magic-eq 0x89 0x50 0x4e 0x47 (omega arith) (omega arith) (omega arith) (omega arith),
            magic_is_jpeg,
            magic-eq 0x49 0x49 0x2a 0 (omega arith) (omega arith) (omega arith) (omega arith),
            magic-eq 0x4d 0x4d 0 0x2a (omega arith) (omega arith) (omega arith) (omega arith),
            magic-byte_0,
            magic-byte_1,
          )
          refl)
