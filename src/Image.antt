-- ===== src/Image.antt =====
-- The parts of kwctoolkit/image that decide on sizes and formats: image_utils.cc and
-- image_decoder.cc. size_t has 64 bits. Decoding itself is done by libpng.
pub mod Formats
use kwctoolkit.Prelude.{
  ℕ, ◌+◌, ◌-◌, ◌*◌, ◌/◌, ◌%◌, ◌^◌, Bool, true, false, ◌&&◌, ◌||◌, ltb, leb, ◌==◌, if◌then◌else◌,
  Bytes, length, get_or,
}

-- (uint64)(int)stride, by extension of the sign.
abbrev pub through_int : ℕ → ℕ
through_int stride =
    let low = stride % 2 ^ 32 in if ltb low (2 ^ 31) then low else 2 ^ 64 - 2 ^ 32 + low

unfoldable pub check_size_args_overflow : ℕ → ℕ → Bool
check_size_args_overflow stride height =
    let total_size = stride * height % 2 ^ 64 in
    total_size == total_size % 2 ^ 64 && through_int stride == stride

pub data InputImageFormat : Type 0 where
  png_format jpeg_format tiff_format pnm_format unsupported_format : InputImageFormat

-- GetBE32(buffer), of bytes.
abbrev pub get_be32 : Bytes → ℕ
get_be32 buffer =
    get_or buffer 0 0 * 2 ^ 24
    + get_or buffer 1 0 * 2 ^ 16
    + get_or buffer 2 0 * 2 ^ 8
    + get_or buffer 3 0

abbrev pub format_of_magic : ℕ → InputImageFormat
format_of_magic magic =
    if magic == 0x89504E47
    then png_format
    else if leb 0xFFD8FF00 magic && leb magic 0xFFD8FFFF
    then jpeg_format
    else if magic == 0x49492A00 || magic == 0x4D4D002A
    then tiff_format
    else if magic / 2 ^ 24 % 2 ^ 8 == b'P'
    then (let type = magic / 2 ^ 16 % 2 ^ 8 in
        if leb b'5' type && leb type b'7' then pnm_format else unsupported_format)
    else unsupported_format

unfoldable pub guess_image_type : Bytes → InputImageFormat
guess_image_type data_ =
    if leb 12 (length data_) then format_of_magic (get_be32 data_) else unsupported_format
