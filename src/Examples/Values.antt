-- ===== src/Examples/Values.antt =====
-- Values of flags, image files and regular expressions.
use kwctoolkit.Prelude.{
  ◌≡◌, refl, arith, true, false, none, some, [], ◌∷◌, ◌^◌, codes, negsuc, returned,
}
use kwctoolkit.Base.Status.{to_string, decimal}
use kwctoolkit.Base.Flags.{parse_int32_flag, parse_uint16_flag}
use kwctoolkit.Base.Flags.Values.{parse_int32_flag-to_string, parse_uint16_flag-to_string}
use kwctoolkit.Image.{check_size_args_overflow, guess_image_type, png_format}
use kwctoolkit.Image.Formats.{check_size_args_overflow-stride, guess_image_type-by_signature}
use kwctoolkit.Regex.{
  standard, maybe_status, anything_but, new_regex, maybe, alternative, anything_but_value,
}
use kwctoolkit.Regex.Alternatives.{
  then_alternatives, maybe-then_alternatives, anything_but_value-alternative,
}

parse_int32_flag-to_string_example :
    parse_int32_flag (some (codes "--level=-7")) (some (codes "level")) ≡ some (negsuc 6)
unfolding to_string decimal
parse_int32_flag-to_string_example = parse_int32_flag-to_string (codes "level") (negsuc 6)

parse_uint16_flag-to_string_example :
    parse_uint16_flag (some (codes "--port=0")) (some (codes "port")) ≡ none
unfolding to_string decimal
parse_uint16_flag-to_string_example = parse_uint16_flag-to_string (codes "port") 0

check_size_args_overflow-stride_example : check_size_args_overflow (2 ^ 30) (2 ^ 40) ≡ true
check_size_args_overflow-stride_example =
    check_size_args_overflow-stride (2 ^ 30) (2 ^ 40) (omega arith)

guess_image_type-by_signature_example :
    guess_image_type (0x89 ∷ 0x50 ∷ 0x4e ∷ 0x47 ∷ codes "\r\n..\n...") ≡ png_format
guess_image_type-by_signature_example =
    guess_image_type-by_signature 0x89 0x50 0x4e 0x47 (omega arith) (omega arith) (omega arith)
      (omega arith) (codes "\r\n..\n...") (omega arith)

maybe-then_alternatives_example :
    then_alternatives (codes "b" ∷ codes "c" ∷ []) (maybe (codes "a") new_regex)
    ≡ returned (record {
      reg_stat = standard;
      last_stat = maybe_status;
      no_case_sensitivity = false;
      reg = codes "((a)|(b)|(c))?";
    })
maybe-then_alternatives_example =
    maybe-then_alternatives new_regex (codes "a") (codes "b") (codes "c" ∷ [])

anything_but_value-alternative_example :
    alternative (codes "a") (anything_but_value (codes " ") new_regex)
    ≡ returned (record {
      reg_stat = standard;
      last_stat = anything_but;
      no_case_sensitivity = false;
      reg = codes "|(.*a)\\S*";
    })
anything_but_value-alternative_example =
    anything_but_value-alternative new_regex (codes " ") (codes "a") refl refl
