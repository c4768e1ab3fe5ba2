-- ===== src/System/Environment.antt =====
-- Environment of kwctoolkit/system/environment.cc, on POSIX, where getenv is a parameter.
use kwctoolkit.Prelude.{Bool, true, false, Option, none, some, [], ◌∷◌, if◌then◌else◌, Bytes}
use kwctoolkit.Strings.Ascii.{is_ascii_lower, is_ascii_upper, to_lower_ascii, to_upper_ascii}

-- The name in the other case; a name that starts with no letter has none.
unfoldable pub alt_case_var : Bytes → Option Bytes
unfolding to_lower_ascii to_upper_ascii
alt_case_var [] = none
alt_case_var (first_char ∷ name) =
    if is_ascii_lower first_char
    then some (to_upper_ascii (first_char ∷ name))
    else if is_ascii_upper first_char
    then some (to_lower_ascii (first_char ∷ name))
    else none

module _ (getenv : Bytes → Option Bytes) where
  unfoldable pub get_env_var : Bytes → Option Bytes
  unfolding alt_case_var
  get_env_var var_name = elim (getenv var_name) [
    | some value ↦ some value
    | none ↦ elim (alt_case_var var_name) [ some other ↦ getenv other | none ↦ none ]
  ]

  unfoldable pub has_env_var : Bytes → Bool
  unfolding get_env_var
  has_env_var var_name = elim (get_env_var var_name) [ some value ↦ true | none ↦ false ]
