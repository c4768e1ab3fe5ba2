-- ===== src/Regex.antt =====
-- The builder of regular expressions of kwctoolkit/utils/regex.h and regex.cc. The matching itself
-- is std::regex, which is not modelled. front() of an empty string is read as its NUL.
pub mod Alternatives
use kwctoolkit.Prelude.{
  ℕ, ◌-◌, Bool, true, false, not, Option, none, some, [], ◌∷◌, ◌++◌, leb, ◌==◌, if◌then◌else◌,
  Bytes, codes, length, take, drop, get_elem?, Outcome, returned, thrown, or_thrown, ◌>>=◌,
}
use kwctoolkit.Strings.Ascii.{is_whitespace}

pub data RegexStatus : Type 0 where
  standard anything_but maybe_status start_of_line_status something_but end_of_line_status :
      RegexStatus

pub record Regex : Type 0 where
  pub reg_stat : RegexStatus
  pub last_stat : RegexStatus
  pub no_case_sensitivity : Bool
  pub reg : Bytes

abbrev pub deviation_maybe : ℕ
deviation_maybe = 2

abbrev pub deviation_start_of_line : ℕ
deviation_start_of_line = 1

abbrev pub deviation_end_of_line : ℕ
deviation_end_of_line = 2

abbrev pub deviation_s_first : ℕ
deviation_s_first = 1

abbrev pub deviation_but : ℕ
deviation_but = 3

abbrev pub new_regex : Regex
new_regex = record {
  reg_stat = standard;
  last_stat = standard;
  no_case_sensitivity = false;
  reg = [];
}

abbrev pub starts_blank : Bytes → Bool
starts_blank [] = false
starts_blank (c ∷ value) = is_whitespace c

-- add, then and find.
abbrev pub add : Bytes → Regex → Regex
add value r = record r { last_stat = standard; reg = r.reg ++ codes "(" ++ value ++ codes ")" }

abbrev pub start_of_line : Bytes → Regex → Regex
start_of_line value r = record r {
  reg = r.reg ++ codes "^((" ++ value ++ codes "))";
  reg_stat = start_of_line_status;
}

abbrev pub without_case_sensitivity : Regex → Regex
without_case_sensitivity r = record r { no_case_sensitivity = true }

abbrev pub maybe : Bytes → Regex → Regex
maybe value r = record r {
  last_stat = standard;
  reg = r.reg ++ codes "((" ++ value ++ codes "))?";
  reg_stat = maybe_status;
}

abbrev pub anything_but_text : Bytes → Bytes
anything_but_text value =
    if starts_blank value then codes "\\S*" else codes "(?!(.*" ++ value ++ codes ")).*"

abbrev pub anything_but_value : Bytes → Regex → Regex
anything_but_value value r = record r {
  last_stat = standard;
  reg = r.reg ++ anything_but_text value;
  reg_stat = anything_but;
}

abbrev pub anything : Regex → Regex
anything r = record r { last_stat = standard; reg = r.reg ++ codes ".*" }

abbrev pub something : Regex → Regex
something r = record r { last_stat = standard; reg = r.reg ++ codes ".+" }

abbrev pub something_but_text : Bytes → Bytes
something_but_text value =
    if starts_blank value then codes "\\S*" else codes "(?!(.*" ++ value ++ codes ")).+"

abbrev pub something_but_value : Bytes → Regex → Regex
something_but_value value r = record r {
  last_stat = standard;
  reg = r.reg ++ something_but_text value;
  reg_stat = something_but;
}

abbrev pub end_of_line : Bytes → Regex → Regex
end_of_line value r = record r {
  last_stat = standard;
  reg = r.reg ++ codes "((" ++ value ++ codes "))$";
}

-- reg_.insert(reg_.length() - deviation, text); the position of a shorter text wraps around, and
-- so the call throws.
unfoldable pub insert_before_end : ℕ → Bytes → Bytes → Outcome Bytes
insert_before_end deviation text reg =
    if leb deviation (length reg)
    then returned (take (length reg - deviation) reg ++ text ++ drop (length reg - deviation) reg)
    else thrown

-- reg_.at(reg_.length() - deviation) == 'S'
abbrev is_s : Option ℕ → Outcome Bool
is_s none = thrown
is_s (some c) = returned (c == b'S')

unfoldable pub ends_in_s : Bytes → Outcome Bool
ends_in_s reg = is_s (get_elem? reg (length reg - deviation_s_first))

abbrev pub is_standard : RegexStatus → Bool
is_standard standard = true
is_standard status = false

-- The text of an alternative behind something negated, with its quantifier.
unfoldable pub but_alternative : Bytes → Bytes → Bytes → Outcome Bytes
unfolding insert_before_end ends_in_s
but_alternative quantifier value reg =
    if starts_blank value
    then returned (reg ++ codes "|\\S" ++ quantifier)
    else ends_in_s reg >>= λ s.
        if s
        then returned (reg ++ codes "|(?!(.*" ++ value ++ codes "))." ++ quantifier)
        else insert_before_end deviation_but (codes "|(." ++ quantifier ++ value ++ codes ")") reg

unfoldable pub alternative_text : RegexStatus → Bytes → Bytes → Outcome Bytes
unfolding insert_before_end but_alternative
alternative_text maybe_status value reg =
    insert_before_end deviation_maybe (codes "|(" ++ value ++ codes ")") reg
alternative_text start_of_line_status value reg =
    insert_before_end deviation_start_of_line (codes "|(" ++ value ++ codes ")") reg
alternative_text end_of_line_status value reg =
    insert_before_end deviation_end_of_line (codes "|(" ++ value ++ codes ")") reg
alternative_text anything_but value reg = but_alternative (codes "*") value reg
alternative_text something_but value reg = but_alternative (codes "+") value reg
alternative_text standard value reg = returned (reg ++ codes "|(" ++ value ++ codes ")")

-- The status that decides: the last alternative's, if there was one, else that of what came last.
abbrev pub deciding : Regex → RegexStatus
deciding r = if is_standard r.last_stat then r.reg_stat else r.last_stat

unfoldable pub alternative : Bytes → Regex → Outcome Regex
unfolding alternative_text
alternative value r = do
  reg ← alternative_text (deciding r) value r.reg
  returned (record r { reg = reg; last_stat = deciding r; reg_stat = standard })
