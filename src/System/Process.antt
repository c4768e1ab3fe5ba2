-- ===== src/System/Process.antt =====
-- kwctoolkit/system/process_internal_linux.cc: what /proc says of a process. The contents of a
-- file are a parameter. std::stoi throws unless there is a number that fits an int.
pub mod Stats
use kwctoolkit.Prelude.{
  ℕ, zero, suc, ◌+◌, ◌-◌, ◌^◌, Bool, true, false, not, ◌&&◌, ◌||◌, Option, none, some, List, [],
  ◌∷◌, ◌++◌, ltb, leb, ◌==◌, if◌then◌else◌, is_empty, get_elem?, Bytes, codes, length, drop,
  has_prefix, substr, size_sub, ℤ, pos, negsuc, Outcome, returned, thrown, or_thrown, ◌>>=◌,
}
use mathlib.Core.Option
use kwctoolkit.Base.Status.{to_string}
use kwctoolkit.Base.Numbers.{is_digit, atoi, scan_number, to_long}
use kwctoolkit.Strings.Split.{split_string, whitespace_trim, split_want_nonempty}
use kwctoolkit.File.Path.{file_path, append}

-- GetProcPidDirectory(pid)
pub get_proc_pid_directory : ℤ → Bytes
unfolding to_string append file_path
get_proc_pid_directory pid = append (file_path (codes "/proc")) (to_string pid)

-- Where the loop over the name ends, or nothing at a digit.
unfoldable pub scan_name : ℕ → ℕ → Bytes → Option ℕ
scan_name zero i name = some i
scan_name (suc left) i [] = some i
scan_name (suc left) i (c ∷ name) =
    let rest = scan_name left (suc i) name in
    if c == 0 then some i else if is_digit c then none else rest

unfoldable pub get_proc_directory_from_pid : Bytes → ℤ
unfolding scan_name atoi
get_proc_directory_from_pid d_name = elim (scan_name 255 0 d_name) [
  | none ↦ pos 0
  | some i ↦ if i == 255 then pos 0 else atoi d_name
]

-- s.find(text) and s.rfind(text), of a text that is not empty.
unfoldable pub find : Bytes → Bytes → Option ℕ
unfolding has_prefix
find text [] = none
find text (c ∷ s) =
    let rest = find text s in if has_prefix text (c ∷ s) then some 0 else Option.map suc rest

unfoldable pub rfind : Bytes → Bytes → Option ℕ
unfolding has_prefix
rfind text [] = none
rfind text (c ∷ s) = elim (rfind text s) [
  | some i ↦ some (suc i)
  | none ↦ if has_prefix text (c ∷ s) then some 0 else none
]

-- The stats between the two parentheses.
unfoldable pub parse_between : Bytes → ℕ → ℕ → Outcome (List Bytes)
unfolding substr split_string
parse_between stats_data open_parens_idx close_parens_idx = do
  pid ← or_thrown (substr stats_data 0 (open_parens_idx + 1))
  name ← or_thrown (
      substr stats_data (open_parens_idx + 1 + 1)
        (size_sub close_parens_idx (open_parens_idx + 1 + 1)))
  others ← or_thrown (substr stats_data close_parens_idx 2)
  other_stats ← split_string others (codes " ") whitespace_trim split_want_nonempty
  returned (pid ∷ name ∷ other_stats)

abbrev parse_found : Bytes → Option ℕ → Option ℕ → Outcome (List Bytes)
parse_found stats_data none close = returned []
parse_found stats_data (some open_parens_idx) none = returned []
parse_found stats_data (some open_parens_idx) (some close_parens_idx) =
    if ltb close_parens_idx open_parens_idx
    then returned []
    else parse_between stats_data open_parens_idx close_parens_idx

unfoldable pub parse_proc_stats : Bytes → Outcome (List Bytes)
unfolding find rfind parse_between
parse_proc_stats [] = returned []
parse_proc_stats (c ∷ stats_data) =
    parse_found (c ∷ stats_data) (find (codes " (") (c ∷ stats_data))
      (rfind (codes ") ") (c ∷ stats_data))

-- std::stoi
abbrev in_int : ℤ → Bool
in_int (pos n) = ltb n (2 ^ 31)
in_int (negsuc n) = ltb n (2 ^ 31)

unfoldable pub stoi : Bytes → Outcome ℤ
unfolding scan_number
stoi text =
    let (minus, n, rest) = scan_number 10 text in
    let value = to_long minus n in
    if length rest == length text || not (in_int value) then thrown else returned value

unfoldable pub get_proc_stats_field_as_int : List Bytes → ℕ → Outcome ℤ
unfolding stoi
get_proc_stats_field_as_int proc_stats field_num = do
  field ← or_thrown (get_elem? proc_stats field_num)
  stoi field

-- ReadProcStatsAndGetFieldAsInt on what the file holds.
unfoldable pub field_of_stats : Bytes → ℕ → Outcome ℤ
unfolding parse_proc_stats get_proc_stats_field_as_int
field_of_stats [] field_num = returned (pos 0)
field_of_stats (c ∷ stats_data) field_num = parse_proc_stats (c ∷ stats_data) >>= λ proc_stats.
    if is_empty proc_stats || leb (length proc_stats) field_num
    then returned (pos 0)
    else get_proc_stats_field_as_int proc_stats field_num

-- ReadProcStats and ReadProcStatsAndGetFieldAsInt over file::ReadFile, which leaves the buffer
-- empty when it fails.
module _ (read_file : Bytes → Bytes) where
  unfoldable pub read_proc_stats : ℤ → Bytes
  unfolding get_proc_pid_directory append
  read_proc_stats pid = read_file (append (get_proc_pid_directory pid) (codes "stat"))

  unfoldable pub read_proc_stats_and_get_field_as_int : ℤ → ℕ → Outcome ℤ
  unfolding read_proc_stats field_of_stats
  read_proc_stats_and_get_field_as_int pid field_num =
      field_of_stats (read_proc_stats pid) field_num
