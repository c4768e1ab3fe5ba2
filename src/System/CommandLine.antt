-- ===== src/System/CommandLine.antt =====
-- CommandLine of kwctoolkit/system/cmdline.h and cmdline.cc. The map of switches is an association
-- list with one entry for a key; the order of its keys is not modelled.
pub mod Layout
pub mod Parsing
pub mod Printing
use mathlib.Core.Option
use kwctoolkit.Prelude.{
  ℕ, zero, suc, ◌+◌, Bool, true, false, not, ◌&&◌, ◌||◌, Option, none, some, List, [], ◌∷◌, ◌++◌,
  ◌==◌, if◌then◌else◌, is_empty, get_or, Bytes, codes, bytes_eq, length, take, drop, find_char,
  has_prefix, Outcome, returned, or_thrown, ◌>>=◌,
}
use kwctoolkit.File.Path.{file_path}
use kwctoolkit.Strings.Trim.{trim_string, trim_all}

abbrev pub SwitchMap : Type 0
SwitchMap = List (Bytes × Bytes)

pub record CommandLine : Type 0 where
  pub argv : List Bytes
  pub switches : SwitchMap
  pub start_args : ℕ

abbrev pub switch_terminator : Bytes
switch_terminator = codes "--"

-- CommandLine(NoProgram)
abbrev pub no_program : CommandLine
no_program = record { argv = [] ∷ []; switches = []; start_args = 1 }

-- switches_.find(key)
unfoldable pub find_switch : Bytes → SwitchMap → Option Bytes
unfolding bytes_eq
find_switch key [] = none
find_switch key ((k, v) ∷ rest) = if bytes_eq key k then some v else find_switch key rest

-- switches_.insert of a pair, and the assignment if the key is there.
unfoldable pub put_switch : Bytes → Bytes → SwitchMap → SwitchMap
unfolding bytes_eq
put_switch key value [] = (key, value) ∷ []
put_switch key value ((k, v) ∷ rest) =
    if bytes_eq key k then (k, value) ∷ rest else (k, v) ∷ put_switch key value rest

-- getSwitchPrefixLength
unfoldable pub switch_prefix_length : Bytes → ℕ
unfolding has_prefix
switch_prefix_length s =
    if has_prefix (codes "--") s then 2 else if has_prefix (codes "-") s then 1 else 0

-- isSwitch: the switch with its prefix, and its value.
unfoldable pub is_switch : Bytes → Option (Bytes × Bytes)
unfolding switch_prefix_length find_char
is_switch s =
    let n = switch_prefix_length s in
    if n == 0 || n == length s
    then none
    else elim (find_char s b'=') [ none ↦ some (s, []) | some i ↦ some (take i s, drop (i + 1) s) ]

-- argv_[0] = program
abbrev pub put_program : Bytes → List Bytes → List Bytes
put_program program [] = []
put_program program (p ∷ rest) = program ∷ rest

unfoldable pub set_program : Bytes → CommandLine → Outcome CommandLine
set_program program cl = do
  trimmed ← or_thrown (trim_string program (codes " ") trim_all)
  returned (record cl { argv = put_program trimmed cl.argv })

abbrev pub value_suffix : Bytes → Bytes
value_suffix value = if is_empty value then [] else codes "=" ++ value

-- combined_switch_str
unfoldable pub combined : Bytes → Bytes → Bytes
unfolding switch_prefix_length
combined switch_string value =
    (if switch_prefix_length switch_string == 0 then codes "--" ++ switch_string else switch_string)
    ++ value_suffix value

-- switch_string.substr(prefix_length)
unfoldable pub switch_key : Bytes → Bytes
unfolding switch_prefix_length
switch_key switch_string = drop (switch_prefix_length switch_string) switch_string

unfoldable pub append_switch : Bytes → Bytes → CommandLine → CommandLine
unfolding combined switch_key put_switch
append_switch switch_string value cl = record {
  argv = take cl.start_args cl.argv ++ combined switch_string value ∷ drop cl.start_args cl.argv;
  switches = put_switch (switch_key switch_string) value cl.switches;
  start_args = suc cl.start_args;
}

unfoldable pub append_arg : Bytes → CommandLine → CommandLine
append_arg value cl = record cl { argv = cl.argv ++ value ∷ [] }

-- appendSwitch or appendArg, for an argument while switches are parsed, or after.
unfoldable pub append_parsed : Bool → Bytes → CommandLine → CommandLine
unfolding is_switch append_switch append_arg
append_parsed false arg cl = append_arg arg cl
append_parsed true arg cl = elim (is_switch arg) [
  | none ↦ append_arg arg cl
  | some (s, v) ↦ append_switch s v cl
]

-- The loop of initFromArgv over the arguments behind the program.
unfoldable pub parse_loop : Bool → List Bytes → CommandLine → Outcome CommandLine
unfolding append_parsed bytes_eq
parse_loop parse_switches [] cl = returned cl
parse_loop parse_switches (arg ∷ args) cl = do
  trimmed ← or_thrown (trim_string arg (codes " ") trim_all)
  let parses = parse_switches && not (bytes_eq trimmed switch_terminator)
  parse_loop parses args (append_parsed parses trimmed cl)

abbrev pub program_of : List Bytes → Bytes
program_of argv = elim argv [ [] ↦ [] | p ∷ rest ↦ file_path p ]

-- initFromArgv: all that the command line held is replaced.
unfoldable pub init_from_argv : List Bytes → Outcome CommandLine
unfolding parse_loop set_program
init_from_argv argv = do
  cl ← set_program (program_of argv) no_program
  parse_loop true (drop 1 argv) cl

-- The process's command line is `none` before init. Whether it did anything, and the command line
-- behind it; what a throw leaves behind is not modelled.
unfoldable pub init : List Bytes → Option CommandLine → Outcome (Bool × Option CommandLine)
unfolding init_from_argv
init argv (some cl) = returned (false, some cl)
init argv none = do cl ← init_from_argv argv; returned (true, some cl)

abbrev pub reset_process : Option CommandLine → Option CommandLine
reset_process current = none

unfoldable pub has_switch : Bytes → CommandLine → Bool
unfolding find_switch
has_switch key cl = elim (find_switch key cl.switches) [ none ↦ false | some v ↦ true ]

unfoldable pub get_switch_value : Bytes → CommandLine → Bytes
unfolding find_switch
get_switch_value key cl = elim (find_switch key cl.switches) [ none ↦ [] | some v ↦ v ]

-- erase of what std::find found
unfoldable pub erase_first : Bytes → List Bytes → List Bytes
unfolding bytes_eq
erase_first x [] = []
erase_first x (y ∷ ys) = if bytes_eq y x then ys else y ∷ erase_first x ys

unfoldable pub get_args : CommandLine → List Bytes
unfolding erase_first
get_args cl = erase_first switch_terminator (drop cl.start_args cl.argv)

abbrev pub get_program : CommandLine → Bytes
get_program cl = file_path (get_or cl.argv 0 [])
