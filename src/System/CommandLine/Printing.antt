-- ===== src/System/CommandLine/Printing.antt =====
-- The printing of a command line: getCommandLineString and getArgumentsString.
use kwctoolkit.Prelude.{
  Bool, true, false, not, ◌&&◌, none, some, List, [], ◌∷◌, ◌++◌, if◌then◌else◌, is_empty, Bytes,
  codes, bytes_eq, drop, Outcome, returned, thrown,
}
use kwctoolkit.System.CommandLine.{CommandLine, switch_terminator, is_switch, value_suffix}

-- One argument, while switches are parsed, or after.
unfoldable pub printed_argument : Bool → Bytes → Bytes
unfolding is_switch
printed_argument false arg = arg
printed_argument true arg = elim (is_switch arg) [
  | none ↦ arg
  | some (switch_string, switch_value) ↦ switch_string ++ value_suffix switch_value
]

-- The loop from the second argument on, behind `params`.
unfoldable pub params_loop : Bool → List Bytes → Bytes → Bytes
unfolding printed_argument bytes_eq
params_loop parse_switches [] params = params
params_loop parse_switches (arg ∷ args) params =
    let parses = parse_switches && not (bytes_eq arg switch_terminator) in
    params_loop parses args (params ++ codes " " ++ printed_argument parses arg)

unfoldable pub arguments_of : List Bytes → Bytes
unfolding params_loop
arguments_of [] = []
arguments_of (arg ∷ args) =
    let parses = not (bytes_eq arg switch_terminator) in
    params_loop parses args (printed_argument parses arg)

unfoldable pub get_arguments_string : CommandLine → Bytes
unfolding arguments_of
get_arguments_string cl = arguments_of (drop 1 cl.argv)

-- A command line without a program has no argv_[0].
unfoldable pub get_command_line_string : CommandLine → Outcome Bytes
unfolding get_arguments_string
get_command_line_string cl = elim cl.argv [
  | [] ↦ thrown
  | program ∷ args ↦ returned (
      let params = get_arguments_string cl in
      if is_empty params then program else program ++ codes " " ++ params)
]
