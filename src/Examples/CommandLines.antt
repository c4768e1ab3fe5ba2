-- ===== src/Examples/CommandLines.antt =====
-- Parsing a short command line.
use kwctoolkit.Prelude.{
  ◌≡◌, refl, Bytes, List, codes, [], ◌∷◌, none, returned, one_of, bytes_eq, has_prefix, find_char,
}
use kwctoolkit.File.Path.{file_path, until_null}
use kwctoolkit.System.CommandLine.{
  CommandLine, is_switch, switch_prefix_length, init_from_argv, has_switch, get_switch_value,
  get_args, erase_first,
}
use kwctoolkit.System.CommandLine.Layout.{Switches, layout, last_value}
use kwctoolkit.System.CommandLine.Parsing.{
  init_from_argv-layout, init_from_argv-queries, is_some, or_empty,
}

abbrev tail : List Bytes
tail = codes "--foo=bar" ∷ codes " in.txt" ∷ codes "-v" ∷ codes "--" ∷ codes "-x" ∷ []

abbrev program_line : List Bytes
program_line = codes "prog" ∷ tail

abbrev found_switches : Switches
found_switches = (codes "--foo", codes "bar") ∷ (codes "-v", []) ∷ []

abbrev found_args : List Bytes
found_args = codes "in.txt" ∷ codes "--" ∷ codes "-x" ∷ []

init_from_argv-layout_example :
    init_from_argv program_line ≡ returned (layout (codes "prog") found_switches found_args)
unfolding one_of bytes_eq has_prefix find_char file_path until_null is_switch switch_prefix_length
init_from_argv-layout_example = init_from_argv-layout program_line

init_from_argv-queries_example :
    (cl : CommandLine) × (init_from_argv program_line ≡ returned cl)
    × ((key : Bytes) → has_switch key cl ≡ is_some (last_value key none found_switches))
    × ((key : Bytes) → get_switch_value key cl ≡ or_empty (last_value key none found_switches))
    × (get_args cl ≡ codes "in.txt" ∷ codes "-x" ∷ [])
unfolding one_of bytes_eq has_prefix find_char file_path until_null is_switch switch_prefix_length
    erase_first
init_from_argv-queries_example = init_from_argv-queries program_line refl
