-- ===== src/System/CommandLine/Parsing.antt =====
-- What initFromArgv makes of an argument vector.
use kwctoolkit.Prelude.{
  ◌≡◌, refl, ap, ◌∙◌, inl, inr, Bool, true, false, not, ◌&&◌, ◌||◌, Bool-cases, Option, none, some,
  List, [], ◌∷◌, ◌++◌, if◌then◌else◌, is_empty, append-nil, append_assoc, Bytes, codes, bytes_eq,
  drop, returned, thrown,
}
use kwctoolkit.Strings.Trim.{trim_all, trimmed, all_of}
use kwctoolkit.Strings.Trim.Laws.{trim_string-trimmed}
use kwctoolkit.System.CommandLine.{
  CommandLine, is_switch, append_switch, append_arg, switch_terminator, append_parsed, parse_loop,
  program_of, set_program, init_from_argv, get_args, get_switch_value, has_switch, erase_first,
  find_switch,
}
use kwctoolkit.System.CommandLine.Layout.{
  Switches, layout, append_switch-layout, append_arg-layout, get_args-layout, last_value,
  find_switch-recorded,
}

abbrev pub is_spaces : Bytes → Bool
is_spaces s = not (is_empty s) && all_of (codes " ") s

abbrev pub any_spaces : List Bytes → Bool
any_spaces [] = false
any_spaces (s ∷ rest) = is_spaces s || any_spaces rest

abbrev pub clean : Bytes → Bytes
clean s = trimmed s (codes " ") trim_all

abbrev pub clean_all : List Bytes → List Bytes
clean_all [] = []
clean_all (s ∷ rest) = clean s ∷ clean_all rest

-- Whether switches are still parsed from an argument on.
abbrev pub parses_on : Bool → Bytes → Bool
parses_on parses arg = parses && not (bytes_eq arg switch_terminator)

-- The switch that an argument is, while switches are parsed.
abbrev pub switch_of : Bool → Bytes → Option (Bytes × Bytes)
switch_of false arg = none
switch_of true arg = is_switch arg

abbrev pub cons_switch : Option (Bytes × Bytes) → Switches → Switches
cons_switch none rest = rest
cons_switch (some sv) rest = sv ∷ rest

abbrev pub cons_arg : Option (Bytes × Bytes) → Bytes → List Bytes → List Bytes
cons_arg none arg rest = arg ∷ rest
cons_arg (some sv) arg rest = rest

-- The switches among trimmed arguments, and the arguments that are none.
abbrev pub parsed_switches : Bool → List Bytes → Switches
parsed_switches parses [] = []
parsed_switches parses (arg ∷ args) =
    cons_switch (switch_of (parses_on parses arg) arg) (parsed_switches (parses_on parses arg) args)

abbrev pub parsed_args : Bool → List Bytes → List Bytes
parsed_args parses [] = []
parsed_args parses (arg ∷ args) =
    cons_arg (switch_of (parses_on parses arg) arg) arg (parsed_args (parses_on parses arg) args)

abbrev snoc_switch : Switches → Option (Bytes × Bytes) → Switches
snoc_switch sws none = sws
snoc_switch sws (some sv) = sws ++ sv ∷ []

abbrev snoc_arg : List Bytes → Option (Bytes × Bytes) → Bytes → List Bytes
snoc_arg args none arg = args ++ arg ∷ []
snoc_arg args (some sv) arg = args

append_parsed-layout :
    (parses : Bool) (program arg : Bytes) (sws : Switches) (args : List Bytes)
    → append_parsed parses arg (layout program sws args)
      ≡ layout program
          (snoc_switch sws (switch_of parses arg))
          (snoc_arg args (switch_of parses arg) arg)
unfolding append_parsed
append_parsed-layout false program arg sws args = append_arg-layout program arg sws args
append_parsed-layout true program arg sws args =
    elim (is_switch arg)
      as (λ o.
        (elim o [
          | none ↦ append_arg arg (layout program sws args)
          | some (s, v) ↦ append_switch s v (layout program sws args)
        ])
        ≡ layout program (snoc_switch sws o) (snoc_arg args o arg)) [
          | none ↦ append_arg-layout program arg sws args
          | some (s, v) ↦ append_switch-layout program s v sws args
        ]

join_switch :
    (sws : Switches) (o : Option (Bytes × Bytes)) (rest : Switches)
    → snoc_switch sws o ++ rest ≡ sws ++ cons_switch o rest
join_switch sws none rest = refl
join_switch sws (some sv) rest = append_assoc sws (sv ∷ []) rest

join_arg :
    (args : List Bytes) (o : Option (Bytes × Bytes)) (arg : Bytes) (rest : List Bytes)
    → snoc_arg args o arg ++ rest ≡ args ++ cons_arg o arg rest
join_arg args none arg rest = append_assoc args (arg ∷ []) rest
join_arg args (some sv) arg rest = refl

parse_loop-layout :
    (parses : Bool) (argv : List Bytes) (program : Bytes) (sws : Switches) (args : List Bytes)
    → parse_loop parses argv (layout program sws args) ≡ (
        if any_spaces argv
        then thrown
        else returned (
            layout program
              (sws ++ parsed_switches parses (clean_all argv))
              (args ++ parsed_args parses (clean_all argv))))
unfolding parse_loop
parse_loop-layout parses [] program sws args = rw (append-nil sws, append-nil args) refl
parse_loop-layout parses (arg ∷ argv) program sws args =
    rw (trim_string-trimmed arg (codes " ") trim_all) (elim (Bool-cases (is_spaces arg)) [
      | inl blank ↦ rw (blank) refl
      | inr text ↦ rw (text) (
          ap (parse_loop on argv) (append_parsed-layout on program (clean arg) sws args)
          ∙ parse_loop-layout on argv program (snoc_switch sws found)
              (snoc_arg args found (clean arg))
          ∙ rw
              (
                join_switch sws found (parsed_switches on (clean_all argv)),
                join_arg args found (clean arg) (parsed_args on (clean_all argv)),
              )
              refl)
    ])
  where
    on : Bool
    on = parses_on parses (clean arg)

    found : Option (Bytes × Bytes)
    found = switch_of on (clean arg)

-- initFromArgv throws exactly if the program or an argument is nonempty and all spaces. Otherwise
-- the command line is laid out as the program without outer spaces, then the switches among the
-- trimmed arguments in order, which are only looked for before a "--", then the other arguments in
-- order, "--" with them.
pub init_from_argv-layout :
    (argv : List Bytes)
    → init_from_argv argv ≡ (
        if is_spaces (program_of argv) || any_spaces (drop 1 argv)
        then thrown
        else returned (
            layout
              (clean (program_of argv))
              (parsed_switches true (clean_all (drop 1 argv)))
              (parsed_args true (clean_all (drop 1 argv)))))
unfolding init_from_argv set_program
init_from_argv-layout argv =
    rw (trim_string-trimmed (program_of argv) (codes " ") trim_all)
      (elim (Bool-cases (is_spaces (program_of argv))) [
        | inl blank ↦ rw (blank) refl
        | inr text ↦
            rw (text) (parse_loop-layout true (drop 1 argv) (clean (program_of argv)) [] [])
      ])

abbrev pub is_some : Option Bytes → Bool
is_some none = false
is_some (some v) = true

abbrev pub or_empty : Option Bytes → Bytes
or_empty none = []
or_empty (some v) = v

has_switch-layout :
    (key program : Bytes) (sws : Switches) (args : List Bytes)
    → has_switch key (layout program sws args) ≡ is_some (last_value key none sws)
unfolding has_switch find_switch
has_switch-layout key program sws args =
    found (find_switch key (layout program sws args).switches)
    ∙ ap is_some (find_switch-recorded key [] sws)
  where
    found : (o : Option Bytes) → (elim o [ none ↦ false | some v ↦ true ]) ≡ is_some o
    found none = refl
    found (some v) = refl

get_switch_value-layout :
    (key program : Bytes) (sws : Switches) (args : List Bytes)
    → get_switch_value key (layout program sws args) ≡ or_empty (last_value key none sws)
unfolding get_switch_value find_switch
get_switch_value-layout key program sws args =
    found (find_switch key (layout program sws args).switches)
    ∙ ap or_empty (find_switch-recorded key [] sws)
  where
    found : (o : Option Bytes) → ◌≡◌ {A = Bytes} (elim o [ none ↦ [] | some v ↦ v ]) (or_empty o)
    found none = refl
    found (some v) = refl

-- When neither the program nor an argument is nonempty and all spaces, initFromArgv returns a
-- command line of which the queries are right: a switch is there exactly if it is among the
-- parsed switches, its value is that of the last of them with its key, or empty, and the arguments
-- are the parsed ones in order without the first "--".
pub init_from_argv-queries :
    (argv : List Bytes)
    → (is_spaces (program_of argv) || any_spaces (drop 1 argv)) ≡ false
    → (cl : CommandLine) × (init_from_argv argv ≡ returned cl)
      × ((key : Bytes)
          → has_switch key cl
            ≡ is_some (last_value key none (parsed_switches true (clean_all (drop 1 argv)))))
      × ((key : Bytes)
          → get_switch_value key cl
            ≡ or_empty (last_value key none (parsed_switches true (clean_all (drop 1 argv)))))
      × (get_args cl ≡ erase_first switch_terminator (parsed_args true (clean_all (drop 1 argv))))
init_from_argv-queries argv h = (
  layout (clean (program_of argv)) (parsed_switches true (clean_all (drop 1 argv)))
      (parsed_args true (clean_all (drop 1 argv))),
  init_from_argv-layout argv ∙ rw (h) refl,
  λ key. has_switch-layout key _ _ _,
  λ key. get_switch_value-layout key _ _ _,
  get_args-layout (clean (program_of argv)) (parsed_switches true (clean_all (drop 1 argv)))
      (parsed_args true (clean_all (drop 1 argv))),
)
