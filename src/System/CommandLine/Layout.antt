-- ===== src/System/CommandLine/Layout.antt =====
-- The layout of a command line: the program, the switches, then the other arguments.
use kwctoolkit.Prelude.{
  suc, ◌≡◌, refl, ap, ◌∙◌, inl, inr, true, false, arith, Bool-cases, Option, some, List, [], ◌∷◌,
  ◌++◌, if◌then◌else◌, append_assoc, Bytes, bytes_eq, bytes_eq→eq, length, take-append_length,
  drop-append_length,
}
use kwctoolkit.System.CommandLine.{
  CommandLine, SwitchMap, combined, switch_key, put_switch, find_switch, append_switch, append_arg,
  get_args, erase_first, switch_terminator,
}

-- Switches with their prefixes, and their values, in order.
abbrev pub Switches : Type 0
Switches = List (Bytes × Bytes)

abbrev pub combine_all : Switches → List Bytes
combine_all [] = []
combine_all ((s, v) ∷ rest) = combined s v ∷ combine_all rest

abbrev pub recorded : SwitchMap → Switches → SwitchMap
recorded m [] = m
recorded m ((s, v) ∷ rest) = recorded (put_switch (switch_key s) v m) rest

abbrev pub layout : Bytes → Switches → List Bytes → CommandLine
layout program sws args = record {
  argv = program ∷ combine_all sws ++ args;
  switches = recorded [] sws;
  start_args = suc (length (combine_all sws));
}

combine_all-append :
    (sws : Switches) (s v : Bytes)
    → combine_all (sws ++ (s, v) ∷ []) ≡ combine_all sws ++ combined s v ∷ []
combine_all-append [] s v = refl
combine_all-append ((s', v') ∷ rest) s v =
    ap (λ r. combined s' v' ∷ r) (combine_all-append rest s v)

recorded-append :
    (m : SwitchMap) (sws : Switches) (s v : Bytes)
    → recorded m (sws ++ (s, v) ∷ []) ≡ put_switch (switch_key s) v (recorded m sws)
recorded-append m [] s v = refl
recorded-append m ((s', v') ∷ rest) s v = recorded-append (put_switch (switch_key s') v' m) rest s v

length-snoc : (xs : List Bytes) (x : Bytes) → length (xs ++ x ∷ []) ≡ suc (length xs)
length-snoc [] x = refl
length-snoc (y ∷ ys) x = ap suc (length-snoc ys x)

pub append_switch-layout :
    (program s v : Bytes) (sws : Switches) (args : List Bytes)
    → append_switch s v (layout program sws args) ≡ layout program (sws ++ (s, v) ∷ []) args
unfolding append_switch
append_switch-layout program s v sws args =
    rw
      (
        take-append_length (combine_all sws) args,
        drop-append_length (combine_all sws) args,
        combine_all-append sws s v,
        recorded-append [] sws s v,
        length-snoc (combine_all sws) (combined s v),
        append_assoc (combine_all sws) (combined s v ∷ []) args,
      )
      refl

pub append_arg-layout :
    (program a : Bytes) (sws : Switches) (args : List Bytes)
    → append_arg a (layout program sws args) ≡ layout program sws (args ++ a ∷ [])
unfolding append_arg
append_arg-layout program a sws args = rw (append_assoc (combine_all sws) args (a ∷ [])) refl

pub get_args-layout :
    (program : Bytes) (sws : Switches) (args : List Bytes)
    → get_args (layout program sws args) ≡ erase_first switch_terminator args
unfolding get_args
get_args-layout program sws args = rw (drop-append_length (combine_all sws) args) refl

-- The value of the last switch with a key, and `found` if there is none.
abbrev pub last_value : Bytes → Option Bytes → Switches → Option Bytes
last_value key found [] = found
last_value key found ((s, v) ∷ rest) =
    last_value key (if bytes_eq key (switch_key s) then some v else found) rest

other_key :
    (key k k' : Bytes) → bytes_eq k k' ≡ false → bytes_eq key k' ≡ true → bytes_eq key k ≡ false
other_key key k k' other here = elim (Bool-cases (bytes_eq key k)) [
  | inl e ↦
      let h : bytes_eq key k' ≡ false = ap (λ x. bytes_eq x k') (bytes_eq→eq key k e) ∙ other in cc
  | inr e ↦ e
]

find_switch-put_switch :
    (key k v : Bytes) (m : SwitchMap)
    → find_switch key (put_switch k v m) ≡ (if bytes_eq key k then some v else find_switch key m)
unfolding find_switch put_switch
find_switch-put_switch key k v [] = refl
find_switch-put_switch key k v ((k', v') ∷ rest) = elim (Bool-cases (bytes_eq k k')) [
  | inl same ↦ rw (same) (rw (bytes_eq→eq k k' same) (ground arith))
  | inr other ↦ rw (other) (elim (Bool-cases (bytes_eq key k')) [
    | inl here ↦ rw (here, other_key key k k' other here) refl
    | inr elsewhere ↦ rw (elsewhere) (find_switch-put_switch key k v rest)
  ])
]

pub find_switch-recorded :
    (key : Bytes) (m : SwitchMap) (sws : Switches)
    → find_switch key (recorded m sws) ≡ last_value key (find_switch key m) sws
find_switch-recorded key m [] = refl
find_switch-recorded key m ((s, v) ∷ rest) =
    find_switch-recorded key (put_switch (switch_key s) v m) rest
    ∙ ap (λ f. last_value key f rest) (find_switch-put_switch key (switch_key s) v m)
