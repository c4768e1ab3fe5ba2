-- ===== src/Base/Result/Alignment.antt =====
-- The alignment of four bytes or more that the static_asserts of kwctoolkit/base/result.h want of
-- the types, so of every pointer.
use kwctoolkit.Prelude.{
  ℕ, zero, suc, ◌%◌, ◌≡◌, List, [], ◌∷◌, ◌++◌, set, Outcome, returned, thrown, exhausted,
}
use kwctoolkit.Base.Result.{
  Received, success, error, Statement, construct_success, construct_error, move_new, move_over,
  copy_new, copy_over, destroy_result, get_success, get_error, giving, giving_more, in_turn,
}
use kwctoolkit.Base.Result.Abstract.{
  Contents, holding, empty, contents_at, if_empty, abstract_step, abstract_run, success_of,
  error_of,
}

-- The pointers of a program, of values with an alignment of four bytes or more.
abbrev pub IsAligned : Contents → Type 0
IsAligned (holding (success p)) = p % 4 ≡ 0
IsAligned (holding (error p)) = p % 4 ≡ 0
IsAligned empty = Unit

abbrev pub AllAligned : List Contents → Type 0
AllAligned [] = Unit
AllAligned (c ∷ vars) = IsAligned c × AllAligned vars

abbrev pub pointer_of : Statement → ℕ
pointer_of (construct_success p) = p
pointer_of (construct_error p) = p
pointer_of (move_new other) = 0
pointer_of (move_over i other) = 0
pointer_of (copy_new other) = 0
pointer_of (copy_over i other) = 0
pointer_of (destroy_result i) = 0
pointer_of (get_success i) = 0
pointer_of (get_error i) = 0

abbrev pub AllPointersAligned : List Statement → Type 0
AllPointersAligned [] = Unit
AllPointersAligned (s ∷ program) = (pointer_of s % 4 ≡ 0) × AllPointersAligned program

-- The variables after a statement that returns.
abbrev pub AlignedOutcome : Outcome (List Received × List Contents) → Type 0
AlignedOutcome (returned r) = AllAligned r.1
AlignedOutcome thrown = Unit
AlignedOutcome exhausted = Unit

pub contents_at-IsAligned :
    (vars : List Contents) (i : ℕ) → AllAligned vars → IsAligned (contents_at i vars)
contents_at-IsAligned [] i h = tt
contents_at-IsAligned (v ∷ vars) zero h = h.0
contents_at-IsAligned (v ∷ vars) (suc i) h = contents_at-IsAligned vars i h.1

set-AllAligned :
    (vars : List Contents) (i : ℕ) (c : Contents)
    → AllAligned vars
    → IsAligned c
    → AllAligned (set vars i c)
set-AllAligned [] i c h g = tt
set-AllAligned (v ∷ vars) zero c h g = (g, h.1)
set-AllAligned (v ∷ vars) (suc i) c h g = (h.0, set-AllAligned vars i c h.1 g)

snoc-AllAligned :
    (vars : List Contents) (c : Contents)
    → AllAligned vars
    → IsAligned c
    → AllAligned (vars ++ c ∷ [])
snoc-AllAligned [] c h g = (g, tt)
snoc-AllAligned (v ∷ vars) c h g = (h.0, snoc-AllAligned vars c h.1 g)

if_empty-Aligned :
    (c : Contents) (vars : List Contents) → AllAligned vars → AlignedOutcome (if_empty c ([], vars))
if_empty-Aligned (holding r) vars h = tt
if_empty-Aligned empty vars h = h

success_of-Aligned :
    (c : Contents) (vars : List Contents)
    → AllAligned vars
    → AlignedOutcome (giving success (success_of c vars))
success_of-Aligned (holding (success p)) vars h = h
success_of-Aligned (holding (error p)) vars h = tt
success_of-Aligned empty vars h = tt

error_of-Aligned :
    (c : Contents) (vars : List Contents)
    → AllAligned vars
    → AlignedOutcome (giving error (error_of c vars))
error_of-Aligned (holding (success p)) vars h = tt
error_of-Aligned (holding (error p)) vars h = h
error_of-Aligned empty vars h = tt

pub abstract_step-Aligned :
    (s : Statement) (vars : List Contents)
    → pointer_of s % 4 ≡ 0
    → AllAligned vars
    → AlignedOutcome (abstract_step s vars)
unfolding abstract_step
abstract_step-Aligned (construct_success p) vars h g =
    snoc-AllAligned vars (holding (success p)) g h
abstract_step-Aligned (construct_error p) vars h g = snoc-AllAligned vars (holding (error p)) g h
abstract_step-Aligned (move_new other) vars h g =
    snoc-AllAligned (set vars other empty) (contents_at other vars)
      (set-AllAligned vars other empty g tt) (contents_at-IsAligned vars other g)
abstract_step-Aligned (move_over i other) vars h g =
    if_empty-Aligned (contents_at i vars) (set (set vars i (contents_at other vars)) other empty) (
      set-AllAligned (set vars i (contents_at other vars)) other empty
        (set-AllAligned vars i (contents_at other vars) g (contents_at-IsAligned vars other g)) tt)
abstract_step-Aligned (copy_new other) vars h g =
    snoc-AllAligned vars (contents_at other vars) g (contents_at-IsAligned vars other g)
abstract_step-Aligned (copy_over i other) vars h g =
    set-AllAligned vars i (contents_at other vars) g (contents_at-IsAligned vars other g)
abstract_step-Aligned (destroy_result i) vars h g = if_empty-Aligned (contents_at i vars) vars g
abstract_step-Aligned (get_success i) vars h g =
    success_of-Aligned (contents_at i vars) (set vars i empty) (set-AllAligned vars i empty g tt)
abstract_step-Aligned (get_error i) vars h g =
    error_of-Aligned (contents_at i vars) (set vars i empty) (set-AllAligned vars i empty g tt)

giving_more-Aligned :
    (rs : List Received) (o : Outcome (List Received × List Contents))
    → AlignedOutcome o
    → AlignedOutcome (giving_more rs o)
giving_more-Aligned rs (returned r) h = h
giving_more-Aligned rs thrown h = tt
giving_more-Aligned rs exhausted h = tt

in_turn-Aligned :
    (o : Outcome (List Received × List Contents))
    (f : List Contents → Outcome (List Received × List Contents))
    → AlignedOutcome o
    → ((vars : List Contents) → AllAligned vars → AlignedOutcome (f vars))
    → AlignedOutcome (in_turn o f)
in_turn-Aligned (returned now) f h g = giving_more-Aligned now.0 (f now.1) (g now.1 h)
in_turn-Aligned thrown f h g = tt
in_turn-Aligned exhausted f h g = tt

pub abstract_run-Aligned :
    (program : List Statement) (vars : List Contents)
    → AllPointersAligned program
    → AllAligned vars
    → AlignedOutcome (abstract_run program vars)
unfolding abstract_run
abstract_run-Aligned [] vars h g = g
abstract_run-Aligned (s ∷ program) vars h g =
    in_turn-Aligned (abstract_step s vars) (abstract_run program)
      (abstract_step-Aligned s vars h.0 g) (λ vars'. abstract_run-Aligned program vars' h.1)
