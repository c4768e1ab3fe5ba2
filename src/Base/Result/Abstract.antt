-- ===== src/Base/Result/Abstract.antt =====
-- The sum type that the comment on top of kwctoolkit/base/result.h gives as the meaning of a
-- Result: `data Result T E = Success T | Error E | Empty`, with a program run on it.
use kwctoolkit.Prelude.{ℕ, List, [], ◌∷◌, ◌++◌, get_or, set, Outcome, returned, thrown}
use kwctoolkit.Base.Result.{
  Received, success, error, Statement, construct_success, construct_error, move_new, move_over,
  copy_new, copy_over, destroy_result, get_success, get_error, giving, in_turn,
}

pub data Contents : Type 0 where
  holding : Received → Contents
  empty : Contents

abbrev pub contents_at : ℕ → List Contents → Contents
contents_at i vars = get_or vars i empty

abbrev pub if_empty {ℓ} : {A : Type ℓ} → Contents → A → Outcome A
if_empty (holding r) a = thrown
if_empty empty a = returned a

abbrev pub success_of {ℓ} : {A : Type ℓ} → Contents → A → Outcome (ℕ × A)
success_of (holding (success p)) a = returned (p, a)
success_of (holding (error p)) a = thrown
success_of empty a = thrown

abbrev pub error_of {ℓ} : {A : Type ℓ} → Contents → A → Outcome (ℕ × A)
error_of (holding (success p)) a = thrown
error_of (holding (error p)) a = returned (p, a)
error_of empty a = thrown

unfoldable pub abstract_step : Statement → List Contents → Outcome (List Received × List Contents)
abstract_step (construct_success p) vars = returned ([], vars ++ holding (success p) ∷ [])
abstract_step (construct_error p) vars = returned ([], vars ++ holding (error p) ∷ [])
abstract_step (move_new other) vars =
    returned ([], set vars other empty ++ contents_at other vars ∷ [])
abstract_step (move_over i other) vars =
    if_empty (contents_at i vars) ([], set (set vars i (contents_at other vars)) other empty)
abstract_step (copy_new other) vars = returned ([], vars ++ contents_at other vars ∷ [])
abstract_step (copy_over i other) vars = returned ([], set vars i (contents_at other vars))
abstract_step (destroy_result i) vars = if_empty (contents_at i vars) ([], vars)
abstract_step (get_success i) vars =
    giving success (success_of (contents_at i vars) (set vars i empty))
abstract_step (get_error i) vars = giving error (error_of (contents_at i vars) (set vars i empty))

unfoldable pub abstract_run :
    List Statement → List Contents → Outcome (List Received × List Contents)
unfolding abstract_step
abstract_run [] vars = returned ([], vars)
abstract_run (s ∷ program) vars = in_turn (abstract_step s vars) (abstract_run program)
