-- ===== src/Base/Result/Refinement.antt =====
-- The tagged pointers of kwctoolkit/base/result.h against the sum type of its comment.
use kwctoolkit.Prelude.{
  ℕ, zero, suc, ◌+◌, ◌%◌, ◌==◌, ◌≡◌, refl, ap, arith, true, false, List, [], ◌∷◌, map, set, Outcome,
  returned, thrown, exhausted, ◌>>=◌,
}
use mathlib.Core.List.{map-append}
use kwctoolkit.Base.Result.{
  Received, success, error, Statement, construct_success, construct_error, move_new, move_over,
  copy_new, copy_over, destroy_result, get_success, get_error, word_at, payload_empty, step, run,
  kwc_assert, giving, giving_more, in_turn, create_payload, get_success_from_payload,
  get_error_from_payload, construct_payload, move_construct_payload, move_assign_payload,
  copy_construct_payload, copy_assign_payload, destroy_payload, take_success, take_error,
}
use kwctoolkit.Base.Result.Alignment.{
  IsAligned, AllAligned, AllPointersAligned, pointer_of, AlignedOutcome, contents_at-IsAligned,
  abstract_step-Aligned,
}
use kwctoolkit.Base.Result.Release.{run-release}
use kwctoolkit.Base.Result.Abstract.{
  Contents, holding, empty, contents_at, if_empty, abstract_step, abstract_run, success_of,
  error_of,
}

-- The word of a variable.
abbrev pub word_of : Contents → ℕ
word_of (holding (success p)) = p
word_of (holding (error p)) = p + 1
word_of empty = payload_empty

abbrev pub concrete : Outcome (List Received × List Contents) → Outcome (List Received × List ℕ)
concrete (returned r) = returned (r.0, map word_of r.1)
concrete thrown = thrown
concrete exhausted = exhausted

map-set :
    (vars : List Contents) (i : ℕ) (c : Contents)
    → set (map word_of vars) i (word_of c) ≡ map word_of (set vars i c)
map-set [] i c = refl
map-set (v ∷ vars) zero c = refl
map-set (v ∷ vars) (suc i) c = ap (λ ws. word_of v ∷ ws) (map-set vars i c)

word_at-map :
    (vars : List Contents) (i : ℕ) → word_at i (map word_of vars) ≡ word_of (contents_at i vars)
word_at-map [] i = refl
word_at-map (v ∷ vars) zero = refl
word_at-map (v ∷ vars) (suc i) = word_at-map vars i

-- Each operation on the word of some contents.
create_success : (p : ℕ) → p % 4 ≡ 0 → create_payload true p 0 ≡ returned p
unfolding create_payload
create_success p h = ground arith

create_error : (p : ℕ) → p % 4 ≡ 0 → create_payload true p 1 ≡ returned (p + 1)
unfolding create_payload
create_error p h = ground arith

success_received :
    (c : Contents) (vars : List Contents)
    → IsAligned c
    → giving success
        (do p ← get_success_from_payload true (word_of c); returned (p, map word_of vars))
      ≡ concrete (giving success (success_of c vars))
unfolding get_success_from_payload
success_received (holding (success p)) vars h = ground arith
success_received (holding (error p)) vars h = ground arith
success_received empty vars h = refl

error_received :
    (c : Contents) (vars : List Contents)
    → IsAligned c
    → giving error (do p ← get_error_from_payload true (word_of c); returned (p, map word_of vars))
      ≡ concrete (giving error (error_of c vars))
unfolding get_error_from_payload
error_received (holding (success p)) vars h = ground arith
error_received (holding (error p)) vars h = ground arith
error_received empty vars h = refl

assert_empty :
    (c : Contents) (vars : List Contents)
    → IsAligned c
    → (kwc_assert true (word_of c == payload_empty) (map word_of vars) >>= λ words.
        returned ([], words))
      ≡ concrete (if_empty c ([], vars))
assert_empty (holding (success p)) vars h = ground arith
assert_empty (holding (error p)) vars h = ground arith
assert_empty empty vars h = refl

step-abstract_step :
    (s : Statement) (vars : List Contents)
    → pointer_of s % 4 ≡ 0
    → AllAligned vars
    → step true s (map word_of vars) ≡ concrete (abstract_step s vars)
unfolding step abstract_step construct_payload move_construct_payload move_assign_payload
    copy_construct_payload copy_assign_payload destroy_payload take_success take_error
step-abstract_step (construct_success p) vars h g =
    rw (create_success p h, map-append word_of vars (holding (success p) ∷ [])) refl
step-abstract_step (construct_error p) vars h g =
    rw (create_error p h, map-append word_of vars (holding (error p) ∷ [])) refl
step-abstract_step (move_new other) vars h g =
    rw
      (
        map-append word_of (set vars other empty) (contents_at other vars ∷ []),
        word_at-map vars other,
        map-set vars other empty,
      )
      refl
step-abstract_step (move_over i other) vars h g =
    rw
      (
        word_at-map vars i,
        word_at-map vars other,
        map-set vars i (contents_at other vars),
        map-set (set vars i (contents_at other vars)) other empty,
      )
      (assert_empty (contents_at i vars) (set (set vars i (contents_at other vars)) other empty)
        (contents_at-IsAligned vars i g))
step-abstract_step (copy_new other) vars h g =
    rw (map-append word_of vars (contents_at other vars ∷ []), word_at-map vars other) refl
step-abstract_step (copy_over i other) vars h g =
    rw (word_at-map vars other, map-set vars i (contents_at other vars)) refl
step-abstract_step (destroy_result i) vars h g =
    rw (word_at-map vars i)
      (assert_empty (contents_at i vars) vars (contents_at-IsAligned vars i g))
step-abstract_step (get_success i) vars h g =
    rw (word_at-map vars i, map-set vars i empty)
      (success_received (contents_at i vars) (set vars i empty) (contents_at-IsAligned vars i g))
step-abstract_step (get_error i) vars h g =
    rw (word_at-map vars i, map-set vars i empty)
      (error_received (contents_at i vars) (set vars i empty) (contents_at-IsAligned vars i g))

giving_more-concrete :
    (rs : List Received) (o : Outcome (List Received × List Contents))
    → giving_more rs (concrete o) ≡ concrete (giving_more rs o)
giving_more-concrete rs (returned r) = refl
giving_more-concrete rs thrown = refl
giving_more-concrete rs exhausted = refl

in_turn-concrete :
    (o : Outcome (List Received × List Contents)) (f : List ℕ → Outcome (List Received × List ℕ))
    (g : List Contents → Outcome (List Received × List Contents))
    → AlignedOutcome o
    → ((vars : List Contents) → AllAligned vars → f (map word_of vars) ≡ concrete (g vars))
    → in_turn (concrete o) f ≡ concrete (in_turn o g)
in_turn-concrete (returned r) f g h e = rw (e r.1 h) (giving_more-concrete r.0 (g r.1))
in_turn-concrete thrown f g h e = refl
in_turn-concrete exhausted f g h e = refl

pub run_from-abstract_run :
    (program : List Statement) (vars : List Contents)
    → AllPointersAligned program
    → AllAligned vars
    → run true program (map word_of vars) ≡ concrete (abstract_run program vars)
unfolding run abstract_run
run_from-abstract_run [] vars h g = refl
run_from-abstract_run (s ∷ program) vars h g = rw (step-abstract_step s vars h.0 g) (
    in_turn-concrete (abstract_step s vars) (run true program) (abstract_run program)
      (abstract_step-Aligned s vars h.0 g) (λ vars'. run_from-abstract_run program vars' h.1))

-- In a debug build a program of Results, whose pointers are multiples of four, and which may also
-- copy Results, does what it does on values of the sum type `Success T | Error E | Empty`: it
-- aborts exactly if that does (a Result that is not empty is moved to or destroyed, or a Result
-- gives the wrong side), and else gives the same pointers in the same order. A program that does
-- not abort there does the same in a release build.
pub run-abstract_run :
    (program : List Statement)
    → AllPointersAligned program
    → (run true program [] ≡ concrete (abstract_run program []))
      × ((r : List Received × List ℕ)
          → run true program [] ≡ returned r
          → run false program [] ≡ returned r)
run-abstract_run program h = (run_from-abstract_run program [] h tt, λ r. run-release program [] r)
