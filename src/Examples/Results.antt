-- ===== src/Examples/Results.antt =====
-- Results that are made, moved and taken.
use kwctoolkit.Prelude.{
  ℕ, zero, suc, ◌≡◌, refl, arith, true, false, none, some, List, [], ◌∷◌, returned, thrown, ◌>>=◌,
}
use kwctoolkit.Base.Result.{
  Received, success, error, Statement, construct_success, construct_error, move_new, move_over,
  copy_new, destroy_result, get_success, get_error, word_at, payload_empty, run, step,
  create_payload, construct_payload, move_construct_payload, move_assign_payload,
  copy_construct_payload, destroy_payload, get_success_from_payload, get_error_from_payload,
  take_success, take_error,
}
use kwctoolkit.Base.Result.Abstract.{abstract_run}
use kwctoolkit.Base.Result.Alignment.{AllPointersAligned}
use kwctoolkit.Base.Result.Refinement.{concrete, run-abstract_run}
use kwctoolkit.Base.Result.Ledger.{times, all_puts, IsInScope}
use kwctoolkit.Base.Result.Ownership.{run-times}
use kwctoolkit.Base.Result.Values.{
  moved_on, from_value, from_error_value, get_success_value, get_error_value, destroy_value,
  get_value-moved_on,
}

-- An error of a first Result moves to a second; a third takes a success over.
abbrev program : List Statement
program =
    construct_error 8
    ∷ move_new 0
    ∷ construct_success 64
    ∷ get_error 1
    ∷ move_over 1 2
    ∷ get_success 1
    ∷ destroy_result 2
    ∷ destroy_result 1
    ∷ destroy_result 0
    ∷ []

program_aligned : AllPointersAligned program
program_aligned = (refl, (refl, (refl, (refl, (refl, (refl, (refl, (refl, (refl, tt)))))))))

program_scope : IsInScope program 0
program_scope = (
  tt,
  (
    omega arith,
    (
      tt,
      (
        omega arith,
        (
          (omega arith, omega arith),
          (omega arith, (omega arith, (omega arith, (omega arith, tt)))),
        ),
      ),
    ),
  ),
)

run-program : run true program [] ≡ returned (error 8 ∷ success 64 ∷ [], 2 ∷ 2 ∷ 2 ∷ [])
unfolding run step construct_payload create_payload move_construct_payload move_assign_payload
    destroy_payload take_success take_error get_success_from_payload get_error_from_payload
run-program = refl

program_empty : (i : ℕ) → word_at i (2 ∷ 2 ∷ 2 ∷ []) ≡ payload_empty
program_empty zero = refl
program_empty (suc zero) = refl
program_empty (suc (suc zero)) = refl
program_empty (suc (suc (suc i))) = refl

run-abstract_run_example :
    (run true program [] ≡ concrete (abstract_run program []))
    × ((r : List Received × List ℕ)
        → run true program [] ≡ returned r
        → run false program [] ≡ returned r)
run-abstract_run_example = run-abstract_run program program_aligned

run-times_example : times (error 8) (error 8 ∷ success 64 ∷ []) ≡ times (error 8) (all_puts program)
run-times_example =
    run-times program (error 8 ∷ success 64 ∷ []) (2 ∷ 2 ∷ 2 ∷ []) program_aligned refl
      program_scope run-program program_empty (error 8)

-- A Result and its copy give the same pointer, and no assertion fails.
run-copies :
    run true
      (construct_success 64
        ∷ copy_new 0
        ∷ get_success 0
        ∷ get_success 1
        ∷ destroy_result 1
        ∷ destroy_result 0
        ∷ [])
      []
    ≡ returned (success 64 ∷ success 64 ∷ [], 2 ∷ 2 ∷ [])
unfolding run step construct_payload create_payload copy_construct_payload destroy_payload
    take_success get_success_from_payload
run-copies = refl

get_value-moved_on_example :
    let v = moved_on {A = ℕ} 0 (λ n. n) 2 (from_value {A = ℕ} 0 (λ n. n) 7) in
    let w = moved_on {A = ℕ} 0 (λ n. n) 2 (from_error_value {A = ℕ} 0 (λ n. n) (some 8)) in
    (get_success_value true v >>= λ r. destroy_value true r.1 >>= λ _. returned r.0) ≡ returned 7
    × (get_error_value true v >>= λ r. destroy_value true r.1 >>= λ _. returned r.0) ≡ returned none
    × get_success_value true w ≡ thrown
    × (get_error_value true w >>= λ r. destroy_value true r.1 >>= λ _. returned r.0)
      ≡ returned (some 8)
    × destroy_value true v ≡ thrown
    × destroy_value true w ≡ thrown
get_value-moved_on_example = get_value-moved_on {A = ℕ} 0 (λ n. n) 7 (some 8) 2
