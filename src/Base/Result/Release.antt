-- ===== src/Base/Result/Release.antt =====
-- A program of Results of kwctoolkit/base/result.h with assertions on and off.
use kwctoolkit.Prelude.{
  ℕ, ◌%◌, ◌==◌, ◌≡◌, refl, ◌∙◌, inl, inr, arith, Bool-cases, true, false, List, [], ◌∷◌, Outcome,
  returned, thrown, exhausted,
}
use kwctoolkit.Base.Result.{
  Received, Statement, construct_success, construct_error, move_new, move_over, copy_new, copy_over,
  destroy_result, get_success, get_error, word_at, payload_empty, is_success, is_error, giving_more,
  in_turn, step, run, create_payload, get_success_from_payload, get_error_from_payload,
  construct_payload, move_construct_payload, move_assign_payload, copy_construct_payload,
  copy_assign_payload, destroy_payload, take_success, take_error,
}

-- What a call that returns returns, the other one returns too.
abbrev Passes {ℓ} : {A : Type ℓ} → Outcome A → Outcome A → Type ℓ
Passes (returned a) o = o ≡ returned a
Passes thrown o = Unit
Passes exhausted o = Unit

giving_more-Passes :
    (rs : List Received) (o o' : Outcome (List Received × List ℕ))
    → Passes o o'
    → Passes (giving_more rs o) (giving_more rs o')
giving_more-Passes rs (returned r) o' h = rw (h) refl
giving_more-Passes rs thrown o' h = tt
giving_more-Passes rs exhausted o' h = tt

in_turn-Passes :
    (o o' : Outcome (List Received × List ℕ)) (f f' : List ℕ → Outcome (List Received × List ℕ))
    → Passes o o'
    → ((words : List ℕ) → Passes (f words) (f' words))
    → Passes (in_turn o f) (in_turn o' f')
in_turn-Passes (returned r) o' f f' h g = rw (h) (giving_more-Passes r.0 (f r.1) (f' r.1) (g r.1))
in_turn-Passes thrown o' f f' h g = tt
in_turn-Passes exhausted o' f f' h g = tt

passed {ℓ} :
    {A : Type ℓ} (o o' : Outcome A) (r : A) → o ≡ returned r → Passes o o' → o' ≡ returned r
passed (returned a) o' r h g = g ∙ h
passed thrown o' r h g = absurd (ground arith)
passed exhausted o' r h g = absurd (ground arith)

step-Passes : (s : Statement) (words : List ℕ) → Passes (step true s words) (step false s words)
unfolding step construct_payload create_payload move_construct_payload move_assign_payload
    copy_construct_payload copy_assign_payload destroy_payload take_success take_error
    get_success_from_payload get_error_from_payload
step-Passes (construct_success p) words = elim (Bool-cases (p % 4 == 0)) [
  | inl e ↦ rw (e) refl
  | inr e ↦ rw (e) tt
]
step-Passes (construct_error p) words = elim (Bool-cases (p % 4 == 0)) [
  | inl e ↦ rw (e) refl
  | inr e ↦ rw (e) tt
]
step-Passes (move_new other) words = refl
step-Passes (move_over i other) words = elim (Bool-cases (word_at i words == payload_empty)) [
  | inl e ↦ rw (e) refl
  | inr e ↦ rw (e) tt
]
step-Passes (copy_new other) words = refl
step-Passes (copy_over i other) words = refl
step-Passes (destroy_result i) words = elim (Bool-cases (word_at i words == payload_empty)) [
  | inl e ↦ rw (e) refl
  | inr e ↦ rw (e) tt
]
step-Passes (get_success i) words = elim (Bool-cases (is_success (word_at i words))) [
  | inl e ↦ rw (e) refl
  | inr e ↦ rw (e) tt
]
step-Passes (get_error i) words = elim (Bool-cases (is_error (word_at i words))) [
  | inl e ↦ rw (e) refl
  | inr e ↦ rw (e) tt
]

run-Passes :
    (program : List Statement) (words : List ℕ)
    → Passes (run true program words) (run false program words)
unfolding run
run-Passes [] words = refl
run-Passes (s ∷ program) words =
    in_turn-Passes (step true s words) (step false s words) (run true program) (run false program)
      (step-Passes s words) (run-Passes program)

pub run-release :
    (program : List Statement) (words : List ℕ) (r : List Received × List ℕ)
    → run true program words ≡ returned r
    → run false program words ≡ returned r
run-release program words r h =
    passed (run true program words) (run false program words) r h (run-Passes program words)
