-- ===== src/Base/Result/Values.antt =====
-- The fallback Result<T, E> of kwctoolkit/base/result.h, which holds both sides and a tag. T is a
-- type with the value that its move leaves behind, and a default.
use kwctoolkit.Prelude.{
  ℕ, zero, suc, ◌≡◌, refl, Bool, true, not, ◌==◌, Option, none, Outcome, returned, thrown, ◌>>=◌,
}
use kwctoolkit.Base.Result.{kwc_assert}

-- enum Payload
abbrev pub type_success : ℕ
type_success = 0

abbrev pub type_error : ℕ
type_error = 1

abbrev pub type_received : ℕ
type_received = 2

pub record ValueResult (A : Type 0) : Type 0 where
  pub type : ℕ
  pub error : Option ℕ
  pub success : A

module _ {A : Type 0} (default : A) (moved : A → A) where
  -- Result(T&& success) and Result(std::unique_ptr<E> error)
  unfoldable pub from_value : A → ValueResult A
  from_value value = record { type = type_success; error = none; success = value }

  unfoldable pub from_error_value : Option ℕ → ValueResult A
  from_error_value error = record { type = type_error; error = error; success = default }

  -- The other Result after Result(Result&& other) or operator=(Result&& other); the new one is as
  -- the other was.
  unfoldable pub moved_from : ValueResult A → ValueResult A
  moved_from other = record { type = type_received; error = none; success = moved other.success }

  unfoldable pub move_value : ValueResult A → ValueResult A × ValueResult A
  unfolding moved_from
  move_value other =
      (record { type = other.type; error = other.error; success = other.success }, moved_from other)

module _ {A : Type 0} where
  abbrev pub is_error_value : ValueResult A → Bool
  is_error_value r = r.type == type_error

  abbrev pub is_success_value : ValueResult A → Bool
  is_success_value r = r.type == type_success

  module _ (asserts : Bool) where
    -- ~Result()
    unfoldable pub destroy_value : ValueResult A → Outcome (ValueResult A)
    destroy_value r = kwc_assert asserts (r.type == type_received) r

    unfoldable pub get_success_value : ValueResult A → Outcome (A × ValueResult A)
    get_success_value r =
        kwc_assert asserts (r.type == type_success) (r.success, record r { type = type_received })

    -- The assertion of getError assigns: `KWC_ASSERT(type_ = Error)`.
    unfoldable pub get_error_value : ValueResult A → Outcome (Option ℕ × ValueResult A)
    get_error_value r =
        let r1 : ValueResult A = record r { type = type_error } in
        kwc_assert asserts (not (type_error == 0)) (r1.error, record r1 { type = type_received })

-- A Result that is moved so often.
abbrev pub moved_on : {A : Type 0} → A → (A → A) → ℕ → ValueResult A → ValueResult A
moved_on default moved zero r = r
moved_on default moved (suc n) r = moved_on default moved n (move_value default moved r).0

moved_on-same :
    {A : Type 0} (default : A) (moved : A → A) (n : ℕ) (r : ValueResult A)
    → moved_on default moved n r ≡ r
unfolding move_value
moved_on-same default moved zero r = refl
moved_on-same default moved (suc n) r = moved_on-same default moved n r

-- The Results of a value and of an error, with assertions on, after any number of moves. Of the
-- value, getSuccess gives that value; of the error, getSuccess aborts and getError gives the error.
-- But getError of the value does not abort: it gives a null error. What getSuccess and getError
-- leave behind can be destroyed, which what was not received cannot.
pub get_value-moved_on :
    {A : Type 0} (default : A) (moved : A → A) (value : A) (e : Option ℕ) (n : ℕ)
    → let v = moved_on default moved n (from_value default moved value) in
      let w = moved_on default moved n (from_error_value default moved e) in
      (get_success_value true v >>= λ r. destroy_value true r.1 >>= λ _. returned r.0)
        ≡ returned value
      × (get_error_value true v >>= λ r. destroy_value true r.1 >>= λ _. returned r.0)
        ≡ returned none
      × get_success_value true w ≡ thrown
      × (get_error_value true w >>= λ r. destroy_value true r.1 >>= λ _. returned r.0) ≡ returned e
      × destroy_value true v ≡ thrown
      × destroy_value true w ≡ thrown
unfolding from_value from_error_value get_success_value get_error_value destroy_value
get_value-moved_on default moved value e n =
    rw
      (
        moved_on-same default moved n (from_value default moved value),
        moved_on-same default moved n (from_error_value default moved e),
      )
      (refl, refl, refl, refl, refl, refl)
