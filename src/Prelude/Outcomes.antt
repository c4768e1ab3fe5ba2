-- ===== src/Prelude/Outcomes.antt =====
-- How a call ends: with a value, with a C++ exception, or not within the fuel of its model.
use mathlib.Core.Path.{◌≡◌, refl}
use mathlib.Core.Option.{Option, none, some}

pub data Outcome {ℓ} (A : Type ℓ) : Type ℓ where
  returned : A → Outcome A
  thrown : Outcome A
  exhausted : Outcome A

infixl 5 ◌>>=◌
abbrev pub ◌>>=◌ {ℓ κ} : {A : Type ℓ} {B : Type κ} → Outcome A → (A → Outcome B) → Outcome B
returned a >>= f = f a
thrown >>= f = thrown
exhausted >>= f = exhausted

-- A library call whose exception is `none`.
abbrev pub or_thrown {ℓ} : {A : Type ℓ} → Option A → Outcome A
or_thrown none = thrown
or_thrown (some a) = returned a

pub bind_assoc {ℓ κ μ} :
    {A : Type ℓ} {B : Type κ} {C : Type μ} (m : Outcome A) (f : A → Outcome B) (g : B → Outcome C)
    → (m >>= f >>= g) ≡ (m >>= λ a. f a >>= g)
bind_assoc (returned a) f g = refl
bind_assoc thrown f g = refl
bind_assoc exhausted f g = refl
