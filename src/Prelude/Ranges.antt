-- ===== src/Prelude/Ranges.antt =====
-- Tests on all numbers below a bound, by evaluation.
use Prim.Native.Nat.{ℕ, zero, suc, ◌<◌}
use mathlib.Core.Path.{◌≡◌}
use mathlib.Core.Bool.{Bool, true, ◌&&◌}
use native.Mathlib.Omega.{arith}
use kwctoolkit.Prelude.Tests.{◌==◌, ==_iff}

-- Whether a test succeeds on each number below the bound.
unfoldable pub passes : (ℕ → Bool) → ℕ → Bool
passes test zero = true
passes test (suc bound) = passes test bound && test bound

module _ (test : ℕ → Bool) (i : ℕ) where
  pub passes-at : (bound : ℕ) → i < bound → passes test bound ≡ true → test i ≡ true
  unfolding passes
  passes-at zero below h = absurd (omega arith)
  passes-at (suc bound) below h = ground (arith, passes-at bound)

pub agree :
    (bound : ℕ) (f g : ℕ → ℕ)
    → passes (λ i. f i == g i) bound ≡ true
    → (i : ℕ) → i < bound
    → f i ≡ g i
agree bound f g h i below = (==_iff (f i) (g i)).0 (passes-at (λ j. f j == g j) i bound below h)
