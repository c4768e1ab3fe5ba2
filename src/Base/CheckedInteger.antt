-- ===== src/Base/CheckedInteger.antt =====
-- CheckedIntegerImpl of kwctoolkit/base/checked_integer.h, with assertions on: `none` is a failed
-- KWC_ASSERT, and an operation that passes gives the value that it returns. A type of integers is
-- given by its size: an unsigned one by the count of its values (of 32 bits or more, since the sum
-- of narrower ones is an int and its assertion never fails), a signed one by half of that count.
pub mod Signed
pub mod Unsigned
use kwctoolkit.Prelude.{
  ℕ, zero, suc, ◌+◌, ◌-◌, ◌*◌, ◌%◌, Bool, true, false, not, ◌&&◌, Option, none, some, ltb, leb,
  ◌==◌, if◌then◌else◌, ℤ, pos, negsuc, ◌+ℤ◌, ◌-ℤ◌, ltb_ℤ, is_negative,
}

abbrev pub asserting {ℓ} : {A : Type ℓ} → Bool → A → Option A
asserting condition a = if condition then some a else none

-- std::numeric_limits<T>::max() and min() of a signed type.
abbrev pub max_of : ℕ → ℤ
max_of half = pos (half - 1)

abbrev pub min_of : ℕ → ℤ
min_of half = negsuc (half - 1)

abbrev pub in_range : ℕ → ℤ → Bool
in_range half (pos n) = ltb n half
in_range half (negsuc n) = ltb n half

-- The value of a sum or a difference in the type: what a type narrower than int makes of it where
-- it does not fit. (For others the code is undefined there; this is what the machine computes.)
abbrev pub wrap : ℕ → ℤ → ℤ
wrap half v =
    if in_range half v
    then v
    else if is_negative v
    then v +ℤ pos (2 * half)
    else v -ℤ pos (2 * half)

abbrev pub leb_ℤ : ℤ → ℤ → Bool
leb_ℤ a b = not (ltb_ℤ b a)

abbrev pub eq_value : ℤ → ℤ → Bool
eq_value a b = leb_ℤ a b && leb_ℤ b a

module _ (half : ℕ) where
  -- operator-() and the two binary operators of signed types.
  unfoldable pub signed_neg : ℤ → Option ℤ
  signed_neg a = asserting (not (eq_value a (min_of half))) (wrap half (pos 0 -ℤ a))

  unfoldable pub signed_add : ℤ → ℤ → Option ℤ
  signed_add a b =
      asserting (if ltb_ℤ (pos 0) a then leb_ℤ b (max_of half -ℤ a) else leb_ℤ (min_of half -ℤ a) b)
        (wrap half (a +ℤ b))

  -- The bounds of the assertions on a difference. The types narrower than int compute the second
  -- in int, exactly; the others overflow at 0 - min(), which wraps around to min() where the
  -- machine does.
  abbrev pub bound_above : Bool → ℤ → ℤ
  bound_above narrow a = let bound = a -ℤ min_of half in if narrow then bound else wrap half bound

  unfoldable pub signed_sub : Bool → ℤ → ℤ → Option ℤ
  signed_sub narrow a b =
      asserting
        (if ltb_ℤ (pos 0) a then leb_ℤ (a -ℤ max_of half) b else leb_ℤ b (bound_above narrow a))
        (wrap half (a -ℤ b))

  -- operator++ and operator-- of signed types.
  unfoldable pub signed_increment : ℤ → Option ℤ
  signed_increment a = asserting (ltb_ℤ a (max_of half)) (wrap half (a +ℤ pos 1))

  unfoldable pub signed_decrement : ℤ → Option ℤ
  signed_decrement a = asserting (ltb_ℤ (min_of half) a) (wrap half (a -ℤ pos 1))

module _ (size : ℕ) where
  unfoldable pub unsigned_add : ℕ → ℕ → Option ℕ
  unsigned_add a b = let sum = (a + b) % size in asserting (leb a sum) sum

  unfoldable pub unsigned_sub : ℕ → ℕ → Option ℕ
  unsigned_sub a b =
      let difference = (a + size - b) % size in asserting (leb difference a) difference

  unfoldable pub unsigned_increment : ℕ → Option ℕ
  unsigned_increment a = asserting (ltb a (size - 1)) ((a + 1) % size)

  unfoldable pub unsigned_decrement : ℕ → Option ℕ
  unsigned_decrement a = asserting (ltb 0 a) ((a + size - 1) % size)
