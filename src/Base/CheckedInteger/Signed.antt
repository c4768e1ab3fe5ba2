-- ===== src/Base/CheckedInteger/Signed.antt =====
-- Signed types.
use kwctoolkit.Prelude.{ℕ, Bool, not, Option, none, some, if◌then◌else◌, ℤ, pos, ◌-ℤ◌}
use kwctoolkit.Base.CheckedInteger.{min_of, in_range, eq_value}

-- What a difference should be: exact, or refused where it does not fit.
abbrev exact_difference : ℕ → ℤ → ℤ → Option ℤ
exact_difference half a b = if in_range half (a -ℤ b) then some (a -ℤ b) else none

-- The difference in both kinds of types.
abbrev difference_in : ℕ → Bool → ℤ → ℤ → Option ℤ
difference_in half narrow a b =
    if not (eq_value a (pos 0))
    then exact_difference half a b
    else if eq_value b (min_of half)
    then some (min_of half)
    else if narrow
    then exact_difference half a b
    else none
