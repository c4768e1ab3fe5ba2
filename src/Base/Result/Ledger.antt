-- ===== src/Base/Result/Ledger.antt =====
-- What a program puts into its Results of kwctoolkit/base/result.h, what they hold, and what is
-- received from them, counted.
use kwctoolkit.Prelude.{
  ℕ, zero, suc, ◌+◌, ◌<◌, ◌≡◌, arith, Bool, true, false, not, ◌&&◌, List, [], ◌∷◌, ◌++◌, ◌==◌,
  length, set, if◌then◌else◌,
}
use kwctoolkit.Base.Result.{
  Received, success, error, Statement, construct_success, construct_error, move_new, move_over,
  copy_new, copy_over, destroy_result, get_success, get_error,
}
use kwctoolkit.Base.Result.Abstract.{Contents, holding, empty, contents_at}

abbrev pub is_same : Received → Received → Bool
is_same (success p) (success q) = p == q
is_same (success p) (error q) = false
is_same (error p) (success q) = false
is_same (error p) (error q) = p == q

-- How often something is received, held by a variable, and put into a Result by a program.
abbrev pub times : Received → List Received → ℕ
times r [] = 0
times r (x ∷ xs) = (if is_same x r then 1 else 0) + times r xs

abbrev pub held_once : Received → Contents → ℕ
held_once r (holding x) = if is_same x r then 1 else 0
held_once r empty = 0

abbrev pub held : Received → List Contents → ℕ
held r [] = 0
held r (c ∷ vars) = held_once r c + held r vars

abbrev pub puts : Statement → List Received
puts (construct_success p) = success p ∷ []
puts (construct_error p) = error p ∷ []
puts (move_new other) = []
puts (move_over i other) = []
puts (copy_new other) = []
puts (copy_over i other) = []
puts (destroy_result i) = []
puts (get_success i) = []
puts (get_error i) = []

abbrev pub all_puts : List Statement → List Received
all_puts [] = []
all_puts (s ∷ program) = puts s ++ all_puts program

-- The statements use variables that are constructed, of which there are `n` so far.
abbrev pub constructs : Statement → ℕ
constructs (construct_success p) = 1
constructs (construct_error p) = 1
constructs (move_new other) = 1
constructs (move_over i other) = 0
constructs (copy_new other) = 1
constructs (copy_over i other) = 0
constructs (destroy_result i) = 0
constructs (get_success i) = 0
constructs (get_error i) = 0

abbrev pub Names : Statement → ℕ → Type 0
Names (construct_success p) n = Unit
Names (construct_error p) n = Unit
Names (move_new other) n = other < n
Names (move_over i other) n = (i < n) × (other < n)
Names (copy_new other) n = other < n
Names (copy_over i other) n = (i < n) × (other < n)
Names (destroy_result i) n = i < n
Names (get_success i) n = i < n
Names (get_error i) n = i < n

abbrev pub IsInScope : List Statement → ℕ → Type 0
IsInScope [] n = Unit
IsInScope (s ∷ program) n = Names s n × IsInScope program (constructs s + n)

-- A program that copies no Result, though the class lets it.
abbrev pub copies : Statement → Bool
copies (construct_success p) = false
copies (construct_error p) = false
copies (move_new other) = false
copies (move_over i other) = false
copies (copy_new other) = true
copies (copy_over i other) = true
copies (destroy_result i) = false
copies (get_success i) = false
copies (get_error i) = false

abbrev pub moves_only : List Statement → Bool
moves_only [] = true
moves_only (s ∷ program) = not (copies s) && moves_only program

pub times-append :
    (r : Received) (xs ys : List Received) → times r (xs ++ ys) ≡ times r xs + times r ys
times-append r [] ys = omega arith
times-append r (x ∷ xs) ys = omega (arith, times-append r xs ys)

pub held-append : (r : Received) (xs ys : List Contents) → held r (xs ++ ys) ≡ held r xs + held r ys
held-append r [] ys = omega arith
held-append r (x ∷ xs) ys = omega (arith, held-append r xs ys)

-- A variable that changes takes what it held with it.
pub held-set :
    (r : Received) (vars : List Contents) (i : ℕ) (c : Contents)
    → i < length vars
    → held r (set vars i c) + held_once r (contents_at i vars) ≡ held r vars + held_once r c
held-set r [] i c h = absurd (omega arith)
held-set r (v ∷ vars) zero c h = omega arith
held-set r (v ∷ vars) (suc i) c h = omega (arith, held-set r vars i c (omega arith))
