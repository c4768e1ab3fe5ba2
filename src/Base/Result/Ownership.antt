-- ===== src/Base/Result/Ownership.antt =====
-- Who owns the successes and errors that a program puts into Results of kwctoolkit/base/result.h.
use kwctoolkit.Prelude.{
  ℕ, suc, ◌+◌, ◌<◌, ◌≡◌, refl, ap, sym, ◌∙◌, arith, true, false, List, [], ◌∷◌, ◌++◌, map, ◌==◌,
  length, length-append, inl, inr, Bool-cases, set, Outcome, returned, thrown, exhausted,
}
use kwctoolkit.Base.RefCount.Balance.{get_or-set, length-set}
use kwctoolkit.Base.Result.{
  Received, success, error, Statement, construct_success, construct_error, move_new, move_over,
  copy_new, copy_over, destroy_result, get_success, get_error, giving, giving_more, in_turn,
  word_at, payload_empty, run,
}
use kwctoolkit.Base.Result.Ledger.{
  copies, moves_only, times, held_once, held, puts, all_puts, constructs, Names, IsInScope,
  times-append, held-append, held-set,
}
use kwctoolkit.Base.Result.Alignment.{
  AllAligned, AllPointersAligned, AlignedOutcome, abstract_run-Aligned,
}
use kwctoolkit.Base.Result.Refinement.{word_of, concrete, run_from-abstract_run}
use mathlib.Core.Path.{subst}
use kwctoolkit.Base.Result.Abstract.{
  Contents, holding, empty, contents_at, if_empty, abstract_step, abstract_run, success_of,
  error_of,
}

-- What a statement that returns does to the variables and to their contents.
abbrev Kept : Received → ℕ → ℕ → Outcome (List Received × List Contents) → Type 0
Kept r owned n (returned o) = (owned ≡ times r o.0 + held r o.1) × (length o.1 ≡ n)
Kept r owned n thrown = Unit
Kept r owned n exhausted = Unit

if_empty-Kept :
    (r : Received) (c : Contents) (vars' : List Contents) (owned n : ℕ)
    → held r vars' + held_once r c ≡ owned
    → length vars' ≡ n
    → Kept r owned n (if_empty c ([], vars'))
if_empty-Kept r (holding x) vars' owned n h g = tt
if_empty-Kept r empty vars' owned n h g = (omega (arith, h), g)

success_of-Kept :
    (r : Received) (c : Contents) (vars' : List Contents) (owned n : ℕ)
    → held r vars' + held_once r c ≡ owned
    → length vars' ≡ n
    → Kept r owned n (giving success (success_of c vars'))
success_of-Kept r (holding (success p)) vars' owned n h g = (omega (arith, h), g)
success_of-Kept r (holding (error p)) vars' owned n h g = tt
success_of-Kept r empty vars' owned n h g = tt

error_of-Kept :
    (r : Received) (c : Contents) (vars' : List Contents) (owned n : ℕ)
    → held r vars' + held_once r c ≡ owned
    → length vars' ≡ n
    → Kept r owned n (giving error (error_of c vars'))
error_of-Kept r (holding (success p)) vars' owned n h g = tt
error_of-Kept r (holding (error p)) vars' owned n h g = (omega (arith, h), g)
error_of-Kept r empty vars' owned n h g = tt

-- The contents that an assignment moves stand at its right side until they leave it.
contents_at-assigned :
    (vars : List Contents) (i other : ℕ)
    → i < length vars
    → contents_at other (set vars i (contents_at other vars)) ≡ contents_at other vars
contents_at-assigned vars i other h = elim (Bool-cases (i == other)) [
  | inl e ↦ rw (get_or-set vars i other (contents_at other vars) empty h, e) refl
  | inr e ↦ rw (get_or-set vars i other (contents_at other vars) empty h, e) refl
]

held-assigned :
    (r : Received) (vars : List Contents) (i other : ℕ)
    → i < length vars
    → other < length vars
    → held r (set (set vars i (contents_at other vars)) other empty)
        + held_once r (contents_at i vars)
      ≡ held r vars
held-assigned r vars i other h g =
    let moved = set vars i (contents_at other vars) in
    omega (
      arith,
      held-set r vars i (contents_at other vars) h,
      held-set r moved other empty (omega (arith, length-set vars i (contents_at other vars))),
      ap (held_once r) (contents_at-assigned vars i other h),
    )

step-Kept :
    (s : Statement) (vars : List Contents) (r : Received)
    → copies s ≡ false
    → Names s (length vars)
    → Kept r (times r (puts s) + held r vars) (constructs s + length vars) (abstract_step s vars)
unfolding abstract_step
step-Kept (construct_success p) vars r g h = (
  omega (arith, held-append r vars (holding (success p) ∷ [])),
  omega (arith, length-append vars (holding (success p) ∷ [])),
)
step-Kept (construct_error p) vars r g h = (
  omega (arith, held-append r vars (holding (error p) ∷ [])),
  omega (arith, length-append vars (holding (error p) ∷ [])),
)
step-Kept (move_new other) vars r g h =
    let left = set vars other empty in
    let c = contents_at other vars in
    (
      omega (arith, held-append r left (c ∷ []), held-set r vars other empty h),
      omega (arith, length-append left (c ∷ []), length-set vars other empty),
    )
step-Kept (move_over i other) vars r g h =
    let moved = set vars i (contents_at other vars) in
    if_empty-Kept r (contents_at i vars) (set moved other empty) (0 + held r vars) (0 + length vars)
      (omega (arith, held-assigned r vars i other h.0 h.1))
      (omega (arith, length-set moved other empty, length-set vars i (contents_at other vars)))
step-Kept (copy_new other) vars r g h = absurd (ground arith)
step-Kept (copy_over i other) vars r g h = absurd (ground arith)
step-Kept (destroy_result i) vars r g h = destroyed-Kept (contents_at i vars)
  where
    destroyed-Kept :
        (c : Contents) → Kept r (0 + held r vars) (0 + length vars) (if_empty c ([], vars))
    destroyed-Kept (holding x) = tt
    destroyed-Kept empty = (refl, omega arith)
step-Kept (get_success i) vars r g h =
    success_of-Kept r (contents_at i vars) (set vars i empty) (0 + held r vars) (0 + length vars)
      (omega (arith, held-set r vars i empty h)) (omega (arith, length-set vars i empty))
step-Kept (get_error i) vars r g h =
    error_of-Kept r (contents_at i vars) (set vars i empty) (0 + held r vars) (0 + length vars)
      (omega (arith, held-set r vars i empty h)) (omega (arith, length-set vars i empty))

-- One statement after another.
in_turn-Kept :
    (r : Received) (owned more n m : ℕ) (o : Outcome (List Received × List Contents))
    (f : List Contents → Outcome (List Received × List Contents))
    → Kept r owned n o
    → ((vars : List Contents) → length vars ≡ n → Kept r (more + held r vars) m (f vars))
    → Kept r (owned + more) m (in_turn o f)
in_turn-Kept r owned more n m (returned now) f h g = giving_more-Kept (f now.1) (g now.1 h.1)
  where
    giving_more-Kept :
        (o : Outcome (List Received × List Contents))
        → Kept r (more + held r now.1) m o
        → Kept r (owned + more) m (giving_more now.0 o)
    giving_more-Kept (returned later) k =
        (omega (arith, k.0, h.0, times-append r now.0 later.0), k.1)
    giving_more-Kept thrown k = tt
    giving_more-Kept exhausted k = tt
in_turn-Kept r owned more n m thrown f h g = tt
in_turn-Kept r owned more n m exhausted f h g = tt

abbrev constructed : ℕ → List Statement → ℕ
constructed n [] = n
constructed n (s ∷ program) = constructed (constructs s + n) program

run-Kept :
    (program : List Statement) (vars : List Contents) (n : ℕ) (r : Received)
    → length vars ≡ n
    → moves_only program ≡ true
    → IsInScope program n
    → Kept r
        (times r (all_puts program) + held r vars)
        (constructed n program)
        (abstract_run program vars)
unfolding abstract_run
run-Kept [] vars n r e g h = (refl, e)
run-Kept (s ∷ program) vars n r e g h =
    let moved : copies s ≡ false = ground arith in
    let later : moves_only program ≡ true = ground arith in
    let split : times r (puts s ++ all_puts program) + held r vars
        ≡ (times r (puts s) + held r vars) + times r (all_puts program) =
      omega (arith, times-append r (puts s) (all_puts program)) in
    rw (split) (
      in_turn-Kept r (times r (puts s) + held r vars) (times r (all_puts program))
        (constructs s + n) (constructed (constructs s + n) program) (abstract_step s vars)
        (abstract_run program)
        (subst
          (λ k. Kept r (times r (puts s) + held r vars) (constructs s + k) (abstract_step s vars)) e
          (step-Kept s vars r moved (subst (Names s) (sym e) h.0)))
        (λ vars' e'. run-Kept program vars' (constructs s + n) r e' later h.1))

-- Words that are empty hold nothing.
empty-held :
    (r : Received) (vars : List Contents)
    → AllAligned vars
    → ((i : ℕ) → word_at i (map word_of vars) ≡ payload_empty)
    → held r vars ≡ 0
empty-held r [] h e = refl
empty-held r (holding (success p) ∷ vars) h e = absurd (omega (arith, h.0, e 0))
empty-held r (holding (error p) ∷ vars) h e = absurd (omega (arith, h.0, e 0))
empty-held r (empty ∷ vars) h e = omega (arith, empty-held r vars h.1 (λ i. e (suc i)))

abbrev result_of : Outcome (List Received × List ℕ) → List Received × List ℕ
result_of (returned o) = o
result_of thrown = ([], [])
result_of exhausted = ([], [])

-- In a debug build, take a program of Results that uses only variables that are constructed, with
-- pointers that are multiples of four, and that moves Results but copies none. If it does not abort, and ends with every Result empty (as
-- the destructors assert), then the callers of getSuccess and getError have received every success
-- and every error as often as the program put it into a Result: none is lost, and none is owned
-- twice, however often it was moved.
pub run-times :
    (program : List Statement) (taken : List Received) (words : List ℕ)
    → AllPointersAligned program
    → moves_only program ≡ true
    → IsInScope program 0
    → run true program [] ≡ returned (taken, words)
    → ((i : ℕ) → word_at i words ≡ payload_empty)
    → (r : Received) → times r taken ≡ times r (all_puts program)
run-times program taken words h moved scope e empties r =
    from_abstract (abstract_run program []) (run_from-abstract_run program [] h tt)
      (run-Kept program [] 0 r refl moved scope) (abstract_run-Aligned program [] h tt)
  where
    from_abstract :
        (o : Outcome (List Received × List Contents))
        → run true program [] ≡ concrete o
        → Kept r (times r (all_puts program) + 0) (constructed 0 program) o
        → AlignedOutcome o
        → times r taken ≡ times r (all_puts program)
    from_abstract (returned (now, vars)) g k a =
        let q = ap result_of (sym e ∙ g) in
        let none_left = empty-held r vars a (λ i. ap (λ o. word_at i o.1) (sym q) ∙ empties i) in
        omega (arith, k.0, none_left, ap (λ o. times r o.0) q)
    from_abstract thrown g k a = absurd (ground arith)
    from_abstract exhausted g k a = absurd (ground arith)
