-- ===== src/System/Thread.antt =====
-- Thread of kwctoolkit/system/thread.cc, on POSIX. `asserts` is BUILD_FLAG(ENABLE_ASSERTS), and the
-- conditions of KWC_ASSERT, which create and join threads, are evaluated in every build. The system
-- is a parameter: the least and greatest priority of SCHED_FIFO (`none` for -1; POSIX has no
-- negative ones on Linux), and the calls on threads, of which a thread is a number, 0 for none.
pub mod Priorities
use kwctoolkit.Prelude.{
  ℕ, ◌+◌, ◌-◌, ◌*◌, ◌/◌, Bool, true, false, not, ◌&&◌, ◌||◌, Option, none, some, leb, ltb, ◌==◌,
  if◌then◌else◌, max, length, is_empty, Bytes, Outcome, returned, thrown, ◌>>=◌,
}
use kwctoolkit.Base.Result.{kwc_assert}

pub data ThreadPriority : Type 0 where
  low_priority : ThreadPriority
  normal_priority : ThreadPriority
  high_priority : ThreadPriority
  highest_priority : ThreadPriority
  realtime_priority : ThreadPriority

-- The switch of setPriority.
abbrev pub sched_priority : ThreadPriority → ℕ → ℕ → ℕ
sched_priority low_priority low top = low
sched_priority normal_priority low top = (low + top - 1) / 2
sched_priority high_priority low top = max (top - 2) low
sched_priority highest_priority low top = max (top - 1) low
sched_priority realtime_priority low top = top

-- The priority that setPriority asks for, if any.
unfoldable pub priority_for : Option ℕ → Option ℕ → ThreadPriority → Option ℕ
priority_for none max_priority priority = none
priority_for (some min_priority) none priority = none
priority_for (some min_priority) (some max_priority) priority =
    if leb max_priority (min_priority + 2)
    then none
    else some (sched_priority priority (min_priority + 1) (max_priority - 1))

-- The system, of states S: pthread_create gives an error number and a thread, pthread_join and
-- pthread_setschedparam an error number.
pub record Pthreads (S : Type 0) : Type 0 where
  pub priority_min : Option ℕ
  pub priority_max : Option ℕ
  pub create_thread : S → (ℕ × ℕ) × S
  pub join_thread : ℕ → S → ℕ × S
  pub setschedparam : ℕ → ℕ → S → ℕ × S

module _ {S : Type 0} (system : Pthreads S) where
  open system use {priority_min, priority_max, create_thread, join_thread, setschedparam}

  unfoldable pub set_priority : ℕ → ThreadPriority → S → Bool × S
  unfolding priority_for
  set_priority thread priority s = elim (priority_for priority_min priority_max priority) [
    | none ↦ (false, s)
    | some p ↦ ((setschedparam thread p s).0 == 0, (setschedparam thread p s).1)
  ]

  module _ (asserts : Bool) where
    -- The constructor's checks of the function (whether there is one) and of the name.
    unfoldable pub new_thread : Bool → Bytes → Outcome ℕ
    new_thread func name = do
      named ← kwc_assert asserts func name
      nonempty ← kwc_assert asserts (not (is_empty named)) named
      kwc_assert asserts (ltb (length nonempty) 64) 0

    unfoldable pub start : ℕ × S → Outcome (ℕ × S)
    start (thread, s) = do
      s1 ← kwc_assert asserts (thread == 0) s
      kwc_assert asserts ((create_thread s1).0.0 == 0)
          ((create_thread s1).0.1, (create_thread s1).1)

    abbrev pub is_running : ℕ → Bool
    is_running thread = not (thread == 0)

    unfoldable pub stop : ℕ × S → Outcome (ℕ × S)
    stop (thread, s) = elim (is_running thread) [
      | false ↦ returned (thread, s)
      | true ↦ kwc_assert asserts ((join_thread thread s).0 == 0) (0, (join_thread thread s).1)
    ]
