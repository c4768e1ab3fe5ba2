-- ===== src/System/Thread/Priorities.antt =====
-- The scheduling priorities of kwctoolkit/system/thread.cc.
use kwctoolkit.Prelude.{
  ℕ, ◌+◌, ◌-◌, ◌≤◌, ◌<◌, ◌≡◌, refl, arith, none, some, ◌⊎◌, leb, Bool-cases, inl, inr,
}
use kwctoolkit.System.Thread.{
  ThreadPriority, low_priority, normal_priority, high_priority, highest_priority, realtime_priority,
  sched_priority, priority_for,
}

-- The order of the enumeration.
abbrev pub rank : ThreadPriority → ℕ
rank low_priority = 1
rank normal_priority = 2
rank high_priority = 3
rank highest_priority = 4
rank realtime_priority = 5

sched_priority-bounds :
    (p : ThreadPriority) (low top : ℕ)
    → low < top
    → (low ≤ sched_priority p low top) × (sched_priority p low top ≤ top)
sched_priority-bounds low_priority low top h = (omega arith, omega arith)
sched_priority-bounds normal_priority low top h = (omega arith, omega arith)
sched_priority-bounds high_priority low top h = (omega arith, omega arith)
sched_priority-bounds highest_priority low top h = (omega arith, omega arith)
sched_priority-bounds realtime_priority low top h = (omega arith, omega arith)

sched_priority-le :
    (p q : ThreadPriority) (low top : ℕ)
    → low < top
    → rank p ≤ rank q
    → sched_priority p low top ≤ sched_priority q low top
sched_priority-le low_priority q low top h r = (sched_priority-bounds q low top h).0
sched_priority-le p realtime_priority low top h r = (sched_priority-bounds p low top h).1
sched_priority-le normal_priority normal_priority low top h r = omega arith
sched_priority-le normal_priority high_priority low top h r = omega arith
sched_priority-le normal_priority highest_priority low top h r = omega arith
sched_priority-le high_priority high_priority low top h r = omega arith
sched_priority-le high_priority highest_priority low top h r = omega arith
sched_priority-le highest_priority highest_priority low top h r = omega arith
sched_priority-le p q low top h r = absurd (omega arith)

-- If SCHED_FIFO has more than three priorities, from `least` to `greatest`, setPriority asks for one
-- strictly between them, and never for a lower one where its argument is higher. If it has three
-- or fewer, setPriority fails for every argument.
pub priority_for-bounds :
    (p q : ThreadPriority) (least greatest : ℕ)
    → least ≤ greatest
    → rank p ≤ rank q
    → ((a b : ℕ) × (priority_for (some least) (some greatest) p ≡ some a)
        × (priority_for (some least) (some greatest) q ≡ some b)
        × (least < a)
        × (a ≤ b)
        × (b < greatest))
      ⊎ ((greatest ≤ least + 2) × (priority_for (some least) (some greatest) p ≡ none))
unfolding priority_for
priority_for-bounds p q least greatest h r = elim (Bool-cases (leb greatest (least + 2))) [
  | inl few ↦ inr (ground arith, rw (few) refl)
  | inr many ↦
      let low = least + 1 in
      let top = greatest - 1 in
      let l : low < top = ground arith in
      let lower = sched_priority-bounds p low top l in
      let upper = sched_priority-bounds q low top l in
      inl (
        sched_priority p low top,
        sched_priority q low top,
        rw (many) refl,
        rw (many) refl,
        omega arith,
        sched_priority-le p q low top l r,
        omega arith,
      )
]
