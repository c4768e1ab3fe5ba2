-- ===== src/Examples/Counts.antt =====
-- A program with one object, two Refs and one owning pointer.
use kwctoolkit.Prelude.{refl, arith, none, some, [], ◌∷◌, returned}
use kwctoolkit.Base.RefCount.{
  Memory, create, acquire_ref, copy_construct, construct, reference, reference_object,
  release_object, destroy,
}
use kwctoolkit.Base.RefCount.Ownership.{IsSound, Succeeds}
use kwctoolkit.Base.RefCount.Programs.{
  Run, start, next, creates, acquires, copy_constructs, destroys, Run-IsSound,
}

abbrev empty_memory : Memory
empty_memory = record { heap = []; refs = none ∷ none ∷ []; owned = none ∷ [] }

empty_memory-IsSound : IsSound empty_memory
empty_memory-IsSound = (λ q. omega arith, omega arith)

-- new T, AcquireRef, a copy, and the end of the first Ref.
abbrev shared : Memory
shared = record { heap = some 4 ∷ []; refs = some 0 ∷ some 0 ∷ []; owned = none ∷ [] }

abbrev created : Memory
created = record { heap = some 2 ∷ []; refs = none ∷ none ∷ []; owned = some 0 ∷ [] }

abbrev acquired : Memory
acquired = record { heap = some 2 ∷ []; refs = some 0 ∷ none ∷ []; owned = none ∷ [] }

run_created : Run empty_memory (returned created)
unfolding create
run_created = next start (creates 0 0 (omega arith) refl (omega arith))

run_acquired : Run empty_memory (returned acquired)
unfolding acquire_ref construct reference reference_object release_object
run_acquired = next run_created (acquires 0 0 0 (omega arith) (omega arith) refl refl)

run_shared : Run empty_memory (returned shared)
unfolding copy_construct construct reference reference_object
run_shared = next run_acquired (copy_constructs 1 0 (omega arith) refl)

program : Run empty_memory (destroy 0 shared)
program = next run_shared (destroys 0 (omega arith))

Run-IsSound_example : Succeeds (destroy 0 shared)
Run-IsSound_example = Run-IsSound empty_memory-IsSound program
