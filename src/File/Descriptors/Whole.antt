-- ===== src/File/Descriptors/Whole.antt =====
-- ReadFile of kwctoolkit/file/file_utils.h: all the bytes of a file, whatever size fstat advises.
use kwctoolkit.Prelude.{
  ℕ, ◌+◌, ◌≤◌, ◌≡◌, ◌⊎◌, min, [], ◌++◌, length, take, Bytes, Bool, true, Outcome, returned, pos,
}
use kwctoolkit.File.Descriptors.{Calls, read_full}
use kwctoolkit.File.Descriptors.Reading.{Reads}

module _ {S : Type 0} (calls : Calls S) (fd : ℕ) (left : S → Bytes) (patience : S → ℕ)
    (reads : Reads calls fd left patience) (fuel : ℕ) where
  open calls use {read, fstat}

  -- A read of as many bytes as asked for, or of all that are left.
  abbrev ReadsFull : ℕ → ℕ → Bytes → S → Type 0
  ReadsFull offset count b s =
      (m : ℕ) × (b' : Bytes) × (s' : S) × (bytes : Bytes) × (read_full calls fuel fd offset count
          (b, s)
        ≡ returned (pos m, (b', s')))
      × (length bytes ≡ m)
      × (left s ≡ bytes ++ left s')
      × (take (offset + m) b' ≡ take offset b ++ bytes)
      × (length b' ≡ length b)
      × (m ≤ count)
      × ((m ≡ count) ⊎ (left s' ≡ []))
      × (patience s' + length (left s') ≤ patience s + length (left s))

  -- The rest of the file, or as much of it as the caller takes, is read behind what was read.
  abbrev ReadsAll : ℕ → ℕ → Bytes → S → Outcome (Bool × ℕ × (Bytes × S)) → Type 0
  ReadsAll num_bytes so_far out s o =
      (n : ℕ) × (out' : Bytes) × (s' : S) × (o ≡ returned (true, n, (out', s')))
      × (take so_far out ++ left s ≡ take n out' ++ left s')
      × (n ≤ length out')
      × (n ≡ min num_bytes (so_far + length (left s)))
