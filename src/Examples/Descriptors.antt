-- ===== src/Examples/Descriptors.antt =====
-- Reading and writing a file two bytes at a time, with interruptions.
use kwctoolkit.Prelude.{
  ℕ, zero, suc, ◌<◌, ◌≤◌, ◌≡◌, refl, arith, ◌⊎◌, inl, inr, true, some, [], ◌++◌, length, take, drop,
  min, ltb, if◌then◌else◌, ◌==◌, Bool-cases, false, Bytes, codes, returned, pos,
}
use kwctoolkit.File.Descriptors.{
  Reply, gives, fails, eintr, Calls, write_file, write_full, wrap_incomplete, write_part,
  close_no_interrupt,
}
use kwctoolkit.File.Descriptors.Writing.{Writes, WroteOrFailed, write_file-written}

-- The bytes of the file (those left to read, or those written), and the interruptions to come.
abbrev State : Type 0
State = Bytes × ℕ

abbrev slow_read : ℕ → ℕ → State → Reply Bytes × State
slow_read fd count (left, suc n) = (fails eintr, (left, n))
slow_read fd count (left, zero) = (gives (take (min 2 count) left), (drop (min 2 count) left, 0))

abbrev slow_write : ℕ → Bytes → State → Reply ℕ × State
slow_write fd bytes (written, suc n) = (fails eintr, (written, n))
slow_write fd bytes (written, zero) =
    (gives (min 2 (length bytes)), (written ++ take (min 2 (length bytes)) bytes, 0))

-- A file that grows to eight bytes, and then fails with ENOSPC.
abbrev full_write : ℕ → Bytes → State → Reply ℕ × State
full_write fd bytes s = if ltb (length s.0) 8 then slow_write fd bytes s else (fails 28, s)

abbrev slow : Calls State
slow = record {
  read = slow_read;
  write = full_write;
  open_file = λ name flags s. (gives 3, s);
  close = λ fd s. (fails eintr, s);
  fstat = λ fd s. (some (pos 1), s);
}

abbrev bytes_of : State → Bytes
bytes_of s = s.0

abbrev interruptions : State → ℕ
interruptions s = s.1

abbrev IsFull : State → Type 0
IsFull s = 8 ≤ length (bytes_of s)

slow_one_write :
    (bytes : Bytes) (s : State)
    → (((full_write 3 bytes s).0 ≡ fails eintr)
        × (bytes_of (full_write 3 bytes s).1 ≡ bytes_of s)
        × (interruptions (full_write 3 bytes s).1 < interruptions s))
      ⊎ (((n : ℕ) × ((full_write 3 bytes s).0 ≡ gives n)
            × (n ≤ length bytes)
            × (bytes_of (full_write 3 bytes s).1 ≡ bytes_of s ++ take n bytes)
            × (interruptions (full_write 3 bytes s).1 ≤ interruptions s)
            × (n ≡ 0 → length bytes ≡ 0))
          ⊎ ((errno : ℕ) × ((full_write 3 bytes s).0 ≡ fails errno)
              × ((errno == eintr) ≡ false)
              × IsFull (full_write 3 bytes s).1))
slow_one_write bytes (written, n) = elim (Bool-cases (ltb (length written) 8)) [
  | inr full ↦ rw (full) (inr (inr (28, refl, refl, ground arith)))
  | inl room ↦ rw (room) (has_room n)
]
  where
    has_room :
        (n : ℕ)
        → (((slow_write 3 bytes (written, n)).0 ≡ fails eintr)
            × (bytes_of (slow_write 3 bytes (written, n)).1 ≡ written)
            × (interruptions (slow_write 3 bytes (written, n)).1 < n))
          ⊎ (((k : ℕ) × ((slow_write 3 bytes (written, n)).0 ≡ gives k)
                × (k ≤ length bytes)
                × (bytes_of (slow_write 3 bytes (written, n)).1 ≡ written ++ take k bytes)
                × (interruptions (slow_write 3 bytes (written, n)).1 ≤ n)
                × (k ≡ 0 → length bytes ≡ 0))
              ⊎ ((errno : ℕ) × ((slow_write 3 bytes (written, n)).0 ≡ fails errno)
                  × ((errno == eintr) ≡ false)
                  × IsFull (slow_write 3 bytes (written, n)).1))
    has_room (suc n) = inl (refl, refl, omega arith)
    has_room zero =
        inr (inl (min 2 (length bytes), refl, omega arith, refl, omega arith, λ e. omega arith))

slow_writes : Writes slow 3 bytes_of interruptions IsFull
slow_writes = record {
  one_write = slow_one_write;
  one_close = λ s. (refl, λ full. full, inr (inl refl));
}

write_file-written_example :
    WroteOrFailed slow 3 bytes_of interruptions IsFull
      (codes "hello")
      (write_file slow 20 (codes "f") (codes "hello") 577 ([], 2))
write_file-written_example =
    write_file-written slow 3 bytes_of interruptions IsFull 20 slow_writes (codes "f")
      (codes "hello") 577 ([], 2) refl refl (omega arith) (omega arith)

-- A write that is interrupted twice, with a close that is too, and one that fills the disk.
write_file-hello :
    write_file slow 20 (codes "f") (codes "hello") 577 ([], 2) ≡ returned (true, (codes "hello", 0))
unfolding write_file write_full wrap_incomplete write_part close_no_interrupt
write_file-hello = refl

write_file-full :
    write_file slow 20 (codes "f") (codes "0123456789") 577 ([], 0)
    ≡ returned (false, (codes "01234567", 0))
unfolding write_file write_full wrap_incomplete write_part close_no_interrupt
write_file-full = refl
