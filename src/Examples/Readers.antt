-- ===== src/Examples/Readers.antt =====
-- Reading and seeking in a short text in memory.
use kwctoolkit.Prelude.{
  refl, ℕ, ◌+◌, ◌≤◌, ◌++◌, take, drop, length, codes, Bytes, ◌≡◌, arith, pos, negsuc, returned,
  true, false,
}
use kwctoolkit.Base.Status.{ok_status, is_ok}
use kwctoolkit.Serialization.Reader.{Reader, read_remaining_to_string, set_offset, read_until}
use kwctoolkit.Serialization.InMemory.{in_memory_methods}
use kwctoolkit.Serialization.InMemory.Reads.{standing}
use kwctoolkit.Serialization.InMemory.Until.{read_until-occurs}
use kwctoolkit.Serialization.InMemory.Seeks.{set_offset-recovers, refused}

abbrev hello : Bytes
hello = codes "Hello"

abbrev hello_at_2 : Reader Bytes
hello_at_2 = standing hello 2 false (pos 5) ok_status

set_offset-recovers_example :
    ((set_offset in_memory_methods (negsuc 0) hello_at_2).0 ≡ negsuc 0)
    × ((refused hello (pos 5) 2 0 false ok_status).done ≡ true)
    × (is_ok (refused hello (pos 5) 2 0 false ok_status).status ≡ false)
    × (read_remaining_to_string in_memory_methods 7
          (set_offset in_memory_methods (pos 1) (refused hello (pos 5) 2 0 false ok_status)).1
        ≡ returned (codes "ello", standing hello 5 true (pos 5) ok_status))
set_offset-recovers_example =
    set_offset-recovers hello (pos 5) 2 0 1 7 false ok_status (omega arith) (omega arith)

read_until-occurs_example :
    (i : ℕ) × (codes "llo" ≡ take i (codes "llo") ++ codes "l" ++ drop (i + 1) (codes "llo"))
    × ((before after : Bytes) → codes "llo" ≡ before ++ codes "l" ++ after → i ≤ length before)
    × (i ≤ 1)
    × (read_until in_memory_methods (codes "l") hello_at_2
        ≡ returned (
          true,
          take i (codes "llo") ++ codes "l",
          standing hello (2 + (i + 1)) false (pos 5) ok_status,
        ))
read_until-occurs_example =
    read_until-occurs hello (pos 5) ok_status false 2 (codes "l") (codes "l") (codes "o")
      (omega arith) refl
