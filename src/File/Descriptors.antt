-- ===== src/File/Descriptors.antt =====
-- Whole reads and writes of kwctoolkit/file/file_utils.h and file_utils.cc, on POSIX. The system
-- calls are a parameter: functions of a state of the system, which is theirs. A call gives a number
-- or fails with an error number. (An int holds what read and write give, which on Linux is at most
-- 0x7ffff000.) `fuel` bounds the loops. KWC_CHECK only logs.
pub mod Transfers
pub mod Buffers
pub mod Whole
pub mod Writing
pub mod Reading
use kwctoolkit.Prelude.{
  ℕ, zero, suc, ◌+◌, ◌-◌, ◌*◌, ◌/◌, ◌%◌, ◌^◌, min, Bool, true, false, not, ◌&&◌, ◌||◌, Option, none,
  some, List, [], ◌∷◌, ◌++◌, ltb, ◌==◌, if◌then◌else◌, is_empty, length, take, drop, replicate,
  Bytes, Outcome, returned, thrown, exhausted, ◌>>=◌, ℤ, pos, negsuc,
}

pub data Reply (A : Type 0) : Type 0 where
  gives : A → Reply A
  fails : ℕ → Reply A

-- errno
abbrev pub eintr : ℕ
eintr = 4

-- The int of a bit pattern of 32 bits.
abbrev pub int_of : ℕ → ℤ
int_of n = if ltb n (2 ^ 31) then pos n else negsuc (2 ^ 32 - 1 - n)

abbrev pub is_value : ℤ → ℕ → Bool
is_value (pos n) m = n == m
is_value (negsuc n) m = false

abbrev pub size_of : ℤ → ℕ
size_of (pos n) = n
size_of (negsuc n) = 2 ^ 64 - 1 - n

abbrev pub is_closed : Reply ℕ → Bool
is_closed (gives n) = n == 0
is_closed (fails errno) = false

abbrev pub is_failure : ℤ → Bool
is_failure (pos n) = false
is_failure (negsuc n) = n == 0

module _ {S : Type 0} where
  -- WrapNoInterrupt
  unfoldable pub wrap_no_interrupt : ℕ → (S → Reply ℕ × S) → S → Outcome (Reply ℕ × S)
  wrap_no_interrupt zero f s = exhausted
  wrap_no_interrupt (suc fuel) f s =
      let again = wrap_no_interrupt fuel f (f s).1 in
      elim (f s).0 [
        | gives n ↦ returned (f s)
        | fails errno ↦ if errno == eintr then again else returned (f s)
      ]

  -- WrapIncomplete, where `f` is a call on the buffer from an offset on; `total` is total_bytes.
  unfoldable pub wrap_incomplete : ℕ → (ℕ → ℕ → S → Reply ℕ × S) → ℕ → ℕ → ℕ → S → Outcome (ℤ × S)
  wrap_incomplete zero f offset count total s = exhausted
  wrap_incomplete (suc fuel) f offset count total s = elim (f offset count s).0 [
    | fails errno ↦
        let again = wrap_incomplete fuel f offset count total (f offset count s).1 in
        if errno == eintr
        then if count == 0 then returned (int_of total, (f offset count s).1) else again
        else returned (negsuc 0, (f offset count s).1)
    | gives r ↦
        let total' = (total + r) % 2 ^ 32 in
        let count' = (count + (2 ^ 64 - r)) % 2 ^ 64 in
        let again = wrap_incomplete fuel f (offset + r) count' total' (f offset count s).1 in
        if not (r == 0) && not (count' == 0)
        then again
        else returned (int_of total', (f offset count s).1)
  ]

-- The system calls; `read` gives the bytes that it puts into the buffer, and the open mode is that
-- of the program's calls.
pub record Calls (S : Type 0) : Type 0 where
  pub read : ℕ → ℕ → S → Reply Bytes × S
  pub write : ℕ → Bytes → S → Reply ℕ × S
  pub open_file : Bytes → ℕ → S → Reply ℕ × S
  pub close : ℕ → S → Reply ℕ × S
  pub fstat : ℕ → S → Option ℤ × S

-- A write into a buffer.
abbrev pub write_at : ℕ → Bytes → Bytes → Bytes
write_at offset bytes buffer = take offset buffer ++ bytes ++ drop (offset + length bytes) buffer

-- out.resize(n)
abbrev pub resize : ℕ → Bytes → Bytes
resize n out = take n out ++ replicate (n - length out) 0

-- The size of the first allocation, from st_size.
abbrev pub initial_size : ℤ → ℕ → ℕ
initial_size (pos n) num_bytes = min (if n == 0 then 1024 * 4 else (n + 1) % 2 ^ 64) num_bytes
initial_size (negsuc n) num_bytes = min (1024 * 4) num_bytes

module _ {S : Type 0} (calls : Calls S) (system_fuel : ℕ) where
  open calls use {read, write, open_file, close, fstat}

  -- read(2) into a buffer, and write(2) from it.
  unfoldable pub read_into : ℕ → ℕ → ℕ → Bytes × S → Reply ℕ × (Bytes × S)
  read_into fd offset count (buffer, s) = elim (read fd count s).0 [
    | gives bytes ↦ (gives (length bytes), (write_at offset bytes buffer, (read fd count s).1))
    | fails errno ↦ (fails errno, (buffer, (read fd count s).1))
  ]

  unfoldable pub write_part : ℕ → Bytes → ℕ → ℕ → S → Reply ℕ × S
  write_part fd buffer offset count s = write fd (take count (drop offset buffer)) s

  -- ReadFull of `count` bytes to `&out[offset]`.
  unfoldable pub read_full : ℕ → ℕ → ℕ → Bytes × S → Outcome (ℤ × (Bytes × S))
  unfolding wrap_incomplete
  read_full fd offset count = wrap_incomplete system_fuel (read_into fd) offset count 0

  unfoldable pub write_full : ℕ → Bytes → S → Outcome (ℤ × S)
  unfolding wrap_incomplete
  write_full fd data_bytes =
      wrap_incomplete system_fuel (write_part fd data_bytes) 0 (length data_bytes) 0

  unfoldable pub open_no_interrupt : Bytes → ℕ → S → Outcome (Reply ℕ × S)
  unfolding wrap_no_interrupt
  open_no_interrupt name flags = wrap_no_interrupt system_fuel (open_file name flags)

  abbrev pub ignore_close_return : Reply ℕ → Reply ℕ
  ignore_close_return (gives r) = gives r
  ignore_close_return (fails errno) = if errno == eintr then gives 0 else fails errno

  unfoldable pub close_no_interrupt : ℕ → S → Reply ℕ × S
  close_no_interrupt fd s = (ignore_close_return (close fd s).0, (close fd s).1)

  -- The loop of ReadFile; the result, the buffer and read_so_far.
  unfoldable pub read_file_loop : ℕ → ℕ → ℕ → ℕ → Bytes × S → Outcome (Bool × ℕ × (Bytes × S))
  unfolding read_full
  read_file_loop zero fd num_bytes read_so_far s = exhausted
  read_file_loop (suc fuel) fd num_bytes read_so_far (out, s) =
      elim (ltb read_so_far (length out)) [
        | false ↦ returned (true, read_so_far, (out, s))
        | true ↦ read_full fd read_so_far (length out - read_so_far) (out, s) >>= λ r.
            elim (is_failure r.0) [
              | true ↦ returned (false, read_so_far, r.1)
              | false ↦
                  let read' = (read_so_far + size_of r.0) % 2 ^ 64 in
                  let out' = r.1.0 in
                  let more = resize (min (length out' * 3 % 2 ^ 64 / 2) num_bytes) out' in
                  let rest = read_file_loop fuel fd num_bytes read' (more, r.1.1) in
                  if ltb read' (length out') then returned (true, read', r.1) else rest
            ]
      ]

  -- ReadFile of a descriptor: its result and `out`, which the guard resizes on every way out.
  unfoldable pub read_file : ℕ → ℕ → Bytes → S → Outcome (Bool × (Bytes × S))
  unfolding read_file_loop
  read_file fd num_bytes out s = elim (fstat fd s).0 [
    | none ↦ returned (false, (resize 0 out, (fstat fd s).1))
    | some st_size ↦
        read_file_loop system_fuel fd num_bytes 0
          (resize (initial_size st_size num_bytes) out, (fstat fd s).1)
        >>= λ r. returned (r.0, (resize r.1 r.2.0, r.2.1))
  ]

  -- ReadFile of a path, opened with O_RDONLY | O_CLOEXEC.
  unfoldable pub read_file_at : Bytes → ℕ → ℕ → Bytes → S → Outcome (Bool × (Bytes × S))
  unfolding open_no_interrupt read_file close_no_interrupt
  read_file_at filename flags num_bytes out s = open_no_interrupt filename flags s >>= λ opened.
      elim opened.0 [
        | fails errno ↦ returned (false, (out, opened.1))
        | gives fd ↦ read_file fd num_bytes out opened.1 >>= λ r.
            returned (r.0, (r.1.0, (close_no_interrupt fd r.1.1).1))
      ]

  -- WriteFile, with `flags` for the open.
  unfoldable pub write_file : Bytes → Bytes → ℕ → S → Outcome (Bool × S)
  unfolding write_full close_no_interrupt
  write_file filename data_bytes flags s = elim (open_file filename flags s).0 [
    | fails errno ↦ returned (false, (open_file filename flags s).1)
    | gives fd ↦ written fd (open_file filename flags s).1 >>= λ w.
        returned (is_closed (close_no_interrupt fd w.1).0 && w.0, (close_no_interrupt fd w.1).1)
  ]
    where
      written : ℕ → S → Outcome (Bool × S)
      written fd s1 =
          if is_empty data_bytes
          then returned (true, s1)
          else (write_full fd data_bytes s1 >>= λ w.
              returned (is_value w.0 (length data_bytes), w.1))
