-- ===== src/Serialization/Writer.antt =====
-- DataWriter of kwctoolkit/serialization/data_writer.h and data_writer.cc: the base class over its
-- virtual methods. InvalidDataReader of data_reader.cc, which a bad writer creates. int64 values
-- do not overflow.
pub mod Steps
use kwctoolkit.Prelude.{
  ℕ, zero, suc, ◌+◌, ◌-◌, ◌^◌, min, Bool, true, false, not, ◌&&◌, Option, none, some, [], ◌==◌,
  if◌then◌else◌, Bytes, codes, length, ℤ, pos, negsuc, ◌+ℤ◌, ◌-ℤ◌, ltb_ℤ, is_negative, Outcome,
  returned, exhausted, ◌>>=◌,
}
use kwctoolkit.Base.Status.{Status, is_ok, ok_status, invalid_argument}
use kwctoolkit.Serialization.Reader.{Reader, Methods, new_reader, set_status, read_into_buffer}

-- The fields of the base class, and the derived class's own state.
pub record Writer (W : Type 0) : Type 0 where
  pub size : ℕ
  pub has_begun : Bool
  pub status : Status
  pub own : W

-- DataWriter()
abbrev pub new_writer : {W : Type 0} → W → Writer W
new_writer w = record { size = 0; has_begun = false; status = ok_status; own = w }

-- The virtual methods; doCreateDataReader is `create_reader`.
pub record WriterMethods (W R : Type 0) : Type 0 where
  pub do_begin : W → Status × W
  pub do_end : W → Status × W
  pub do_clear : W → Status × W
  pub do_write : Bytes → W → Status × W
  pub create_reader : W → R

-- InvalidDataReader(status, delete_cb); its own field is the status.
unfoldable pub invalid_data_reader : Status → Reader Status
unfolding set_status
invalid_data_reader s = set_status s (new_reader s)

unfoldable pub invalid_set_offset : ℕ → Reader Status → ℤ × Reader Status
unfolding set_status
invalid_set_offset position r = (negsuc 0, set_status r.own r)

unfoldable pub invalid_read : ℕ → Reader Status → Outcome (Option Bytes × Reader Status)
invalid_read max_bytes r = returned (some [], r)

-- The reader that a writer hands out.
pub data CreatedReader (R : Type 0) : Type 0 where
  invalid_reader : Reader Status → CreatedReader R
  data_reader : R → CreatedReader R

-- std::min
abbrev pub min_ℤ : ℤ → ℤ → ℤ
min_ℤ a b = if ltb_ℤ b a then b else a

-- The count of bytes to copy for a maximum: a negative maximum stands for none.
unfoldable pub transfer_size : {D : Type 0} → ℤ → Reader D → ℤ
transfer_size max_bytes r =
    let limit = if is_negative max_bytes then pos (2 ^ 63 - 1) else max_bytes in
    let reader_remaining = r.total_length -ℤ r.offset in
    if is_negative reader_remaining then limit else min_ℤ reader_remaining limit

abbrev pub default_chunk_size : ℕ
default_chunk_size = 2 ^ 12

module _ {W R : Type 0} (m : WriterMethods W R) where
  open m use {do_begin, do_end, do_clear, do_write, create_reader}

  unfoldable pub clear : Writer W → Writer W
  clear w = let (s, own) = do_clear w.own in record w { size = 0; status = s; own = own }

  unfoldable pub begin : Writer W → Writer W
  begin w =
      let (s, own) = do_begin w.own in
      record w { size = 0; status = s; has_begun = is_ok s; own = own }

  unfoldable pub end : Writer W → Writer W
  end w = let (s, own) = do_end w.own in record w { status = s; own = own }

  -- writeData(bytes, data) with a count that is not negative: the bytes are the data.
  unfoldable pub write_data : Bytes → Writer W → Status × Writer W
  unfolding begin
  write_data bytes w =
      let w1 = if w.has_begun then w else begin w in
      if is_ok w1.status
      then (let (s, own) = do_write bytes w1.own in
          (
            s,
            record w1 {
              status = s;
              own = own;
              size = if is_ok s then w1.size + length bytes else w1.size;
            },
          ))
      else (w1.status, w1)

  -- writeData with a negative count.
  unfoldable pub write_negative : Writer W → Status × Writer W
  unfolding begin
  write_negative w =
      let w1 = if w.has_begun then w else begin w in
      if is_ok w1.status
      then (record { code = invalid_argument; msg = codes "Attempted negative write" }, w1)
      else (w1.status, w1)

  unfoldable pub create_data_reader : Writer W → CreatedReader R
  create_data_reader w =
      if is_ok w.status
      then data_reader (create_reader w.own)
      else invalid_reader (invalid_data_reader w.status)

  -- The chunk size is at most 4 KB. `remaining` is not negative: a read returns at most what was
  -- asked for. `fuel` bounds the rounds, and `rounds` those of each read.
  module _ {D : Type 0} (rm : Methods D) (rounds chunk_size : ℕ) where
    unfoldable pub transfer_loop : ℕ → ℕ → Reader D → Writer W → Outcome (Reader D × Writer W)
    unfolding write_data
    transfer_loop zero remaining r w = exhausted
    transfer_loop (suc fuel) remaining r w =
        elim (not (remaining == 0) && (not r.done && is_ok w.status)) [
          | false ↦ returned (r, w)
          | true ↦ do
            (bytes, r') ← read_into_buffer rm rounds (pos (min remaining chunk_size)) r
            transfer_loop fuel (remaining - length bytes) r' (write_data bytes w).1
        ]

  unfoldable pub transfer :
      {D : Type 0} → Methods D → ℕ → ℕ → ℤ → Reader D → Writer W → Outcome (Reader D × Writer W)
  unfolding transfer_loop
  transfer rm rounds fuel (pos remaining) r w = elim (remaining == 0) [
    | true ↦ returned (r, w)
    | false ↦ transfer_loop rm rounds (min remaining default_chunk_size) fuel remaining r w
  ]
  transfer rm rounds fuel (negsuc n) r w = returned (r, w)

  -- The status of a reader that finished with an error becomes the writer's.
  unfoldable pub propagate : {D : Type 0} → Reader D → Writer W → Writer W
  propagate r w = if is_ok r.status then w else record w { status = r.status }

  -- writeData(reader, max_bytes): the status, the reader and the writer.
  unfoldable pub write_reader :
      {D : Type 0}
      → Methods D
      → ℕ
      → ℕ
      → ℤ
      → Reader D
      → Writer W
      → Outcome (Status × Reader D × Writer W)
  unfolding transfer transfer_size propagate
  write_reader rm rounds fuel max_bytes r w =
      if is_ok w.status
      then (do
        (r', w') ←
            if r.done
            then returned (r, w)
            else transfer rm rounds fuel (transfer_size max_bytes r) r w
        (let w'' = propagate r' w' in returned (w''.status, r', w'')))
      else returned (w.status, r, w)
