-- ===== src/Serialization/Reader.antt =====
-- DataReader of kwctoolkit/serialization/data_reader.h and data_reader.cc: the base class over its
-- virtual methods, and the reader that only reports an error. int64 values do not overflow. The
-- model is the release build, where KWC_CHECK does nothing. Memory is always granted, and the
-- callback that the destructor runs is not modelled.
pub mod Steps
pub mod Until
use kwctoolkit.Prelude.{
  ℕ, zero, suc, ◌+◌, ◌-◌, ◌^◌, min, Bool, true, false, not, ◌&&◌, ◌||◌, Option, none, some, [], ◌∷◌,
  ◌++◌, ltb, ◌==◌, if◌then◌else◌, Bytes, codes, length, ℤ, pos, negsuc, ◌+ℤ◌, ltb_ℤ, is_negative,
  Outcome, returned, exhausted, ◌>>=◌,
}
use kwctoolkit.Base.Status.{
  Status, is_ok, ok_status, to_string, unknown, invalid_argument, not_found,
}

-- The fields of the base class, and the derived class's own state.
pub record Reader (D : Type 0) : Type 0 where
  pub done : Bool
  pub total_length : ℤ
  pub offset : ℤ
  pub status : Status
  pub own : D

-- DataReader(delete_cb)
abbrev pub new_reader : {D : Type 0} → D → Reader D
new_reader d = record {
  done = false;
  total_length = negsuc 0;
  offset = pos 0;
  status = ok_status;
  own = d;
}

module _ {D : Type 0} where
  unfoldable pub set_status : Status → Reader D → Reader D
  set_status s r = if is_ok s then record r { status = s } else record r { status = s; done = true }

  unfoldable pub set_total_length : ℤ → Reader D → Reader D
  set_total_length (pos zero) r = record r { total_length = pos 0; done = true }
  set_total_length n r = record r { total_length = n }

-- The virtual methods. A read of at most so many bytes returns them, or `none` for a negative
-- count; `thrown` stands for an exception or an access outside the data.
pub record Methods (D : Type 0) : Type 0 where
  pub do_read_into_buffer : ℕ → Reader D → Outcome (Option Bytes × Reader D)
  pub do_set_offset : ℕ → Reader D → ℤ × Reader D
  pub do_append_until : Bytes → Reader D → Outcome (Bool × Bytes × Reader D)

-- The default of doSetOffset.
pub do_set_offset_default : {D : Type 0} → ℕ → Reader D → ℤ × Reader D
unfolding set_status
do_set_offset_default position r = (
  negsuc 0,
  set_status (record { code = not_found; msg = codes "Reader cannot seek to offset" }) r,
)

abbrev pub internal_error : Status
internal_error = record { code = unknown; msg = codes "Internal error" }

abbrev pub advance : {D : Type 0} → ℕ → Reader D → Reader D
advance n r = record r { offset = r.offset +ℤ pos n }

abbrev pub default_buffer_size : ℕ
default_buffer_size = 2 ^ 13

abbrev pub is_zero : ℤ → Bool
is_zero (pos n) = n == 0
is_zero (negsuc n) = false

module _ {D : Type 0} (m : Methods D) where
  open m use {do_read_into_buffer, do_set_offset, do_append_until}

  -- The new offset is the result.
  unfoldable pub set_offset : ℤ → Reader D → ℤ × Reader D
  unfolding set_status
  set_offset (negsuc n) r =
      let s : Status = record {
        code = invalid_argument;
        msg = codes "Negative offset: " ++ to_string (negsuc n);
      } in
      let r' = set_status s r in (negsuc 0, record r' { offset = negsuc 0 })
  set_offset (pos position) r =
      let back = ltb_ℤ (pos position) r.offset || is_negative r.offset in
      let r1 = record r {
        done = not back && r.done;
        status = if is_ok r.status then r.status else ok_status;
      } in
      let (found, r2) = do_set_offset position r1 in
      let r3 = record r2 { offset = found } in
      let s : Status = record {
        code = unknown;
        msg = codes "Could not seek to: " ++ to_string (pos position);
      } in
      (found, if is_negative found && is_ok r3.status then set_status s r3 else r3)

  -- `read` is what the storage holds, so `total_read` is its length. After a negative count the
  -- result is 0.
  unfoldable pub buffer_loop : ℕ → ℕ → Bytes → Reader D → Outcome (Bytes × Reader D)
  unfolding set_status
  buffer_loop zero max_bytes read r = exhausted
  buffer_loop (suc fuel) max_bytes read r = elim (ltb (length read) max_bytes && not r.done) [
    | false ↦ returned (read, r)
    | true ↦ do
      (got, r') ← do_read_into_buffer (max_bytes - length read) r
      elim got [
        | none ↦ returned ([], set_status internal_error r')
        | some bytes ↦ buffer_loop fuel max_bytes (read ++ bytes) (advance (length bytes) r')
      ]
  ]

  -- `fuel` bounds the rounds. The result is what stands in the storage, up to the count.
  unfoldable pub read_into_buffer : ℕ → ℤ → Reader D → Outcome (Bytes × Reader D)
  unfolding buffer_loop
  read_into_buffer fuel (pos max_bytes) r = buffer_loop fuel max_bytes [] r
  read_into_buffer fuel (negsuc n) r =
      returned ([], set_status (record { code = invalid_argument; msg = codes "negative read" }) r)

  -- The count, the string and the reader.
  unfoldable pub string_loop : ℕ → ℕ → ℕ → Bytes → Reader D → Outcome (ℕ × Bytes × Reader D)
  unfolding set_status
  string_loop zero max_bytes total into r = exhausted
  string_loop (suc fuel) max_bytes total into r = elim (ltb total max_bytes && not r.done) [
    | false ↦ returned (total, into, r)
    | true ↦ do
      (got, r') ← do_read_into_buffer (min default_buffer_size (max_bytes - total)) r
      elim got [
        | none ↦ returned (0, into, set_status internal_error r')
        | some [] ↦ string_loop fuel max_bytes total into r'
        | some (b ∷ bytes) ↦
            string_loop fuel max_bytes (total + length (b ∷ bytes)) (into ++ b ∷ bytes)
              (advance (length (b ∷ bytes)) r')
      ]
  ]

  unfoldable pub read_into_string : ℕ → ℤ → Bytes → Reader D → Outcome (ℕ × Bytes × Reader D)
  unfolding string_loop
  read_into_string fuel (pos max_bytes) into r = string_loop fuel max_bytes 0 into r
  read_into_string fuel (negsuc n) into r =
      returned
        (0, into, set_status (record { code = invalid_argument; msg = codes "Invalid argument" }) r)

  unfoldable pub read_remaining_to_string : ℕ → Reader D → Outcome (Bytes × Reader D)
  unfolding read_into_string
  read_remaining_to_string fuel r = do
    (count, result, r') ← read_into_string fuel (pos (2 ^ 63 - 1)) [] r
    returned (result, r')

  -- Whether the pattern was found, and what was consumed.
  unfoldable pub read_until : Bytes → Reader D → Outcome (Bool × Bytes × Reader D)
  read_until pattern r = do
    (found, consumed, r') ← do_append_until pattern r
    returned (found, consumed, advance (length consumed) r')

  -- Whether the reader stands at the front again.
  unfoldable pub reset : Reader D → Bool × Reader D
  unfolding set_offset
  reset r = let (found, r') = set_offset (pos 0) r in (is_zero found, r')
