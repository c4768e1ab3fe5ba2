-- ===== src/Serialization/InMemory/Seeks.antt =====
-- Seeking in memory: setOffset and reset.
use kwctoolkit.Prelude.{
  ℕ, ◌+◌, ◌^◌, ◌≤◌, ◌<◌, min, ◌≡◌, refl, ap, ◌∙◌, inl, inr, Bool, true, false, not, ◌&&◌, ◌||◌,
  if◌then◌else◌, arith, ltb, Bool-cases, Bytes, codes, ◌++◌, length, drop, ℤ, pos, negsuc, returned,
}
use kwctoolkit.Base.Status.{Status, is_ok, ok_status, invalid_argument, to_string}
use kwctoolkit.Serialization.Reader.{Reader, set_offset, set_status, read_remaining_to_string}
use kwctoolkit.Serialization.InMemory.{in_memory_methods, in_memory_set_offset}
use kwctoolkit.Serialization.InMemory.Reads.{standing}
use kwctoolkit.Serialization.InMemory.Strings.{read_remaining_to_string-standing}

module _ (content : Bytes) (total : ℤ) where
  landed :
      (position : ℕ) (r : Reader Bytes)
      → r.own ≡ content
      → in_memory_set_offset position r ≡ (pos (min position (length content)), r)
  unfolding in_memory_set_offset
  landed position r e = rw (e) (elim (Bool-cases (ltb (length content) position)) [
    | inl past ↦ ground arith
    | inr within ↦ ground arith
  ])

  abbrev cleared : Status → Status
  cleared s = if is_ok s then s else ok_status

  -- setOffset to a position that is not negative clamps it to the end of the content, clears the
  -- status of an error, and leaves a reader done only if it was done and the position is not
  -- before its offset.
  pub set_offset-standing :
      (n position : ℕ) (done : Bool) (s : Status)
      → set_offset in_memory_methods (pos position) (standing content n done total s) ≡ (
        pos (min position (length content)),
        standing content
            (min position (length content))
            (not (ltb position n) && done)
            total
            (if is_ok s then s else ok_status),
      )
  unfolding set_offset
  set_offset-standing n position done s =
      rw
        (landed position
          (record (standing content n (not (ltb position n || false) && done) total s) {
            status = (if is_ok s then s else ok_status);
          })
          refl)
        (elim (Bool-cases (ltb position n)) [ inl back ↦ rw (back) | inr forth ↦ rw (forth) ])

  recovering :
      (position : ℕ) (msg : Bytes)
      → set_offset in_memory_methods (pos position) (record {
        done = true;
        total_length = total;
        offset = negsuc 0;
        status = record { code = invalid_argument; msg = msg };
        own = content;
      })
        ≡ (
          pos (min position (length content)),
          standing content (min position (length content)) false total ok_status,
        )
  unfolding set_offset
  recovering position msg = rw (landed position (standing' (negsuc 0)) refl) refl
    where
      standing' : ℤ → Reader Bytes
      standing' o = record {
        done = false;
        total_length = total;
        offset = o;
        status = ok_status;
        own = content;
      }

  -- The reader after a seek to -(k + 1).
  abbrev pub refused : ℕ → ℕ → Bool → Status → Reader Bytes
  refused n k done s = (set_offset in_memory_methods (negsuc k) (standing content n done total s)).1

  -- A seek to a negative offset fails: it returns -1, and the reader is done, with an error. The
  -- next seek to a position recovers: what remains of less than 2^63 bytes is then exactly the
  -- content from that position on, and reading it leaves no error.
  pub set_offset-recovers :
      (n k position fuel : ℕ) (done : Bool) (s : Status)
      → length content < 2 ^ 63
      → length content + 2 ≤ fuel
      → ((set_offset in_memory_methods (negsuc k) (standing content n done total s)).0 ≡ negsuc 0)
        × ((refused n k done s).done ≡ true)
        × (is_ok (refused n k done s).status ≡ false)
        × (read_remaining_to_string in_memory_methods fuel
              (set_offset in_memory_methods (pos position) (refused n k done s)).1
            ≡ returned (
              drop (min position (length content)) content,
              standing content (length content) true total ok_status,
            ))
  unfolding set_offset set_status
  set_offset-recovers n k position fuel done s h hf = (
    refl,
    refl,
    refl,
    ap (λ (p : ℤ × Reader Bytes). read_remaining_to_string in_memory_methods fuel p.1)
          (recovering position (codes "Negative offset: " ++ to_string (negsuc k)))
        ∙ (read_remaining_to_string-standing content total ok_status fuel
            (min position (length content)) (omega arith) h (omega arith)),
  )
