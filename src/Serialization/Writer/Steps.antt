-- ===== src/Serialization/Writer/Steps.antt =====
-- Single rounds of the loop that copies from a reader.
use kwctoolkit.Prelude.{
  ℕ, zero, suc, ◌-◌, ◌<◌, min, ◌≡◌, arith, true, false, not, ◌&&◌, ◌==◌, Bytes, length, pos,
  returned,
}
use kwctoolkit.Base.Status.{is_ok}
use kwctoolkit.Serialization.Reader.{Reader, Methods, read_into_buffer}
use kwctoolkit.Serialization.Writer.{Writer, WriterMethods, write_data, transfer_loop}

module _ {W R D : Type 0} (m : WriterMethods W R) (rm : Methods D) (rounds chunk_size : ℕ) where
  pub transfer_stop :
      (fuel remaining : ℕ) (r : Reader D) (w : Writer W)
      → 0 < fuel
      → (not (remaining == 0) && (not r.done && is_ok w.status)) ≡ false
      → transfer_loop m rm rounds chunk_size fuel remaining r w ≡ returned (r, w)
  unfolding transfer_loop
  transfer_stop zero remaining r w hf h = absurd (omega arith)
  transfer_stop (suc fuel) remaining r w hf h = rw (h, transfer_loop)

  pub transfer_round :
      (fuel remaining : ℕ) (r r' : Reader D) (w : Writer W) (bytes : Bytes)
      → (not (remaining == 0) && (not r.done && is_ok w.status)) ≡ true
      → read_into_buffer rm rounds (pos (min remaining chunk_size)) r ≡ returned (bytes, r')
      → transfer_loop m rm rounds chunk_size (suc fuel) remaining r w
        ≡ transfer_loop m rm rounds chunk_size fuel
            (remaining - length bytes)
            r'
            (write_data m bytes w).1
  unfolding transfer_loop
  transfer_round fuel remaining r r' w bytes h e = rw (h, transfer_loop) (rw e)
