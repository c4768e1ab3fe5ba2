-- ===== src/Serialization/Reader/Steps.antt =====
-- Single rounds of the reading loops.
use kwctoolkit.Prelude.{
  ℕ, zero, suc, ◌+◌, ◌-◌, ◌<◌, min, ◌≡◌, arith, true, false, not, ◌&&◌, some, [], ◌∷◌, ◌++◌, ltb,
  Bytes, length, returned,
}
use kwctoolkit.Serialization.Reader.{
  Reader, Methods, advance, buffer_loop, string_loop, default_buffer_size,
}

module _ {D : Type 0} (m : Methods D) (fuel max_bytes : ℕ) (r : Reader D) where
  pub buffer_stop :
      (read : Bytes)
      → (ltb (length read) max_bytes && not r.done) ≡ false
      → buffer_loop m (suc fuel) max_bytes read r ≡ returned (read, r)
  unfolding buffer_loop
  buffer_stop read h = rw (h, buffer_loop)

  pub buffer_round :
      (read bytes : Bytes) (r' : Reader D)
      → (ltb (length read) max_bytes && not r.done) ≡ true
      → m.do_read_into_buffer (max_bytes - length read) r ≡ returned (some bytes, r')
      → buffer_loop m (suc fuel) max_bytes read r
        ≡ buffer_loop m fuel max_bytes (read ++ bytes) (advance (length bytes) r')
  unfolding buffer_loop
  buffer_round read bytes r' h e = rw (h, buffer_loop) (rw e)

  pub string_stop :
      (total : ℕ) (into : Bytes)
      → (ltb total max_bytes && not r.done) ≡ false
      → string_loop m (suc fuel) max_bytes total into r ≡ returned (total, into, r)
  unfolding string_loop
  string_stop total into h = rw (h, string_loop)

  pub string_round :
      (total b : ℕ) (into bytes : Bytes) (r' : Reader D)
      → (ltb total max_bytes && not r.done) ≡ true
      → m.do_read_into_buffer (min default_buffer_size (max_bytes - total)) r
        ≡ returned (some (b ∷ bytes), r')
      → string_loop m (suc fuel) max_bytes total into r
        ≡ string_loop m fuel max_bytes
            (total + length (b ∷ bytes))
            (into ++ b ∷ bytes)
            (advance (length (b ∷ bytes)) r')
  unfolding string_loop
  string_round total b into bytes r' h e = rw (h, string_loop) (rw e)

  pub string_skip :
      (total : ℕ) (into : Bytes) (r' : Reader D)
      → (ltb total max_bytes && not r.done) ≡ true
      → m.do_read_into_buffer (min default_buffer_size (max_bytes - total)) r
        ≡ returned (some [], r')
      → string_loop m (suc fuel) max_bytes total into r ≡ string_loop m fuel max_bytes total into r'
  unfolding string_loop
  string_skip total into r' h e = rw (h, string_loop) (rw e)

-- With a round left, the loop ends at its test.
pub string_end :
    {D : Type 0} (m : Methods D) (fuel max_bytes : ℕ) (r : Reader D) (total : ℕ) (into : Bytes)
    → 0 < fuel
    → (ltb total max_bytes && not r.done) ≡ false
    → string_loop m fuel max_bytes total into r ≡ returned (total, into, r)
string_end m zero max_bytes r total into hf h = absurd (omega arith)
string_end m (suc fuel) max_bytes r total into hf h = string_stop m fuel max_bytes r total into h
