-- ===== src/Transport/Response/Body.antt =====
-- The body of a response that is read from memory.
use kwctoolkit.Prelude.{
  ℕ, ◌+◌, ◌^◌, ◌≤◌, ◌<◌, ◌≡◌, refl, ap, ◌∙◌, inl, inr, Bool, true, false, ◌&&◌, arith, Bool-cases,
  ◌==◌, if◌then◌else◌, [], Bytes, length, ℤ, pos, Outcome, returned, ◌>>=◌,
}
use kwctoolkit.Base.Status.{ok_status}
use kwctoolkit.Serialization.Reader.{Reader, is_zero, reset}
use kwctoolkit.Serialization.InMemory.{in_memory_methods}
use kwctoolkit.Serialization.InMemory.Reads.{standing}
use kwctoolkit.Serialization.InMemory.Strings.{read_remaining_to_string-standing}
use kwctoolkit.Serialization.InMemory.Seeks.{set_offset-standing}
use kwctoolkit.Transport.Response.{get_body, read_body}

module _ (content : Bytes) (total : ℤ) where
  reset-standing :
      (n : ℕ) (done : Bool)
      → reset in_memory_methods (standing content n done total ok_status)
        ≡ (true, standing content 0 (n == 0 && done) total ok_status)
  unfolding reset
  reset-standing n done =
      ap (λ (p : ℤ × Reader Bytes). (is_zero p.0, p.1))
        (set_offset-standing content total n 0 done ok_status)
      ∙ same _ _ _ (omega arith) (ground arith)
    where
      same :
          (o : ℕ) (d d' : Bool)
          → o ≡ 0
          → d ≡ d'
          → ◌≡◌ {A = Bool × Reader Bytes}
              (is_zero (pos o), standing content o d total ok_status)
              (true, standing content 0 d' total ok_status)
      same o d d' a b = rw (a, b) refl

  read_body-standing :
      (fuel : ℕ)
      → 0 < length content
      → length content < 2 ^ 63
      → length content + 2 ≤ fuel
      → read_body in_memory_methods fuel (standing content 0 false total ok_status)
        ≡ returned (ok_status, content, standing content 0 false total ok_status)
  unfolding read_body
  read_body-standing fuel h0 h hf =
      ap
        (λ (o : Outcome (Bytes × Reader Bytes)).
          o >>= λ p. returned (p.1.status, p.0, (reset in_memory_methods p.1).1))
        (read_remaining_to_string-standing content total ok_status fuel 0 (omega arith) h
          (omega arith))
      ∙ ap (λ (p : Bool × Reader Bytes). returned (ok_status, content, p.1))
          (reset-standing (length content) true)
      ∙ ap (λ d. returned (ok_status, content, standing content 0 d total ok_status)) not_front
    where
      not_front : (length content == 0 && true) ≡ false
      not_front = ground arith

  -- getBody on a nonempty body of less than 2^63 bytes in memory returns all of it, whatever part
  -- was read before, without an error, and leaves the reader at the front and not done, so that
  -- getBody returns the same again. The reader has no error, and is not done at the front.
  pub get_body-standing :
      (fuel n : ℕ) (done : Bool)
      → 0 < length content
      → length content < 2 ^ 63
      → length content + 2 ≤ fuel
      → (n == 0 && done) ≡ false
      → get_body in_memory_methods fuel (standing content n done total ok_status)
        ≡ returned (ok_status, content, standing content 0 false total ok_status)
  unfolding get_body
  get_body-standing fuel n done h0 h hf ready = elim (Bool-cases (n == 0)) [
    | inl front ↦
        let z : n ≡ 0 = ground arith in
        let d : done ≡ false = ground arith in rw (z) (at_last done d)
    | inr behind ↦ rw (behind) (
        ap
          (λ (p : Bool × Reader Bytes).
            if p.0 then read_body in_memory_methods fuel p.1 else returned (p.1.status, [], p.1))
          (reset-standing n done)
        ∙ at_last _ ready)
  ]
    where
      at_last :
          (d : Bool)
          → d ≡ false
          → read_body in_memory_methods fuel (standing content 0 d total ok_status)
            ≡ returned (ok_status, content, standing content 0 false total ok_status)
      at_last d e =
          ap (λ b. read_body in_memory_methods fuel (standing content 0 b total ok_status)) e
          ∙ read_body-standing fuel h0 h hf
