-- ===== src/Serialization/StringWriter/Transfer.antt =====
-- Copying from a reader in memory into a string writer.
use kwctoolkit.Prelude.{
  ℕ, zero, suc, ◌+◌, ◌-◌, ◌^◌, ◌≤◌, ◌<◌, min, ◌≡◌, refl, sym, ap, ◌∙◌, inl, inr, Bool, true, false,
  arith, ltb, leb, ◌&&◌, ◌==◌, Bool-cases, ◌++◌, Bytes, length, take, drop, length-take,
  length-drop, drop-drop, take-add, append-nil, append_assoc, ℤ, pos, negsuc, Outcome, returned,
}
use kwctoolkit.Base.Status.{ok_status}
use kwctoolkit.Serialization.Reader.{Reader, read_into_buffer}
use kwctoolkit.Serialization.InMemory.{in_memory_methods}
use kwctoolkit.Serialization.InMemory.Reads.{standing, buffer_loop-standing}
use kwctoolkit.Serialization.Writer.{
  Writer, transfer_size, transfer_loop, default_chunk_size, transfer, propagate, write_reader,
}
use kwctoolkit.Serialization.Writer.Steps.{transfer_stop, transfer_round}
use kwctoolkit.Serialization.StringWriter.{string_writer_methods}
use kwctoolkit.Serialization.StringWriter.Laws.{holding, write_data-holding}

module _ (content : Bytes) (total : ℤ) where
  abbrev left : ℕ → ℕ
  left n = length content - n

  abbrev copied_from : ℕ → ℕ → Bytes → Outcome (Reader Bytes × Writer Bytes)
  copied_from n k storage = returned (
    standing content (n + k) (ltb 0 k && leb (left n) k) total ok_status,
    holding (storage ++ take k (drop n content)),
  )

  same_copy :
      (o o' : ℕ) (d d' : Bool) (s s' : Bytes)
      → o ≡ o'
      → d ≡ d'
      → s ≡ s'
      → ◌≡◌ {A = Outcome (Reader Bytes × Writer Bytes)}
          (returned (standing content o d total ok_status, holding s))
          (returned (standing content o' d' total ok_status, holding s'))
  same_copy o o' d d' s s' a b c = rw (a, b, c)

  read_chunk :
      (rounds n k : ℕ)
      → n ≤ length content
      → 0 < k
      → k ≤ left n
      → read_into_buffer in_memory_methods
          (suc (suc rounds))
          (pos k)
          (standing content n false total ok_status)
        ≡ returned
            (take k (drop n content), standing content (n + k) (leb (left n) k) total ok_status)
  unfolding read_into_buffer
  read_chunk rounds n k h hk hl =
      buffer_loop-standing content total ok_status rounds n k h
      ∙ same _ _ _ _ (omega arith) (ground arith)
    where
      same :
          (o o' : ℕ) (d d' : Bool)
          → o ≡ o'
          → d ≡ d'
          → ◌≡◌ {A = Outcome (Bytes × Reader Bytes)}
              (returned (take k (drop n content), standing content o d total ok_status))
              (returned (take k (drop n content), standing content o' d' total ok_status))
      same o o' d d' a b = rw (a, b)

  transfer_loop-standing :
      (rounds chunk fuel n k : ℕ) (storage : Bytes)
      → (0 < k → 0 < chunk)
      → n ≤ length content
      → k ≤ left n
      → k + 1 ≤ fuel
      → transfer_loop string_writer_methods in_memory_methods
          (suc (suc rounds))
          chunk
          fuel
          k
          (standing content n false total ok_status)
          (holding storage)
        ≡ copied_from n k storage
  transfer_loop-standing rounds chunk zero n k storage hc h hk hf = absurd (omega arith)
  transfer_loop-standing rounds chunk (suc fuel) n zero storage hc h hk hf =
      transfer_stop string_writer_methods in_memory_methods (suc (suc rounds)) chunk (suc fuel) 0
        (standing content n false total ok_status) (holding storage) (omega arith) refl
      ∙ same_copy _ _ _ _ _ _ (omega arith) refl (sym (append-nil storage))
  transfer_loop-standing rounds chunk (suc fuel) n (suc k) storage hc h hk hf =
      let some_chunk : 0 < chunk = hc (omega arith) in
      transfer_round string_writer_methods in_memory_methods (suc (suc rounds)) chunk fuel (suc k)
        (standing content n false total ok_status)
        (standing content (n + c) (leb (left n) c) total ok_status) (holding storage) piece
        (ground arith) (read_chunk rounds n c h (omega (arith, hc (omega arith))) (omega arith))
      ∙ rw (write_data-holding piece storage, length-piece)
          (elim (Bool-cases (leb (left n) c)) [
            | inl last ↦
                let all : c ≡ suc k = ground arith in
                rw (last) (
                  transfer_stop string_writer_methods in_memory_methods (suc (suc rounds)) chunk
                    fuel (suc k - c) (standing content (n + c) true total ok_status)
                    (holding (storage ++ piece)) (omega arith) (ground arith)
                  ∙ same_copy _ _ _ _ _ _ (ground arith) (ground arith)
                      (ap (λ s. storage ++ s) (ap (λ j. take j (drop n content)) all)))
            | inr inner ↦ rw (inner) (
                transfer_loop-standing rounds chunk fuel (n + c) (suc k - c) (storage ++ piece)
                  (λ _. hc (omega arith)) (ground arith) (ground arith) (omega arith)
                ∙ same_copy _ _ _ _ _ _ (omega arith) (ground arith) (
                    append_assoc storage piece (take (suc k - c) (drop (n + c) content))
                    ∙ ap (λ s. storage ++ s) pieces))
          ])
    where
      c : ℕ
      c = min (suc k) chunk

      piece : Bytes
      piece = take c (drop n content)

      length-piece : length piece ≡ c
      length-piece = omega (arith, length-take c (drop n content), length-drop n content)

      pieces : piece ++ take (suc k - c) (drop (n + c) content) ≡ take (suc k) (drop n content)
      pieces =
          let e : c + (suc k - c) ≡ suc k = omega arith in
          rw (← drop-drop n c content, ← take-add c (suc k - c) (drop n content), e)

  transfer-standing :
      (rounds fuel n k : ℕ) (storage : Bytes)
      → n ≤ length content
      → k ≤ left n
      → k + 1 ≤ fuel
      → transfer string_writer_methods in_memory_methods
          (rounds + 2)
          fuel
          (pos k)
          (standing content n false total ok_status)
          (holding storage)
        ≡ copied_from n k storage
  unfolding transfer
  transfer-standing rounds fuel n k storage h hk hf = elim (Bool-cases (k == 0)) [
    | inl z ↦
        let none_asked : k ≡ 0 = ground arith in
        rw (z, transfer)
          (same_copy _ _ _ _ _ _ (ground arith) (ground arith) (
            sym (append-nil storage)
            ∙ ap (λ s. storage ++ s) (ap (λ j. take j (drop n content)) (sym none_asked))))
    | inr some_asked ↦
        rw (some_asked, transfer)
          (ap
              (λ j.
                transfer_loop string_writer_methods in_memory_methods j (min k default_chunk_size)
                  fuel k (standing content n false total ok_status) (holding storage))
              two
            ∙ transfer_loop-standing rounds (min k default_chunk_size) fuel n k storage
                (λ _. ground arith) h hk hf)
  ]
    where
      two : rounds + 2 ≡ suc (suc rounds)
      two = omega arith

-- The count of bytes that a maximum and the rest of the content allow.
abbrev pub copied : ℤ → ℕ → ℕ
copied (pos k) left = min k left
copied (negsuc k) left = left

copied-le : (max_bytes : ℤ) (left : ℕ) → copied max_bytes left ≤ left
copied-le (pos k) left = omega arith
copied-le (negsuc k) left = omega arith

module _ (content : Bytes) where
  transfer_size-copied :
      (n : ℕ) (max_bytes : ℤ)
      → n ≤ length content
      → length content < 2 ^ 63
      → transfer_size max_bytes (standing content n false (pos (length content)) ok_status)
        ≡ pos (copied max_bytes (length content - n))
  unfolding transfer_size
  transfer_size-copied n (pos k) h hl = ground arith
  transfer_size-copied n (negsuc k) h hl = ground arith

  -- Copying from a reader in memory of less than 2^63 bytes, which stands at byte `n` and is not
  -- done, to a string writer that has begun and holds `storage`, succeeds and appends the next
  -- bytes of the content in order: all that are left for a negative maximum, else the maximum if
  -- there are so many. The size grows by that count, the reader stands behind the copied bytes,
  -- and it is done exactly if it was asked for a byte and gave the last one. Two rounds for a read
  -- and one more than bytes left for the copy are enough.
  pub write_reader-standing :
      (rounds fuel n : ℕ) (max_bytes : ℤ) (storage : Bytes)
      → n ≤ length content
      → length content < 2 ^ 63
      → length content - n + 1 ≤ fuel
      → write_reader string_writer_methods in_memory_methods
          (rounds + 2)
          fuel
          max_bytes
          (standing content n false (pos (length content)) ok_status)
          (holding storage)
        ≡ returned (
          ok_status,
          standing content
              (n + copied max_bytes (length content - n))
              (ltb 0 (copied max_bytes (length content - n))
                && leb (length content - n) (copied max_bytes (length content - n)))
              (pos (length content))
              ok_status,
          holding (storage ++ take (copied max_bytes (length content - n)) (drop n content)),
        )
  unfolding write_reader propagate
  write_reader-standing rounds fuel n max_bytes storage h hl hf =
      rw
        (
          transfer_size-copied n max_bytes h hl,
          transfer-standing content (pos (length content)) rounds fuel n
              (copied max_bytes (length content - n)) storage h (copied-le max_bytes _)
              (omega (arith, copied-le max_bytes (length content - n))),
        )
        refl
