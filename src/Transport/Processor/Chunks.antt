-- ===== src/Transport/Processor/Chunks.antt =====
-- Responses in chunks: what the parser writes for them.
use kwctoolkit.Prelude.{
  ℕ, zero, suc, ◌+◌, ◌-◌, ◌*◌, ◌^◌, ◌≤◌, ◌<◌, ◌≡◌, refl, ap, ◌∙◌, inl, inr, Bool, true, false, not,
  ◌&&◌, arith, Bool-cases, List, [], ◌∷◌, ◌++◌, append_assoc, append-nil, is_empty, length,
  length-append, Bytes, ℤ, pos, returned,
}
use kwctoolkit.Base.Numbers.{strtol, scan_number, skip_space, take_sign, skip_prefix, read_digits}
use kwctoolkit.Base.Numbers.Spelling.{spell}
use kwctoolkit.Serialization.StringWriter.{string_writer_methods}
use kwctoolkit.Serialization.StringWriter.Laws.{holding, flatten}
use kwctoolkit.Transport.Response.{HttpHeaderMap}
use kwctoolkit.Transport.Processor.{
  chunk_len, complete, read_line, line_round, parse_loop, process_chunk_length_line,
  process_line_in,
}
use kwctoolkit.Transport.Processor.Rounds.{parse_line, parse_body}
use kwctoolkit.Transport.Processor.Pieces.{chunking, state, length_round, end_round, piece_round}

-- The number of bytes in hexadecimal, a line end, the bytes, and a line end.
abbrev pub chunk : Bytes → Bytes → Bytes
chunk piece rest =
    spell 16 (suc (length piece)) (length piece) []
    ++ b'\r' ∷ b'\n' ∷ (piece ++ b'\r' ∷ b'\n' ∷ rest)

-- The chunks of a body, and the end of it.
abbrev pub chunks : List Bytes → Bytes → Bytes
chunks [] rest = b'0' ∷ b'\r' ∷ b'\n' ∷ b'\r' ∷ b'\n' ∷ rest
chunks (piece ∷ pieces) rest = chunk piece (chunks pieces rest)

-- Pieces that stand in one chunk each.
abbrev pub none_empty : List Bytes → Bool
none_empty [] = true
none_empty (piece ∷ pieces) = not (is_empty piece) && none_empty pieces

module _ (code : ℤ) (headers : HttpHeaderMap) where
  -- What is left of the text of a spelled length is not empty.
  not_empty-append : (text : Bytes) (c : ℕ) (rest : Bytes) → is_empty (text ++ c ∷ rest) ≡ false
  not_empty-append [] c rest = refl
  not_empty-append (d ∷ text) c rest = refl

  -- One chunk takes three rounds.
  one_chunk :
      (fuel count read : ℕ) (left : ℤ) (before piece rest storage : Bytes)
      → is_empty piece ≡ false
      → length piece < 2 ^ 63
      → length piece ≤ count
      → count < 2 ^ 31
      → (before' : Bytes) × (parse_loop string_writer_methods (suc (suc (suc fuel))) (
            state count before
              (chunk piece rest)
              (chunking chunk_len code headers left read)
              storage)
          ≡ parse_loop string_writer_methods fuel (
              state
                (count - length piece)
                before'
                rest
                (chunking chunk_len code headers (pos 0) (read + length piece))
                (storage ++ piece)))
  one_chunk fuel count read left before [] rest storage hp hl hc hs = absurd (ground arith)
  one_chunk fuel count read left before (c ∷ piece) rest storage hp hl hc hs =
      let n = suc (length piece) in
      let digits = spell 16 (suc n) n [] in
      let before1 = before ++ (digits ++ b'\r' ∷ b'\n' ∷ []) in
      let before2 = before1 ++ (c ∷ piece) in
      let after1 = b'\r' ∷ b'\n' ∷ rest in
      (
        before2 ++ (b'\r' ∷ b'\n' ∷ []),
        parse_line string_writer_methods (suc (suc fuel)) _ _
              (rw (not_empty-append digits b'\r' (b'\n' ∷ (c ∷ piece ++ after1))) refl) refl
              (length_round code headers count read n left before (c ∷ piece ++ after1) storage
                (omega arith) hl)
            ∙ parse_body string_writer_methods (suc fuel) _ _ refl refl
                (piece_round code headers count read before1 (c ∷ piece) after1 storage hc hs)
            ∙ parse_line string_writer_methods fuel _ _ refl refl (
                end_round code headers (count - n) (read + n) (pos 0) before2 rest
                  (storage ++ (c ∷ piece))),
      )

  -- The chunk of no bytes and the empty line behind it end the body.
  last_chunk :
      (fuel count read : ℕ) (left : ℤ) (before rest storage : Bytes)
      → parse_loop string_writer_methods
          (suc (suc (suc fuel)))
          (state count before (chunks [] rest) (chunking chunk_len code headers left read) storage)
        ≡ returned (chunking complete code headers (pos 0) read, holding storage)
  unfolding parse_loop line_round process_line_in process_chunk_length_line read_line strtol
      scan_number skip_space take_sign skip_prefix read_digits
  last_chunk fuel count read left before rest storage = elim (Bool-cases (is_empty rest)) [
    | inl e ↦ rw (e) refl
    | inr e ↦ rw (e) refl
  ]

  -- The chunks of the rest of a body.
  pub parse_chunks :
      (pieces : List Bytes) (fuel count read : ℕ) (left : ℤ) (before rest storage : Bytes)
      → none_empty pieces ≡ true
      → length (flatten pieces) < 2 ^ 63
      → length (flatten pieces) ≤ count
      → count < 2 ^ 31
      → 3 * length pieces + 3 ≤ fuel
      → parse_loop string_writer_methods fuel (
          state count before
            (chunks pieces rest)
            (chunking chunk_len code headers left read)
            storage)
        ≡ returned (
          chunking complete code headers (pos 0) (read + length (flatten pieces)),
          holding (storage ++ flatten pieces),
        )
  parse_chunks [] (suc (suc (suc fuel))) count read left before rest storage hp hl hc hs hf =
      last_chunk fuel count read left before rest storage
      ∙ ap (λ (p : ℕ × Bytes). returned (chunking complete code headers (pos 0) p.0, holding p.1))
          (rw (append-nil storage) (ap (λ n. (n, storage)) (omega arith)))
  parse_chunks (piece ∷ pieces) (suc (suc (suc fuel))) count read left before rest storage hp hl hc
        hs hf =
      let len = length-append piece (flatten pieces) in
      let (before', e) =
        one_chunk fuel count read left before piece (chunks pieces rest) storage (ground arith)
          (omega (arith, len)) (omega (arith, len)) hs in
      e
      ∙ parse_chunks pieces fuel (count - length piece) (read + length piece) (pos 0) before' rest
          (storage ++ piece) (ground arith) (omega (arith, len)) (omega (arith, len)) (omega arith)
          (omega arith)
      ∙ ap (λ (p : ℕ × Bytes). returned (chunking complete code headers (pos 0) p.0, holding p.1))
          (rw (append_assoc storage piece (flatten pieces))
            (ap (λ n. (n, storage ++ (piece ++ flatten pieces))) (omega (arith, len))))
  parse_chunks pieces zero count read left before rest storage hp hl hc hs hf = absurd (omega arith)
  parse_chunks pieces (suc zero) count read left before rest storage hp hl hc hs hf =
      absurd (omega arith)
  parse_chunks pieces (suc (suc zero)) count read left before rest storage hp hl hc hs hf =
      absurd (omega arith)
