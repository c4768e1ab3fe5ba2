-- ===== src/Transport/Processor/Pieces.antt =====
-- Single rounds of the parser within a body in chunks.
use kwctoolkit.Prelude.{
  ℕ, suc, ◌+◌, ◌-◌, ◌^◌, ◌≤◌, ◌<◌, ◌≡◌, refl, ap, inl, inr, true, false, arith, Bool-cases, [], ◌∷◌,
  ◌++◌, append_assoc, ◌==◌, ltb, leb, length, take-append_length, drop-append_length, length-append,
  lt→ltb, Bytes, ℤ, pos, negsuc, sub_ℕ, to_int, returned, some,
}
use kwctoolkit.Base.Numbers.{strtol}
use kwctoolkit.Base.Numbers.Spelling.{spell, scan_number-spell}
use kwctoolkit.Base.Numbers.Digits.{spell-above, all_above}
use kwctoolkit.Serialization.Writer.{min_ℤ}
use kwctoolkit.Serialization.StringWriter.{string_writer_methods}
use kwctoolkit.Serialization.StringWriter.Laws.{holding, write_data-holding}
use kwctoolkit.Transport.Response.{HttpHeaderMap}
use kwctoolkit.Transport.Processor.{
  HttpResponseState, body, chunk_len, chunk_end, Processor, Parse, read_line, line_round,
  body_round, process_chunk_length_line, process_line_in, move, write_from, process_data_chunked,
}
use kwctoolkit.Transport.Processor.Rounds.{is_plain, read_line-crlf}

-- A processor within a body in chunks.
abbrev pub chunking : HttpResponseState → ℤ → HttpHeaderMap → ℤ → ℕ → Processor
chunking state code headers left read = record {
  response_state = state;
  http_code = code;
  chunked_response = true;
  chunk_bytes_left = left;
  chunk_bytes_read = pos read;
  chunk_length = negsuc 0;
  response_headers = headers;
}

above-plain : (text : Bytes) → all_above 47 text ≡ true → is_plain text ≡ true
above-plain [] h = refl
above-plain (c ∷ text) h = rw (above-plain text (ground arith)) (ground arith)

strtol-spell : (n : ℕ) → n < 2 ^ 63 → (strtol 16 (spell 16 (suc n) n [])).0 ≡ pos n
unfolding strtol
strtol-spell n h =
    rw (scan_number-spell 16 n [] (omega arith) (omega arith) refl refl, lt→ltb n (2 ^ 63) h) refl

min_ℤ-le : (n count : ℕ) → n ≤ count → min_ℤ (pos count) (pos n) ≡ pos n
min_ℤ-le n count h = elim (Bool-cases (ltb n count)) [
  | inl e ↦ rw (e) refl
  | inr e ↦ rw (e) (ap pos (ground arith))
]

-- What fits an int is kept.
to_int-small : (n : ℕ) → n < 2 ^ 31 → to_int (pos n) ≡ pos n
to_int-small n h = ground arith

sub_ℕ-le : (a b : ℕ) → b ≤ a → sub_ℕ a b ≡ pos (a - b)
sub_ℕ-le a b h = let e : leb b a ≡ true = ground arith in rw (e) refl

-- Writing and passing over the piece that comes next.
write_from-piece :
    (piece rest storage : Bytes)
    → write_from string_writer_methods (pos (length piece)) (piece ++ rest) (holding storage)
      ≡ returned (holding (storage ++ piece))
unfolding write_from
write_from-piece piece rest storage =
    let e : leb (length piece) (length (piece ++ rest)) ≡ true =
      rw (length-append piece rest) (ground arith) in
    rw (e, take-append_length piece rest, write_data-holding piece storage) refl

move-piece :
    (before piece rest : Bytes)
    → move (pos (length piece)) before (piece ++ rest) ≡ some (before ++ piece, rest)
unfolding move
move-piece before piece rest =
    let e : leb (length piece) (length (piece ++ rest)) ≡ true =
      rw (length-append piece rest) (ground arith) in
    rw (e, take-append_length piece rest, drop-append_length piece rest) refl

-- The parser in front of `rest`, with a string writer.
abbrev pub state : ℕ → Bytes → Bytes → Processor → Bytes → Parse string_writer_methods
state count before rest p storage = record {
  line_buffer = [];
  count = pos count;
  before = before;
  rest = rest;
  processor = p;
  writer = holding storage;
}

module _ (code : ℤ) (headers : HttpHeaderMap) where
  pub length_round :
      (count read n : ℕ) (left : ℤ) (before rest storage : Bytes)
      → 0 < n
      → n < 2 ^ 63
      → line_round string_writer_methods (
          state count before
            (spell 16 (suc n) n [] ++ b'\r' ∷ b'\n' ∷ rest)
            (chunking chunk_len code headers left read)
            storage)
        ≡ returned (
            state count
              (before ++ (spell 16 (suc n) n [] ++ b'\r' ∷ b'\n' ∷ []))
              rest
              (chunking body code headers (pos n) read)
              storage)
  unfolding line_round process_line_in process_chunk_length_line
  length_round count read n left before rest storage g h =
      let z : (n == 0) ≡ false = ground arith in
      rw
        (read_line-crlf [] before (spell 16 (suc n) n []) rest (
          above-plain (spell 16 (suc n) n [])
            (spell-above 16 (suc n) n [] (omega arith) (omega arith) refl)))
        (rw (strtol-spell n h, z) refl)

  pub end_round :
      (count read : ℕ) (left : ℤ) (before rest storage : Bytes)
      → line_round string_writer_methods (
          state count before
            (b'\r' ∷ b'\n' ∷ rest)
            (chunking chunk_end code headers left read)
            storage)
        ≡ returned (
            state count
              (before ++ (b'\r' ∷ b'\n' ∷ []))
              rest
              (chunking chunk_len code headers left read)
              storage)
  unfolding line_round process_line_in read_line
  end_round count read left before rest storage =
      rw (append_assoc before (b'\r' ∷ []) (b'\n' ∷ [])) refl

  pub piece_round :
      (count read : ℕ) (before piece rest storage : Bytes)
      → length piece ≤ count
      → count < 2 ^ 31
      → body_round string_writer_methods (
          state count before
            (piece ++ rest)
            (chunking body code headers (pos (length piece)) read)
            storage)
        ≡ returned (
            state
              (count - length piece)
              (before ++ piece)
              rest
              (chunking chunk_end code headers (pos 0) (read + length piece))
              (storage ++ piece))
  unfolding body_round process_data_chunked
  piece_round count read before piece rest storage h small =
      let e : length piece - length piece ≡ 0 = omega arith in
      rw
        (
          to_int-small count small,
          min_ℤ-le (length piece) count h,
          to_int-small (length piece) (omega arith),
          write_from-piece piece rest storage,
          sub_ℕ-le (length piece) (length piece) (omega arith),
          e,
        )
        (rw (move-piece before piece rest, sub_ℕ-le count (length piece) h) refl)
