-- ===== src/Transport/Processor/Rounds.antt =====
-- Single rounds of the parser, and the lines that it reads.
use kwctoolkit.Prelude.{
  ℕ, suc, ◌≡◌, refl, ap, ◌∙◌, Bool, true, false, not, ◌&&◌, arith, [], ◌∷◌, ◌++◌, append_assoc,
  append-nil, ◌==◌, is_empty, Bytes, returned,
}
use kwctoolkit.Serialization.Writer.{WriterMethods}
use kwctoolkit.Transport.Processor.{
  Parse, accumulate_header_line, is_complete, read_line, line_round, body_round, parse_loop,
}

-- A text without the characters that end a line.
abbrev pub is_plain : Bytes → Bool
is_plain [] = true
is_plain (c ∷ cs) = not (c == b'\n') && not (c == b'\r') && is_plain cs

-- A plain text up to a CRLF is read as a line.
pub read_line-crlf :
    (line before text rest : Bytes)
    → is_plain text ≡ true
    → read_line line before (text ++ b'\r' ∷ b'\n' ∷ rest)
      ≡ (true, line ++ text, before ++ (text ++ b'\r' ∷ b'\n' ∷ []), rest)
unfolding read_line
read_line-crlf line before [] rest h =
    rw (append-nil line, append_assoc before (b'\r' ∷ []) (b'\n' ∷ [])) refl
read_line-crlf line before (c ∷ text) rest h =
    rw (a, read_line)
      (rw (b) (
        read_line-crlf (line ++ c ∷ []) (before ++ c ∷ []) text rest (ground arith)
        ∙ ap (λ l. (true, l, before ++ c ∷ [] ++ (text ++ b'\r' ∷ b'\n' ∷ []), rest))
            (append_assoc line (c ∷ []) text)
        ∙ ap (λ l. (true, line ++ c ∷ text, l, rest))
            (append_assoc before (c ∷ []) (text ++ b'\r' ∷ b'\n' ∷ []))))
  where
    a : (c == b'\n') ≡ false
    a = ground arith

    b : (c == b'\r') ≡ false
    b = ground arith

module _ {W R : Type 0} (m : WriterMethods W R) (fuel : ℕ) (s : Parse m) where
  pub parse_end :
      (not (is_empty s.rest) && not (is_complete m s.processor.response_state)) ≡ false
      → parse_loop m (suc fuel) s ≡ returned (s.processor, s.writer)
  unfolding parse_loop
  parse_end h = rw (h, parse_loop) refl

  pub parse_line :
      (s' : Parse m)
      → (not (is_empty s.rest) && not (is_complete m s.processor.response_state)) ≡ true
      → accumulate_header_line s.processor.response_state ≡ true
      → line_round m s ≡ returned s'
      → parse_loop m (suc fuel) s ≡ parse_loop m fuel s'
  unfolding parse_loop
  parse_line s' h g e = rw (h, parse_loop) (rw (g) (rw (e) refl))

  pub parse_body :
      (s' : Parse m)
      → (not (is_empty s.rest) && not (is_complete m s.processor.response_state)) ≡ true
      → accumulate_header_line s.processor.response_state ≡ false
      → body_round m s ≡ returned s'
      → parse_loop m (suc fuel) s ≡ parse_loop m fuel s'
  unfolding parse_loop
  parse_body s' h g e = rw (h, parse_loop) (rw (g) (rw (e) refl))
