-- ===== src/Transport/Processor/Bodies.antt =====
-- Whole responses.
use kwctoolkit.Prelude.{
  ℕ, zero, suc, ◌+◌, ◌*◌, ◌^◌, ◌≤◌, ◌<◌, ◌≡◌, refl, ap, ◌∙◌, not, ◌&&◌, is_empty, Bool, true, false,
  arith, List, [], ◌∷◌, ◌++◌, length, length-append, Bytes, codes, pos, negsuc, returned,
}
use kwctoolkit.Base.Numbers.{
  atoi, strtol, scan_number, skip_space, take_sign, skip_prefix, read_digits,
}
use kwctoolkit.Base.Numbers.Spelling.{spell}
use kwctoolkit.Serialization.Writer.{Writer}
use kwctoolkit.Transport.Processor.Rounds.{is_plain, read_line-crlf, parse_line, parse_end}
use kwctoolkit.Serialization.StringWriter.{string_writer_methods}
use kwctoolkit.Serialization.StringWriter.Laws.{holding, flatten}
use kwctoolkit.Prelude.{bytes_eq, one_of, substr, find_char}
use kwctoolkit.Strings.Trim.{trim_string, find_first_not_of, find_last_not_of}
use kwctoolkit.Strings.Ascii.{to_lower_ascii, to_lower_char, starts_with}
use kwctoolkit.Transport.Response.{
  HttpHeaderMap, add_header, insert_header, find_header, find_header_value,
}
use kwctoolkit.Transport.Processor.{
  headers, chunk_len, complete, is_complete, process_line, Processor, new_processor, next_response,
  parse_loop, parse_response, line_round, process_line_in, process_status_line, process_header_line,
  begin_body, begin_chunks, begin_length, skip_spaces, split_word,
}
use kwctoolkit.Transport.Processor.Pieces.{chunking, state}
use kwctoolkit.Transport.Processor.Chunks.{chunks, none_empty, parse_chunks}

length-chunks :
    (pieces : List Bytes) (rest : Bytes) → length (flatten pieces) ≤ length (chunks pieces rest)
length-chunks [] rest = omega arith
length-chunks (piece ∷ pieces) rest = omega (
  arith,
  length-chunks pieces rest,
  length-append piece (flatten pieces),
  length-append (spell 16 (suc (length piece)) (length piece) [])
      (13 ∷ 10 ∷ (piece ++ 13 ∷ 10 ∷ chunks pieces rest)),
  length-append piece (13 ∷ 10 ∷ chunks pieces rest),
)

abbrev pub chunked_headers : HttpHeaderMap
chunked_headers = (codes "transfer-encoding", codes "chunked") ∷ []

-- A response with the code 200, some reason phrase, and one header.
abbrev pub chunked_response : Bytes → Bytes → Bytes
chunked_response reason rest =
    codes "HTTP/1.1 200 " ++ (reason ++ (codes "\r\nTransfer-encoding: chunked\r\n\r\n" ++ rest))

line_round-crlf :
    (count : ℕ) (before text rest storage : Bytes) (p p' : Processor)
    → is_plain text ≡ true
    → process_line text p ≡ returned p'
    → line_round string_writer_methods (state count before (text ++ b'\r' ∷ b'\n' ∷ rest) p storage)
      ≡ returned (state count (before ++ (text ++ b'\r' ∷ b'\n' ∷ [])) rest p' storage)
unfolding line_round
line_round-crlf count before text rest storage p p' h e =
    rw (read_line-crlf [] before text rest h) (rw (e) refl)

-- The processor after the status line, and after the header.
abbrev after_status : Processor
after_status = record new_processor { http_code = pos 200; response_state = headers }

abbrev after_header : Processor
after_header = record after_status { response_headers = chunked_headers }

read_status :
    (reason : Bytes)
    → process_line (codes "HTTP/1.1 200 " ++ reason) new_processor ≡ returned after_status
unfolding process_line_in process_status_line skip_spaces split_word atoi strtol scan_number
    skip_space take_sign skip_prefix read_digits
read_status reason = refl

read_header : process_line (codes "Transfer-encoding: chunked") after_status ≡ returned after_header
unfolding process_line_in process_header_line trim_string find_first_not_of find_last_not_of substr
    find_char add_header insert_header find_header bytes_eq one_of
read_header = refl

read_blank :
    process_line [] after_header
    ≡ returned (chunking chunk_len (pos 200) chunked_headers (negsuc 0) 0)
unfolding process_line_in process_header_line begin_body begin_chunks begin_length find_header
    find_header_value bytes_eq to_lower_ascii to_lower_char starts_with
read_blank = refl

-- The three lines of the head.
head_rounds :
    (fuel : ℕ) (reason rest storage : Bytes)
    → is_plain reason ≡ true
    → (before : Bytes) × (parse_response string_writer_methods
          (suc (suc (suc fuel)))
          (chunked_response reason rest)
          new_processor
          (holding storage)
        ≡ parse_loop string_writer_methods fuel (
            state
              (length (chunked_response reason rest))
              before
              rest
              (chunking chunk_len (pos 200) chunked_headers (negsuc 0) 0)
              storage))
unfolding parse_response
head_rounds fuel reason rest storage h =
    let count = length (chunked_response reason rest) in
    let status = codes "HTTP/1.1 200 " ++ reason in
    let header = codes "Transfer-encoding: chunked" in
    let before1 = [] ++ (status ++ b'\r' ∷ b'\n' ∷ []) in
    let before2 = before1 ++ (header ++ b'\r' ∷ b'\n' ∷ []) in
    let before3 = before2 ++ (b'\r' ∷ b'\n' ∷ []) in
    let rest2 = b'\r' ∷ b'\n' ∷ rest in
    let rest1 = header ++ b'\r' ∷ b'\n' ∷ rest2 in
    let p3 = chunking chunk_len (pos 200) chunked_headers (negsuc 0) 0 in
    let s0 = state count [] (chunked_response reason rest) new_processor storage in
    let s1 = state count before1 rest1 after_status storage in
    let s2 = state count before2 rest2 after_header storage in
    let s3 = state count before3 rest p3 storage in
    (
      before3,
      parse_line string_writer_methods (suc (suc fuel)) s0 s1 refl refl (
            line_round-crlf count [] status rest1 storage new_processor after_status h
              (read_status reason))
          ∙ parse_line string_writer_methods (suc fuel) s1 s2 refl refl (
              line_round-crlf count before1 header rest2 storage after_status after_header refl
                read_header)
          ∙ parse_line string_writer_methods fuel s2 s3 refl refl
              (line_round-crlf count before2 [] rest storage after_header p3 refl read_blank),
    )

-- A response with the status line "HTTP/1.1 200 " and a reason phrase without line ends, the single
-- header "Transfer-encoding: chunked", and a body in chunks that are not empty, each with its
-- length in hexadecimal and no extension, received as a whole of less than 2^31 bytes by a new
-- processor, is parsed to its end: nothing is thrown, the processor is complete with the code 200
-- and that header, and a string writer that has begun has got exactly the bytes of the chunks in
-- order, and nothing of what follows the end of the body. Three rounds for each chunk and six more
-- are enough.
pub parse_response-chunks :
    (pieces : List Bytes) (fuel : ℕ) (reason rest storage : Bytes)
    → is_plain reason ≡ true
    → none_empty pieces ≡ true
    → length (chunked_response reason (chunks pieces rest)) < 2 ^ 31
    → 3 * length pieces + 6 ≤ fuel
    → parse_response string_writer_methods fuel
        (chunked_response reason (chunks pieces rest))
        new_processor
        (holding storage)
      ≡ returned (
        chunking complete (pos 200) chunked_headers (pos 0) (length (flatten pieces)),
        holding (storage ++ flatten pieces),
      )
parse_response-chunks pieces (suc (suc (suc fuel))) reason rest storage hr hp hl hf =
    let body = chunks pieces rest in
    let count = length (chunked_response reason body) in
    let fits : length (flatten pieces) ≤ count = omega (
      arith,
      length-chunks pieces rest,
      length-append reason (codes "\r\nTransfer-encoding: chunked\r\n\r\n" ++ body),
    ) in
    let (before, e) = head_rounds fuel reason body storage hr in
    e
    ∙ parse_chunks (pos 200) chunked_headers pieces fuel count 0 (negsuc 0) before rest storage hp
        (omega (arith, fits, hl)) fits hl (omega arith)
    ∙ ap
        (λ n. returned (
          chunking complete (pos 200) chunked_headers (pos 0) n,
          holding (storage ++ flatten pieces),
        ))
        (omega arith)
parse_response-chunks pieces zero reason rest storage hr hp hl hf = absurd (omega arith)
parse_response-chunks pieces (suc zero) reason rest storage hr hp hl hf = absurd (omega arith)
parse_response-chunks pieces (suc (suc zero)) reason rest storage hr hp hl hf = absurd (omega arith)

-- A complete processor parses nothing.
pub parse_response-again :
    (p : Processor) (fuel : ℕ) (received : Bytes) (w : Writer Bytes)
    → p.response_state ≡ complete
    → parse_response string_writer_methods (suc fuel) received (next_response p) w
      ≡ returned (record p { http_code = pos 0; response_headers = [] }, w)
unfolding parse_response
parse_response-again p fuel received w h =
    let e : (not (is_empty received) && not (is_complete string_writer_methods p.response_state))
        ≡ false =
      rw (h) (stop (is_empty received)) in
    parse_end string_writer_methods fuel
      (record {
        line_buffer = [];
        count = pos (length received);
        before = [];
        rest = received;
        processor = next_response p;
        writer = w;
      })
      e
  where
    stop : (b : Bool) → (not b && false) ≡ false
    stop true = refl
    stop false = refl
