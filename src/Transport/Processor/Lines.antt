-- ===== src/Transport/Processor/Lines.antt =====
-- The state of SimpleHttpProcessor in kwctoolkit/transport/simple_http_transaction.cc, and what a
-- line of a response does to it: the status line, a header, a footer or the length of a chunk.
use kwctoolkit.Prelude.{
  ℕ, ◌+◌, Bool, true, false, ◌&&◌, ◌||◌, Option, none, some, [], ◌∷◌, leb, ltb, ◌==◌, if◌then◌else◌,
  is_empty, Bytes, codes, take, drop, find_char, ℤ, pos, negsuc, Outcome, returned, or_thrown,
  ◌>>=◌,
}
use kwctoolkit.Base.Numbers.{atoi, strtol}
use kwctoolkit.Strings.Trim.{trim_string, trim_all}
use kwctoolkit.Strings.Ascii.{starts_with}
use kwctoolkit.Serialization.Reader.{is_zero}
use kwctoolkit.Transport.Response.{HttpHeaderMap, add_header, find_header_value}

pub data HttpResponseState : Type 0 where
  status_line headers body chunk_len chunk_end footers complete : HttpResponseState

pub record Processor : Type 0 where
  pub response_state : HttpResponseState
  pub http_code : ℤ
  pub chunked_response : Bool
  pub chunk_bytes_left : ℤ
  pub chunk_bytes_read : ℤ
  pub chunk_length : ℤ
  pub response_headers : HttpHeaderMap

-- SimpleHttpProcessor(transport), and the headers of a new response.
abbrev pub new_processor : Processor
new_processor = record {
  response_state = status_line;
  http_code = pos 0;
  chunked_response = false;
  chunk_bytes_left = pos 0;
  chunk_bytes_read = pos 0;
  chunk_length = negsuc 0;
  response_headers = [];
}

-- performRequest for the next response: nothing but the code is reset.
abbrev pub next_response : Processor → Processor
next_response p = record p { http_code = pos 0; response_headers = [] }

abbrev pub accumulate_header_line : HttpResponseState → Bool
accumulate_header_line body = false
accumulate_header_line complete = false
accumulate_header_line state = true

-- Skipping spaces, and a word up to a space or a NUL, which also stands at the end of a string.
unfoldable pub skip_spaces : Bytes → Bytes
skip_spaces [] = []
skip_spaces (c ∷ cs) = if c == b' ' then skip_spaces cs else c ∷ cs

unfoldable pub split_word : Bytes → Bytes × Bytes
split_word [] = ([], [])
split_word (c ∷ cs) =
    let (word, rest) = split_word cs in
    if c == b' ' || c == 0 then ([], c ∷ cs) else (c ∷ word, rest)

unfoldable pub process_status_line : Bytes → Processor → Processor
unfolding skip_spaces split_word atoi
process_status_line line p =
    let (version, rest) = split_word (skip_spaces line) in
    let (status, reason) = split_word (skip_spaces rest) in
    record p { http_code = atoi status; response_state = headers }

abbrev code_is : ℤ → ℕ → Bool
code_is (pos n) m = n == m
code_is (negsuc n) m = false

-- HttpStatusCode::isInformational
abbrev pub is_informational : ℤ → Bool
is_informational (pos n) = leb 100 n && ltb n 200
is_informational (negsuc n) = false

abbrev pub has_no_body : ℤ → Bool
has_no_body code = code_is code 204 || (code_is code 304 || is_informational code)

abbrev pub is_chunked : Option Bytes → Bool
is_chunked none = false
is_chunked (some value) = starts_with value (codes "chunked") false

-- The three steps of beginBody.
unfoldable pub begin_chunks : Processor → Processor
begin_chunks p =
    if is_chunked (find_header_value (codes "Transfer-encoding") p.response_headers)
    then record p { chunked_response = true; chunk_bytes_left = negsuc 0 }
    else p

abbrev pub set_length : Option Bytes → Processor → Processor
set_length none p = p
set_length (some value) p = if p.chunked_response then p else record p { chunk_length = atoi value }

unfoldable pub begin_length : Processor → Processor
begin_length p = set_length (find_header_value (codes "Content-Length") p.response_headers) p

unfoldable pub begin_body : Processor → Processor
unfolding begin_chunks begin_length
begin_body p =
    let p1 = begin_length (begin_chunks p) in
    let p2 = if has_no_body p1.http_code then record p1 { chunk_length = pos 0 } else p1 in
    record p2 { response_state = if p2.chunked_response then chunk_len else body }

-- A header line without a colon: find gives npos, npos + 1 is 0, and so the whole line is both
-- the name and the value.
unfoldable pub process_header_line : Bytes → Processor → Outcome Processor
unfolding begin_body find_char
process_header_line [] p =
    returned
      (if code_is p.http_code 100 then record p { response_state = status_line } else begin_body p)
process_header_line (c ∷ line) p = elim (find_char (c ∷ line) b':') [
  | none ↦ do
    value ← or_thrown (trim_string (c ∷ line) (codes " ") trim_all)
    returned (record p { response_headers = add_header (c ∷ line) value p.response_headers })
  | some colon ↦ do
    value ← or_thrown (trim_string (drop (colon + 1) (c ∷ line)) (codes " ") trim_all)
    returned (record p {
      response_headers = add_header (take colon (c ∷ line)) value p.response_headers;
    })
]

abbrev pub process_footer_line : Bytes → Processor → Processor
process_footer_line line p = if is_empty line then record p { response_state = complete } else p

unfoldable pub process_chunk_length_line : Bytes → Processor → Processor
unfolding strtol
process_chunk_length_line line p =
    let left = (strtol 16 line).0 in
    record p { chunk_bytes_left = left; response_state = if is_zero left then footers else body }

-- What a whole line does, by the state that it came in.
unfoldable pub process_line_in : HttpResponseState → Bytes → Processor → Outcome Processor
unfolding process_status_line process_header_line process_chunk_length_line
process_line_in status_line line p = returned (process_status_line line p)
process_line_in headers line p = process_header_line line p
process_line_in footers line p = returned (process_footer_line line p)
process_line_in chunk_len line p = returned (process_chunk_length_line line p)
process_line_in chunk_end line p = returned (record p { response_state = chunk_len })
process_line_in body line p = returned p
process_line_in complete line p = returned p

abbrev pub process_line : Bytes → Processor → Outcome Processor
process_line line p = process_line_in p.response_state line p
