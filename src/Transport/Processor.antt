-- ===== src/Transport/Processor.antt =====
-- SimpleHttpProcessor of kwctoolkit/transport/simple_http_transaction.cc: the parser of responses.
-- The received data is an argument: Transport.Socket models how it arrives. KWC_CHECK only logs, in
-- every build, so it has no part here. An iterator into the data is the pair of what stands before it
-- and what is left; a move or a read outside the data is `thrown`.
mod Lines
pub mod Rounds
pub mod Pieces
pub mod Chunks
pub mod Bodies
unfoldable pub use Lines.*
use kwctoolkit.Prelude.{
  ℕ, zero, suc, ◌+◌, ◌-◌, ◌≤◌, Bool, true, false, not, ◌&&◌, ◌||◌, Option, none, some, [], ◌∷◌,
  ◌++◌, leb, ltb, ◌==◌, if◌then◌else◌, is_empty, Bytes, codes, length, take, drop, find_char, ℤ,
  pos, negsuc, ◌+ℤ◌, ◌-ℤ◌, ltb_ℤ, to_int, Outcome, returned, thrown, exhausted, or_thrown, ◌>>=◌,
}
use kwctoolkit.Base.Numbers.{atoi, strtol}
use kwctoolkit.Strings.Trim.{trim_string, trim_all}
use kwctoolkit.Strings.Ascii.{starts_with}
use kwctoolkit.Serialization.Writer.{Writer, WriterMethods, min_ℤ, write_data, write_negative}
use kwctoolkit.Serialization.Reader.{is_zero}
use kwctoolkit.Transport.Response.{HttpHeaderMap, add_header, find_header_value}

-- The inner loop: whether a line ended, the line without carriage returns, what stands before the
-- iterator, and what is left.
unfoldable pub read_line : Bytes → Bytes → Bytes → Bool × Bytes × Bytes × Bytes
read_line line before [] = (false, line, before, [])
read_line line before (c ∷ rest) = elim (c == b'\n') [
  | true ↦ (true, line, before ++ c ∷ [], rest)
  | false ↦ read_line (if c == b'\r' then line else line ++ c ∷ []) (before ++ c ∷ []) rest
]

-- it += n
unfoldable pub move : ℤ → Bytes → Bytes → Option (Bytes × Bytes)
move (pos n) before rest =
    if leb n (length rest) then some (before ++ take n rest, drop n rest) else none
move (negsuc n) before rest =
    if leb (suc n) (length before)
    then some (take (length before - suc n) before, drop (length before - suc n) before ++ rest)
    else none

-- The parameter `count` and the variable `n` of the two functions on data are ints, which a size_t
-- and an int64 are converted to.
module _ {W R : Type 0} (m : WriterMethods W R) where
  -- writeData(n, &*data)
  unfoldable pub write_from : ℤ → Bytes → Writer W → Outcome (Writer W)
  unfolding write_data write_negative
  write_from (pos n) rest w =
      if leb n (length rest) then returned (write_data m (take n rest) w).1 else thrown
  write_from (negsuc n) rest w = returned (write_negative m w).1

  unfoldable pub process_data_chunked :
      ℤ → Bytes → Processor → Writer W → Outcome (ℤ × Processor × Writer W)
  unfolding write_from
  process_data_chunked count rest p w = do
    let n = to_int (min_ℤ (to_int count) p.chunk_bytes_left)
    w' ← write_from n rest w
    let left = p.chunk_bytes_left -ℤ n
    returned (
      n,
      record p {
        chunk_bytes_read = p.chunk_bytes_read +ℤ n;
        chunk_bytes_left = left;
        response_state = if is_zero left then chunk_end else p.response_state;
      },
      w',
    )

  abbrev pub has_length : ℤ → Bool
  has_length (negsuc zero) = false
  has_length length = true

  unfoldable pub process_data_non_chunked :
      ℤ → Bytes → Processor → Writer W → Outcome (ℤ × Processor × Writer W)
  unfolding write_from
  process_data_non_chunked count rest p w = do
    let n =
        if has_length p.chunk_length
        then to_int (min_ℤ (to_int count) (p.chunk_length -ℤ p.chunk_bytes_read))
        else to_int count
    w' ← write_from n rest w
    let read = p.chunk_bytes_read +ℤ n
    let done = has_length p.chunk_length && is_zero (read -ℤ p.chunk_length)
    returned (
      n,
      record p {
        chunk_bytes_read = read;
        response_state = if done then complete else p.response_state;
      },
      w',
    )

  abbrev pub process_data : ℤ → Bytes → Processor → Writer W → Outcome (ℤ × Processor × Writer W)
  process_data count rest p w =
      if p.chunked_response
      then process_data_chunked count rest p w
      else process_data_non_chunked count rest p w

  abbrev pub is_complete : HttpResponseState → Bool
  is_complete complete = true
  is_complete state = false

  -- One round of the outer loop: the line buffer, the count, the data before and behind the
  -- iterator, the processor and the writer.
  pub record Parse : Type 0 where
    pub line_buffer : Bytes
    pub count : ℤ
    pub before : Bytes
    pub rest : Bytes
    pub processor : Processor
    pub writer : Writer W

  unfoldable pub line_round : Parse → Outcome Parse
  unfolding read_line
  line_round s =
      let (ended, line, before, rest) = read_line s.line_buffer s.before s.rest in
      if ended
      then (do
        p ← process_line line s.processor
        returned (record s { line_buffer = []; before = before; rest = rest; processor = p }))
      else returned (record s { line_buffer = line; before = before; rest = rest })

  unfoldable pub body_round : Parse → Outcome Parse
  unfolding process_data_chunked process_data_non_chunked move
  body_round s = do
    (used, p, w) ← process_data s.count s.rest s.processor s.writer
    (before, rest) ← or_thrown (move used s.before s.rest)
    returned (record s {
      count = s.count -ℤ used;
      before = before;
      rest = rest;
      processor = p;
      writer = w;
    })

  unfoldable pub parse_loop : ℕ → Parse → Outcome (Processor × Writer W)
  unfolding line_round body_round
  parse_loop zero s = exhausted
  parse_loop (suc fuel) s =
      elim (not (is_empty s.rest) && not (is_complete s.processor.response_state)) [
        | false ↦ returned (s.processor, s.writer)
        | true ↦ elim (accumulate_header_line s.processor.response_state) [
          | true ↦ do s' ← line_round s; parse_loop fuel s'
          | false ↦ do s' ← body_round s; parse_loop fuel s'
        ]
      ]

  -- parseResponse on the received data. `fuel` bounds the rounds of the outer loop.
  unfoldable pub parse_response : ℕ → Bytes → Processor → Writer W → Outcome (Processor × Writer W)
  unfolding parse_loop
  parse_response fuel received p w = parse_loop fuel (record {
    line_buffer = [];
    count = pos (length received);
    before = [];
    rest = received;
    processor = p;
    writer = w;
  })
