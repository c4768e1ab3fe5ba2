-- ===== src/Transport/Response.antt =====
-- HttpResponse of kwctoolkit/transport/http_response.h and http_response.cc: headers and body. The
-- map of headers is an association list; the order of its keys is not modelled. tolower is that of
-- the "C" locale.
pub mod Headers
pub mod Body
use kwctoolkit.Prelude.{
  ℕ, Bool, true, false, not, ◌&&◌, Option, none, some, List, [], ◌∷◌, ◌==◌, if◌then◌else◌, Bytes,
  bytes_eq, ℤ, pos, negsuc, Outcome, returned, ◌>>=◌,
}
use kwctoolkit.Strings.Ascii.{to_lower_ascii}
use kwctoolkit.Base.Status.{Status}
use kwctoolkit.Serialization.Reader.{Reader, Methods, read_remaining_to_string, reset}

abbrev pub HttpHeaderMap : Type 0
HttpHeaderMap = List (Bytes × Bytes)

-- headers_.find(name)
unfoldable pub find_header : Bytes → HttpHeaderMap → Option Bytes
unfolding bytes_eq
find_header name [] = none
find_header name ((n, v) ∷ rest) = if bytes_eq name n then some v else find_header name rest

-- headers_.insert, which keeps an entry that is there.
unfoldable pub insert_header : Bytes → Bytes → HttpHeaderMap → HttpHeaderMap
unfolding find_header
insert_header name value headers = elim (find_header name headers) [
  | none ↦ (name, value) ∷ headers
  | some v ↦ headers
]

unfoldable pub add_header : Bytes → Bytes → HttpHeaderMap → HttpHeaderMap
unfolding insert_header to_lower_ascii
add_header name value headers = insert_header (to_lower_ascii name) value headers

unfoldable pub find_header_value : Bytes → HttpHeaderMap → Option Bytes
unfolding find_header to_lower_ascii
find_header_value name headers = find_header (to_lower_ascii name) headers

abbrev pub at_front : ℤ → Bool
at_front (pos n) = n == 0
at_front (negsuc n) = false

module _ {D : Type 0} (m : Methods D) (fuel : ℕ) where
  -- getBody behind the first reset: the status, the body and the reader.
  unfoldable pub read_body : Reader D → Outcome (Status × Bytes × Reader D)
  unfolding read_remaining_to_string reset
  read_body r = do
    (body, r') ← read_remaining_to_string m fuel r
    returned (r'.status, body, (reset m r').1)

  -- The body stays empty if the reader is not at the front and cannot go there.
  unfoldable pub get_body : Reader D → Outcome (Status × Bytes × Reader D)
  unfolding read_body
  get_body r =
      if at_front r.offset
      then read_body r
      else let (back, r') = reset m r in if back then read_body r' else returned (r'.status, [], r')
