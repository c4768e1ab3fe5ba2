-- ===== src/Transport/Transaction.antt =====
-- SimpleHttpTransaction and SimpleHttpRequest of kwctoolkit/transport/simple_http_transaction.cc, and
-- the headers of a request in http_request.cc. What the socket delivers is an argument; locks are
-- left out, since each call is modelled on its own.
pub mod Reuse
use kwctoolkit.Prelude.{
  ℕ, Bool, true, false, not, ◌&&◌, Option, none, some, List, [], ◌∷◌, ◌++◌, if◌then◌else◌, Bytes,
  codes, bytes_eq, leb, ltb, ◌==◌, Outcome, returned, ◌>>=◌,
}
use kwctoolkit.Serialization.Writer.{Writer, WriterMethods}
use kwctoolkit.Transport.Response.{HttpHeaderMap, find_header}
use kwctoolkit.Transport.Processor.{Processor, new_processor, next_response, parse_response}

-- prepareRequestOptions
unfoldable pub prepare_request_options : Bytes → Bytes → Bytes → Bytes
prepare_request_options http_method url host =
    http_method
    ++ codes " "
    ++ url
    ++ codes " HTTP/1.1"
    ++ codes "\r\n"
    ++ codes "Host: "
    ++ host
    ++ codes "\r\n"
    ++ codes "Accept-Encoding: identify"
    ++ codes "\r\n"
    ++ codes "\r\n"

-- The processors that are free, the last of which is taken first.
unfoldable pub acquire_processor : List Processor → Processor × List Processor
acquire_processor [] = (new_processor, [])
acquire_processor (p ∷ []) = (p, [])
acquire_processor (p ∷ q ∷ processors) =
    let (last, rest) = acquire_processor (q ∷ processors) in (last, p ∷ rest)

abbrev pub release_processor : Processor → List Processor → List Processor
release_processor p processors = processors ++ p ∷ []

-- doExecute, up to the code and the headers, which the processor carries.
module _ {W R : Type 0} (m : WriterMethods W R) where
  unfoldable pub do_execute :
      ℕ → Bytes → List Processor → Writer W → Outcome (Processor × List Processor × Writer W)
  unfolding acquire_processor parse_response
  do_execute fuel received processors w = do
    let (acquired, others) = acquire_processor processors
    (p, w') ← parse_response m fuel received (next_response acquired) w
    returned (p, release_processor p others, w')

-- http_headers_[name] = value, http_headers_.erase(name) and findHeaderValue of a request.
unfoldable pub put_request_header : Bytes → Bytes → HttpHeaderMap → HttpHeaderMap
unfolding bytes_eq
put_request_header name value [] = (name, value) ∷ []
put_request_header name value ((n, v) ∷ rest) =
    if bytes_eq name n then (n, value) ∷ rest else (n, v) ∷ put_request_header name value rest

unfoldable pub remove_request_header : Bytes → HttpHeaderMap → HttpHeaderMap
unfolding bytes_eq
remove_request_header name [] = []
remove_request_header name ((n, v) ∷ rest) =
    if bytes_eq name n then rest else (n, v) ∷ remove_request_header name rest

unfoldable pub find_request_header : Bytes → HttpHeaderMap → Option Bytes
unfolding find_header
find_request_header name headers = find_header name headers

-- HttpStatusCode, of codes that are not negative.
abbrev pub is_valid_error : ℕ → Bool
is_valid_error code_ = leb 100 code_ && ltb code_ 600

abbrev pub is_server_error : ℕ → Bool
is_server_error code_ = leb 500 code_ && ltb code_ 600

abbrev pub is_client_error : ℕ → Bool
is_client_error code_ = leb 400 code_ && ltb code_ 500

abbrev pub is_redirect : ℕ → Bool
is_redirect code_ = leb 300 code_ && (leb code_ 307 && not (code_ == 304))

abbrev pub is_ok_code : ℕ → Bool
is_ok_code code_ = leb 200 code_ && ltb code_ 300
