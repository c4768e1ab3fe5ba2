-- ===== src/Transport/Response/Headers.antt =====
-- Looking up response headers.
use kwctoolkit.Prelude.{
  ◌≡◌, refl, inl, inr, Bool-cases, Option, none, some, if◌then◌else◌, Bytes, bytes_eq, bytes_eq→eq,
}
use kwctoolkit.Strings.Ascii.{to_lower_ascii}
use kwctoolkit.Transport.Response.{
  HttpHeaderMap, find_header, insert_header, add_header, find_header_value,
}

abbrev pub or_else : Option Bytes → Option Bytes → Option Bytes
or_else none other = other
or_else (some v) other = some v

or_else-none : (o : Option Bytes) → o ≡ or_else o none
or_else-none none = refl
or_else-none (some v) = refl

find_header-insert_header :
    (key name value : Bytes) (headers : HttpHeaderMap) (there : Option Bytes)
    → find_header name headers ≡ there
    → find_header key (insert_header name value headers)
      ≡ or_else (find_header key headers) (if bytes_eq key name then some value else none)
unfolding insert_header find_header
find_header-insert_header key name value headers none e =
    rw (e, insert_header)
      (elim (Bool-cases (bytes_eq key name)) [
        | inl same ↦ rw (same, bytes_eq→eq key name same) (rw e refl)
        | inr other ↦ rw (other) (or_else-none _)
      ])
find_header-insert_header key name value headers (some v) e =
    rw (e, insert_header)
      (elim (Bool-cases (bytes_eq key name)) [
        | inl same ↦ rw (same, bytes_eq→eq key name same) (rw e refl)
        | inr other ↦ rw (other) (or_else-none _)
      ])

-- After a header is added, each lookup finds what it found before, or else the added value if the
-- names are equal in lower case: the first value of a header stays.
pub find_header_value-add_header :
    (key name value : Bytes) (headers : HttpHeaderMap)
    → find_header_value key (add_header name value headers)
      ≡ or_else
          (find_header_value key headers)
          (if bytes_eq (to_lower_ascii key) (to_lower_ascii name) then some value else none)
unfolding find_header_value add_header
find_header_value-add_header key name value headers =
    find_header-insert_header (to_lower_ascii key) (to_lower_ascii name) value headers _ refl
