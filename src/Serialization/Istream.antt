-- ===== src/Serialization/Istream.antt =====
-- IstreamDataReader of kwctoolkit/serialization/istream_data_reader.cc, over std::istream, which is
-- a parameter.
use kwctoolkit.Prelude.{
  ℕ, zero, Bool, true, ◌||◌, Option, some, if◌then◌else◌, Bytes, codes, ℤ, negsuc, Outcome,
  returned,
}
use kwctoolkit.Base.Status.{Status, invalid_argument, unknown}
use kwctoolkit.Serialization.Reader.{Reader, new_reader, set_status, set_total_length, is_zero}

-- The calls of a stream. `read` gives the characters that it stored, and `has_state` is whether
-- rdstate() is not 0.
pub record Stream (S : Type 0) : Type 0 where
  pub tellg : S → ℤ
  pub eof : S → Bool
  pub fail : S → Bool
  pub bad : S → Bool
  pub has_state : S → Bool
  pub read : ℕ → S → Bytes × S
  pub clear_state : S → S
  pub seekg : ℕ → S → S

module _ {S : Type 0} (stream : Stream S) where
  open stream use {tellg, eof, fail, bad, has_state, read, clear_state, seekg}

  -- A total length of -1 is not set.
  abbrev pub with_total_length : ℤ → Reader S → Reader S
  with_total_length (negsuc zero) r = r
  with_total_length total_len r = set_total_length total_len r

  unfoldable pub istream_reader : S → ℤ → Reader S
  unfolding set_status set_total_length
  istream_reader s total_len =
      let r1 = with_total_length total_len (new_reader s) in
      let misplaced : Status = record {
        code = invalid_argument;
        msg = codes "Stream not at the beginning";
      } in
      let r2 = if is_zero (tellg s) then r1 else set_status misplaced r1 in
      let invalid : Status = record { code = invalid_argument; msg = codes "Invalid stream" } in
      if eof s then record r2 { done = true } else if fail s then set_status invalid r2 else r2

  unfoldable pub istream_read : ℕ → Reader S → Outcome (Option Bytes × Reader S)
  unfolding set_status
  istream_read max_bytes r =
      let (bytes, s) = read max_bytes r.own in
      let r1 = record r { own = s } in
      let failed : Status = record { code = unknown; msg = codes "Could not read stream" } in
      let r2 =
        if eof s then record r1 { done = true } else if fail s then set_status failed r1 else r1 in
      returned (some bytes, if has_state s then r2 else r1)

  unfoldable pub istream_set_offset : ℕ → Reader S → ℤ × Reader S
  unfolding set_status
  istream_set_offset position r =
      let s = seekg position (clear_state r.own) in
      let r1 = record r { own = s } in
      let failed : Status = record { code = unknown; msg = codes "Could not seek stream" } in
      if fail s || bad s then (negsuc 0, set_status failed r1) else (tellg s, r1)
