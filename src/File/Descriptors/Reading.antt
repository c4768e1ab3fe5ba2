-- ===== src/File/Descriptors/Reading.antt =====
-- ReadFull of kwctoolkit/file/file_utils.cc on a file with so many bytes left.
use kwctoolkit.Prelude.{
  ℕ, ◌+◌, ◌^◌, ◌≤◌, ◌<◌, ◌≡◌, refl, ap, sym, ◌∙◌, ◌⊎◌, inl, inr, arith, some, true, false, [], ◌++◌,
  append_assoc, append-nil, length, length-append, take, drop, Bytes, ℤ, pos, negsuc,
  take-append_length, length-take, length-drop,
}
use mathlib.Core.Path.{subst}
use kwctoolkit.File.Descriptors.{gives, fails, eintr, Calls, write_at, read_into}
use kwctoolkit.File.Descriptors.Transfers.{Interrupts, Gives, Fails, Transfers}

abbrev pub IsOffset : ℤ → Type 0
IsOffset (pos n) = n < 2 ^ 63
IsOffset (negsuc n) = n < 2 ^ 63

-- What read(2) documents of a regular file with the bytes `left` before its end, which nobody else
-- writes to: a call is interrupted, or gives some of the next bytes, and none only at the end or
-- if none are asked for. `patience` bounds the interruptions to come.
module _ {S : Type 0} (calls : Calls S) (fd : ℕ) (left : S → Bytes) (patience : S → ℕ) where
  open calls use {read, fstat}

  pub record Reads : Type 0 where
    pub one_read :
        (count : ℕ) (s : S)
        → (((read fd count s).0 ≡ fails eintr)
            × (left (read fd count s).1 ≡ left s)
            × (patience (read fd count s).1 < patience s))
          ⊎ ((bytes : Bytes) × ((read fd count s).0 ≡ gives bytes)
              × (length bytes ≤ count)
              × (left s ≡ bytes ++ left (read fd count s).1)
              × (patience (read fd count s).1 ≤ patience s)
              × (length bytes ≡ 0 → (count ≡ 0) ⊎ (left (read fd count s).1 ≡ [])))
    -- fstat advises some size, as an off_t.
    pub one_stat :
        (s : S)
        → (st_size : ℤ) × ((fstat fd s).0 ≡ some st_size)
          × IsOffset st_size
          × (left (fstat fd s).1 ≡ left s)
          × (patience (fstat fd s).1 ≤ patience s)

  -- A transfer takes the next bytes of the file into the buffer, if there is room.
  abbrev pub Did : ℕ → ℕ → Bytes × S → Bytes × S → Type 0
  Did offset n (buffer, s) (buffer', s') =
      (offset + n ≤ length buffer)
      → (bytes : Bytes) × (length bytes ≡ n)
        × (left s ≡ bytes ++ left s')
        × (take (offset + n) buffer' ≡ take offset buffer ++ bytes)
        × (length buffer' ≡ length buffer)

  abbrev pub AtEnd : Bytes × S → Type 0
  AtEnd (buffer, s) = left s ≡ []

  -- No other error is documented of a read that can happen here.
  abbrev pub AtFailure : Bytes × S → Type 0
  AtFailure (buffer, s) = true ≡ false

  abbrev pub calls_left : ℕ → Bytes × S → ℕ
  calls_left count (buffer, s) = patience s + length (left s)

  take-write_at :
      (offset : ℕ) (bytes buffer : Bytes)
      → offset ≤ length buffer
      → take (offset + length bytes) (write_at offset bytes buffer) ≡ take offset buffer ++ bytes
  take-write_at offset bytes buffer h =
      let front = take offset buffer ++ bytes in
      let e : length front ≡ offset + length bytes =
        omega (arith, length-append (take offset buffer) bytes, length-take offset buffer) in
      subst (λ k. take k (front ++ drop (offset + length bytes) buffer) ≡ front) e
        (take-append_length front (drop (offset + length bytes) buffer))

  length-write_at :
      (offset : ℕ) (bytes buffer : Bytes)
      → offset + length bytes ≤ length buffer
      → length (write_at offset bytes buffer) ≡ length buffer
  length-write_at offset bytes buffer h = omega (
    arith,
    length-append (take offset buffer ++ bytes) (drop (offset + length bytes) buffer),
    length-append (take offset buffer) bytes,
    length-take offset buffer,
    length-drop (offset + length bytes) buffer,
  )

  nothing-Did :
      (offset : ℕ) (buffer : Bytes) (s s' : S)
      → left s' ≡ left s
      → Did offset 0 (buffer, s) (buffer, s')
  nothing-Did offset buffer s s' e fits = (
    [],
    refl,
    sym e,
    let e2 : offset + 0 ≡ offset = omega arith in rw (e2) (sym (append-nil (take offset buffer))),
    refl,
  )

  bytes-Did :
      (offset : ℕ) (buffer bytes : Bytes) (s s' : S)
      → left s ≡ bytes ++ left s'
      → Did offset (length bytes) (buffer, s) (write_at offset bytes buffer, s')
  bytes-Did offset buffer bytes s s' e fits = (
    bytes,
    refl,
    e,
    take-write_at offset bytes buffer (omega arith),
    length-write_at offset bytes buffer fits,
  )

  both-Did :
      (offset m n : ℕ) (r r' r'' : Bytes × S)
      → Did offset m r r'
      → Did (offset + m) n r' r''
      → Did offset (m + n) r r''
  both-Did offset m n (b, s) (b', s') (b'', s'') d d' fits =
      let (bytes, size, file, buffer, same) = d (omega arith) in
      let (bytes', size', file', buffer', same') = d' (omega (arith, same)) in
      let e : offset + (m + n) ≡ offset + m + n = omega arith in
      (
        bytes ++ bytes',
        omega (arith, length-append bytes bytes', size, size'),
        file ∙ ap (λ l. bytes ++ l) file' ∙ sym (append_assoc bytes bytes' (left s'')),
        rw (e) (buffer' ∙ ap (λ l. l ++ bytes') buffer ∙ append_assoc (take offset b) bytes bytes'),
        same' ∙ same,
      )

  module _ (fuel : ℕ) (reads : Reads) where
    read_into-one_call :
        (offset count : ℕ) (r : Bytes × S)
        → Interrupts (read_into calls fuel fd) Did AtEnd AtFailure calls_left offset count r
          ⊎ (Gives (read_into calls fuel fd) Did AtEnd AtFailure calls_left offset count r
              ⊎ Fails (read_into calls fuel fd) Did AtEnd AtFailure calls_left offset count r)
    unfolding read_into
    read_into-one_call offset count (b, s) = elim (reads.one_read count s) [
      | inl (e, same, less) ↦
          let e' : read_into calls fuel fd offset count (b, s)
              ≡ (fails eintr, (b, (read fd count s).1)) =
            rw (read_into, e) refl in
          inl (
            rw (e') (
              refl,
              nothing-Did offset b s (read fd count s).1 same,
              omega (arith, ap length same),
            ))
      | inr (bytes, e, le, file, less, end) ↦
          let e' : read_into calls fuel fd offset count (b, s)
              ≡ (gives (length bytes), (write_at offset bytes b, (read fd count s).1)) =
            rw (read_into, e) refl in
          inr (
            inl (
              rw (e') (
                length bytes,
                refl,
                le,
                bytes-Did offset b bytes s (read fd count s).1 file,
                omega (arith, ap length file, length-append bytes (left (read fd count s).1)),
                end,
              )))
    ]

    pub read_into-Transfers :
        (size : ℕ) → Transfers (read_into calls fuel fd) Did AtEnd AtFailure calls_left size
    read_into-Transfers size = record {
      one_call = λ offset count r fits. read_into-one_call offset count r;
      did_both = both-Did;
    }
