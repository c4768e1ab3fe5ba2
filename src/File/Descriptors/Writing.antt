-- ===== src/File/Descriptors/Writing.antt =====
-- WriteFile of kwctoolkit/file/file_utils.h: a file holds what is written to it.
use kwctoolkit.Prelude.{
  ℕ, zero, suc, ◌+◌, ◌%◌, ◌^◌, ◌≤◌, ◌<◌, ◌≡◌, refl, ap, sym, ◌∙◌, ◌⊎◌, inl, inr, arith, Bool, true,
  false, ◌&&◌, Outcome, negsuc, [], ◌∷◌, ◌++◌, append_assoc, append-nil, length, take, drop, Bytes,
  ◌==◌, ==-refl, returned, pos, length-take, length-drop, take-all, take-add, drop-drop,
}
use kwctoolkit.File.Descriptors.{
  Reply, gives, fails, eintr, is_closed, int_of, Calls, write_part, write_full, write_file,
  close_no_interrupt,
}
use kwctoolkit.File.Descriptors.Transfers.{Interrupts, Gives, Fails, wrap_incomplete-Ends}

take-take : (m n : ℕ) (xs : Bytes) → m ≤ n → take m (take n xs) ≡ take m xs
take-take zero n xs h = refl
take-take (suc m) zero xs h = absurd (omega arith)
take-take (suc m) (suc n) [] h = refl
take-take (suc m) (suc n) (x ∷ xs) h = ap (λ t. x ∷ t) (take-take m n xs (omega arith))

-- What write(2) documents of a regular file, of which the bytes `written` precede the position of
-- the descriptor: a call is interrupted, or writes some of the bytes, and none only if there are
-- none, or fails with another error, say of a full disk. `patience` bounds the interruptions to
-- come. close(2) leaves what is written; it succeeds, is interrupted, or fails with another error.
-- `HasFailed` says of a state that some write or close has failed so.
module _ {S : Type 0} (calls : Calls S) (fd : ℕ) (written : S → Bytes) (patience : S → ℕ)
    (HasFailed : S → Type 0) where
  open calls use {write, open_file, close}

  abbrev pub FailsWith : Reply ℕ × S → Type 0
  FailsWith r = (errno : ℕ) × (r.0 ≡ fails errno) × ((errno == eintr) ≡ false) × HasFailed r.1

  pub record Writes : Type 0 where
    pub one_write :
        (bytes : Bytes) (s : S)
        → (((write fd bytes s).0 ≡ fails eintr)
            × (written (write fd bytes s).1 ≡ written s)
            × (patience (write fd bytes s).1 < patience s))
          ⊎ (((n : ℕ) × ((write fd bytes s).0 ≡ gives n)
                × (n ≤ length bytes)
                × (written (write fd bytes s).1 ≡ written s ++ take n bytes)
                × (patience (write fd bytes s).1 ≤ patience s)
                × (n ≡ 0 → length bytes ≡ 0))
              ⊎ FailsWith (write fd bytes s))
    pub one_close :
        (s : S)
        → (written (close fd s).1 ≡ written s)
          × (HasFailed s → HasFailed (close fd s).1)
          × (((close fd s).0 ≡ gives 0) ⊎ (((close fd s).0 ≡ fails eintr) ⊎ FailsWith (close fd s)))

  module _ (data_bytes : Bytes) (fuel : ℕ) (writes : Writes) where
    abbrev Did : ℕ → ℕ → S → S → Type 0
    Did offset n s s' = written s' ≡ written s ++ take n (drop offset data_bytes)

    -- A regular file has no end for writing.
    abbrev AtEnd : S → Type 0
    AtEnd s = true ≡ false

    abbrev calls_left : ℕ → S → ℕ
    calls_left count s = patience s + count

    both-Did :
        (offset m n : ℕ) (s s' s'' : S)
        → Did offset m s s'
        → Did (offset + m) n s' s''
        → Did offset (m + n) s s''
    both-Did offset m n s s' s'' d d' =
        d'
        ∙ ap (λ w. w ++ take n (drop (offset + m) data_bytes)) d
        ∙ append_assoc (written s) (take m (drop offset data_bytes))
            (take n (drop (offset + m) data_bytes))
        ∙ rw (take-add m n (drop offset data_bytes), drop-drop offset m data_bytes) refl

    write_part-one_call :
        (offset count : ℕ) (s : S)
        → offset + count ≤ length data_bytes
        → Interrupts
            (write_part calls fuel fd data_bytes)
            Did
            AtEnd
            HasFailed
            calls_left
            offset
            count
            s
          ⊎ (Gives
                (write_part calls fuel fd data_bytes)
                Did
                AtEnd
                HasFailed
                calls_left
                offset
                count
                s
              ⊎ Fails
                  (write_part calls fuel fd data_bytes)
                  Did
                  AtEnd
                  HasFailed
                  calls_left
                  offset
                  count
                  s)
    unfolding write_part
    write_part-one_call offset count s fits =
        let bytes = take count (drop offset data_bytes) in
        let size : length bytes ≡ count =
          omega
            (arith, length-take count (drop offset data_bytes), length-drop offset data_bytes) in
        elim (writes.one_write bytes s) [
          | inl (e, same, less) ↦ inl (e, same ∙ sym (append-nil (written s)), omega arith)
          | inr (inr failed) ↦ inr (inr failed)
          | inr (inl (n, e, le, file, less, none_left)) ↦ inr (
              inl (
                n,
                e,
                omega arith,
                file
                    ∙ ap (λ t. written s ++ t)
                        (take-take n count (drop offset data_bytes) (omega arith)),
                omega arith,
                λ z. inl (omega (arith, none_left z)),
              ))
        ]

    -- WriteFull writes everything, or gives up at a failure.
    abbrev FullyWritten : S → S → Type 0
    FullyWritten s s' =
        (write_full calls fuel fd data_bytes s ≡ returned (pos (length data_bytes), s'))
        × (written s' ≡ written s ++ data_bytes)

    write_full-written :
        (s : S)
        → patience s + length data_bytes < fuel
        → length data_bytes < 2 ^ 31
        → (s' : S) × (FullyWritten s s'
            ⊎ ((write_full calls fuel fd data_bytes s ≡ returned (negsuc 0, s')) × HasFailed s'))
    unfolding write_full
    write_full-written s enough short =
        elim (wrap_incomplete-Ends (write_part calls fuel fd data_bytes) Did AtEnd HasFailed
          calls_left (length data_bytes)
          (record { one_call = write_part-one_call; did_both = both-Did }) fuel 0
          (length data_bytes) 0 s enough (omega arith) (omega arith) (omega arith)) [
            | inr (s', e, bad) ↦ (s', inr (e, bad))
            | inl (m, s', e, did, le, all, less) ↦
                let all_written = complete all in
                let number : int_of ((0 + m) % 2 ^ 32) ≡ pos (length data_bytes) = ground arith in
                (
                  s',
                  inl (
                    e ∙ ap (λ k. returned (k, s')) number,
                    did
                        ∙ ap (λ t. written s ++ t)
                            (take-all m data_bytes (omega (arith, all_written))),
                  ),
                )
          ]
      where
        complete : {m n : ℕ} → (m ≡ n) ⊎ (true ≡ false) → m ≡ n
        complete (inl e) = e
        complete (inr e) = absurd (ground arith)

  -- The end of WriteFile: its result is that of the write, but for a close that fails.
  closed :
      (fuel : ℕ) (s : S)
      → Writes
      → (is_closed (close_no_interrupt calls fuel fd s).0 ≡ true)
        ⊎ ((is_closed (close_no_interrupt calls fuel fd s).0 ≡ false) × HasFailed (close fd s).1)
  unfolding close_no_interrupt
  closed fuel s writes =
      let (same, kept, reply) = writes.one_close s in
      elim reply [
        | inl zero_reply ↦ inl (rw (zero_reply) refl)
        | inr (inl interrupted) ↦ inl (rw (interrupted) refl)
        | inr (inr (errno, e, other, bad)) ↦ inr (rw (e) (rw (other) refl), bad)
      ]

  -- What WriteFile returns, and what that means.
  abbrev pub WroteOrFailed : Bytes → Outcome (Bool × S) → Type 0
  WroteOrFailed data_bytes o =
      (ok : Bool) × (s' : S) × (o ≡ returned (ok, s'))
      × (((ok ≡ true) × (written s' ≡ data_bytes)) ⊎ ((ok ≡ false) × HasFailed s'))

  finish :
      (fuel : ℕ) (s : S) (data_bytes : Bytes) (o : Outcome (Bool × S))
      → Writes
      → o ≡ returned (is_closed (close_no_interrupt calls fuel fd s).0 && true, (close fd s).1)
      → written s ≡ data_bytes
      → WroteOrFailed data_bytes o
  finish fuel s data_bytes o writes e file =
      let (same, kept, reply) = writes.one_close s in
      elim (closed fuel s writes) [
        | inl closes ↦ (
          true,
          (close fd s).1,
          e ∙ ap (λ b. returned (b && true, (close fd s).1)) closes,
          inl (refl, same ∙ file),
        )
        | inr (breaks, bad) ↦ (
          false,
          (close fd s).1,
          e ∙ ap (λ b. returned (b && true, (close fd s).1)) breaks,
          inr (refl, bad),
        )
      ]

  -- WriteFile returns, and if it returns true, the file holds exactly the bytes that it was given,
  -- however the writes are split and interrupted, and also if close(2) is interrupted. If it returns
  -- false, a write or the close has failed with an error other than EINTR. This is so if the file
  -- opens empty, write(2) and close(2) do as documented, the bytes are fewer than 2^31, and the fuel
  -- exceeds them and the interruptions.
  pub write_file-written :
      (fuel : ℕ)
      → Writes
      → (filename data_bytes : Bytes) (flags : ℕ) (s : S)
      → (open_file filename flags s).0 ≡ gives fd
      → written (open_file filename flags s).1 ≡ []
      → patience (open_file filename flags s).1 + length data_bytes < fuel
      → length data_bytes < 2 ^ 31
      → WroteOrFailed data_bytes (write_file calls fuel filename data_bytes flags s)
  unfolding write_file
  write_file-written fuel writes filename [] flags s e new enough short =
      let s1 = (open_file filename flags s).1 in
      finish fuel s1 [] _ writes (rw (e, write_file) refl) new
  write_file-written fuel writes filename (x ∷ xs) flags s e new enough short =
      let s1 = (open_file filename flags s).1 in
      let full : (length (x ∷ xs) == length (x ∷ xs)) ≡ true = ==-refl (length (x ∷ xs)) in
      let (s2, wrote) = write_full-written (x ∷ xs) fuel writes s1 enough short in
      elim wrote [
        | inl (e2, file) ↦
            finish fuel s2 (x ∷ xs) _ writes (rw (e, write_file, e2, full) refl)
              (file ∙ ap (λ w. w ++ x ∷ xs) new)
        | inr (e2, bad) ↦ (
          false,
          (close fd s2).1,
          rw (e, write_file, e2)
              (ap (λ b. returned (b, (close fd s2).1))
                (and_false (is_closed (close_no_interrupt calls fuel fd s2).0))),
          inr (refl, (writes.one_close s2).1 bad),
        )
      ]
    where
      and_false : (b : Bool) → (b && false) ≡ false
      and_false true = refl
      and_false false = refl
