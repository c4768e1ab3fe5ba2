-- ===== src/Transport/Socket/Receiving.antt =====
-- What the receive loop of kwctoolkit/transport/simple_http_transaction.cc makes of the segments
-- that arrive.
use kwctoolkit.Prelude.{
  ℕ, zero, suc, ◌^◌, ◌<◌, ◌≡◌, refl, ap, sym, ◌∙◌, inl, inr, arith, true, false, Bool-cases, List,
  [], ◌∷◌, ◌++◌, append_assoc, append-nil, if◌then◌else◌, is_empty, length, Bytes, Outcome,
  returned, thrown, exhausted,
}
use mathlib.Core.Path.{subst}
use kwctoolkit.Strings.Ascii.{ends_with, starts_with}
use kwctoolkit.File.Descriptors.{gives, fails}
use kwctoolkit.Transport.Socket.{Socket, eagain, message_end, recv_loop, recv_data}

-- How the arrival of segments ends: the peer closes, nothing comes for four seconds, or nothing
-- comes for a moment.
pub data Ending : Type 0 where
  closes : Ending
  times_out : Ending
  pauses : Ending

abbrev pub joined : List Bytes → Bytes
joined [] = []
joined (segment ∷ segments) = segment ++ joined segments

abbrev pub without_state : {S : Type 0} → Outcome (Bytes × S) → Outcome Bytes
without_state (returned r) = returned r.0
without_state thrown = thrown
without_state exhausted = exhausted

-- The end of a chunked message stands nowhere but at the end.
abbrev pub EndsOnce : Bytes → Type 0
EndsOnce bytes =
    (front back : Bytes) → bytes ≡ front ++ back → ends_with front message_end ≡ true → back ≡ []

abbrev pub at_ending : Ending → Bytes → Outcome Bytes
at_ending closes bytes = returned bytes
at_ending times_out bytes = returned bytes
at_ending pauses bytes = thrown

ends_with-nil : ends_with [] message_end ≡ false
unfolding ends_with starts_with
ends_with-nil = refl

-- The segments and the ending that a socket plays, by what recv(2) and select(2) say.
module _ {S : Type 0} (socket : Socket S) where
  open socket use {recv, data_awaiting}

  pub data Plays : S → List Bytes → Ending → Type 0 where
    segment :
        (s : S) (bytes : Bytes) (segments : List Bytes) (ending : Ending)
        → (recv (2 ^ 12) s).0 ≡ gives bytes
        → is_empty bytes ≡ false
        → Plays (recv (2 ^ 12) s).1 segments ending
        → Plays s (bytes ∷ segments) ending
    closed : (s : S) → (recv (2 ^ 12) s).0 ≡ gives [] → Plays s [] closes
    timed_out :
        (s : S)
        → (recv (2 ^ 12) s).0 ≡ fails eagain
        → (data_awaiting (recv (2 ^ 12) s).1).0 ≡ false
        → Plays s [] times_out
    paused :
        (s : S)
        → (recv (2 ^ 12) s).0 ≡ fails eagain
        → (data_awaiting (recv (2 ^ 12) s).1).0 ≡ true
        → Plays s [] pauses

  abbrev expected : Ending → Bytes → Outcome Bytes
  expected ending bytes =
      if ends_with bytes message_end then returned bytes else at_ending ending bytes

  nothing_more :
      (buffer : Bytes) (ending : Ending)
      → ends_with buffer message_end ≡ false
      → expected ending (buffer ++ []) ≡ at_ending ending buffer
  nothing_more buffer ending e = rw (append-nil buffer, e) refl

  recv_loop-Plays :
      {s : S} {segments : List Bytes} {ending : Ending} (fuel : ℕ) (buffer : Bytes)
      → Plays s segments ending
      → length segments < fuel
      → EndsOnce (buffer ++ joined segments)
      → ends_with buffer message_end ≡ false
      → without_state (recv_loop socket fuel buffer s) ≡ expected ending (buffer ++ joined segments)
  unfolding recv_loop
  recv_loop-Plays zero buffer plays h once e = absurd (omega arith)
  recv_loop-Plays (suc fuel) buffer (closed s r) h once e =
      let loop : recv_loop socket (suc fuel) buffer s ≡ returned (buffer, (recv (2 ^ 12) s).1) =
        rw (r, recv_loop) refl in
      ap without_state loop ∙ sym (nothing_more buffer closes e)
  recv_loop-Plays (suc fuel) buffer (timed_out s r t) h once e =
      let loop : recv_loop socket (suc fuel) buffer s
          ≡ returned (buffer, (data_awaiting (recv (2 ^ 12) s).1).1) =
        rw (r, recv_loop, t) refl in
      ap without_state loop ∙ sym (nothing_more buffer times_out e)
  recv_loop-Plays (suc fuel) buffer (paused s r t) h once e =
      let loop : recv_loop socket (suc fuel) buffer s ≡ thrown = rw (r, recv_loop, t) refl in
      ap without_state loop ∙ sym (nothing_more buffer pauses e)
  recv_loop-Plays (suc fuel) buffer (segment s bytes segments ending r some_bytes plays) h once e =
      let s1 = (recv (2 ^ 12) s).1 in
      let whole : buffer ++ joined (bytes ∷ segments) ≡ buffer ++ bytes ++ joined segments =
        sym (append_assoc buffer bytes (joined segments)) in
      let once' = subst EndsOnce whole once in
      elim (Bool-cases (ends_with (buffer ++ bytes) message_end)) [
        | inl ended ↦
            let nothing = once' (buffer ++ bytes) (joined segments) refl ended in
            let loop : recv_loop socket (suc fuel) buffer s ≡ returned (buffer ++ bytes, s1) =
              rw (r, recv_loop, some_bytes, ended) refl in
            let all : buffer ++ bytes ++ joined segments ≡ buffer ++ bytes =
              ap (λ l. buffer ++ bytes ++ l) nothing ∙ append-nil (buffer ++ bytes) in
            let expects : expected ending (buffer ++ bytes) ≡ returned (buffer ++ bytes) =
              rw (ended) refl in
            ap without_state loop ∙ sym (ap (expected ending) (whole ∙ all) ∙ expects)
        | inr more ↦
            let loop : recv_loop socket (suc fuel) buffer s
                ≡ recv_loop socket fuel (buffer ++ bytes) s1 =
              rw (r, recv_loop, some_bytes, more) refl in
            ap without_state loop
            ∙ recv_loop-Plays {s = s1} fuel (buffer ++ bytes) plays (omega arith) once' more
            ∙ ap (expected ending) (sym whole)
      ]

  -- What a peer sends arrives whole, however it is split into segments, if the end of a chunked
  -- message stands nowhere in it but at its end, and data is awaiting when recv starts. With that
  -- end recv returns at once; without it, recv returns when the peer closes, or when nothing comes
  -- for four seconds. But a moment in which nothing comes makes recv insert a range that ends
  -- before it starts. The fuel exceeds the segments.
  pub recv_data-Plays :
      (fuel : ℕ) (s : S) (segments : List Bytes) (ending : Ending)
      → (data_awaiting s).0 ≡ true
      → Plays (data_awaiting s).1 segments ending
      → length segments < fuel
      → EndsOnce (joined segments)
      → without_state (recv_data socket fuel s) ≡ (
          if ends_with (joined segments) message_end
          then returned (joined segments)
          else at_ending ending (joined segments))
  unfolding recv_data
  recv_data-Plays fuel s segments ending awaiting plays h once =
      let loop : recv_data socket fuel s ≡ recv_loop socket fuel [] (data_awaiting s).1 =
        rw (awaiting) refl in
      ap without_state loop ∙ recv_loop-Plays fuel [] plays h once ends_with-nil
