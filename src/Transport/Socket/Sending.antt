-- ===== src/Transport/Socket/Sending.antt =====
-- What the send loop of kwctoolkit/transport/simple_http_transaction.cc sends.
use kwctoolkit.Prelude.{
  ℕ, zero, suc, ◌+◌, ◌-◌, ◌%◌, ◌^◌, ◌≤◌, ◌<◌, ◌≡◌, refl, ap, sym, ◌∙◌, arith, true, false, [], ◌++◌,
  append_assoc, append-nil, leb, ◌==◌, length, take, drop, drop-all, take-all, drop-drop,
  take-append-drop, length-drop, Bytes, returned,
}
use kwctoolkit.File.Descriptors.{gives}
use kwctoolkit.Transport.Socket.{Socket, send_loop, send_message}

-- A send, and those after it.
sent_both :
    (start first second message : Bytes) (offset n : ℕ)
    → first ≡ start ++ take n (drop offset message)
    → second ≡ first ++ drop (offset + n) message
    → second ≡ start ++ drop offset message
sent_both start first second message offset n e e' =
    let left = drop offset message in
    let rejoined : take n left ++ drop (offset + n) message ≡ left =
      ap (λ d. take n left ++ d) (sym (drop-drop offset n message)) ∙ take-append-drop n left in
    e'
    ∙ ap (λ w. w ++ drop (offset + n) message) e
    ∙ append_assoc start (take n left) (drop (offset + n) message)
    ∙ ap (λ t. start ++ t) rejoined

-- A peer that takes some of the bytes of every send; `sent` is what it has taken.
module _ {S : Type 0} (socket : Socket S) (sent : S → Bytes) where
  open socket use {send}

  pub record Takes : Type 0 where
    pub one_send :
        (bytes : Bytes) (s : S)
        → 0 < length bytes
        → (n : ℕ) × ((send bytes s).0 ≡ gives n)
          × (0 < n)
          × (n ≤ length bytes)
          × (sent (send bytes s).1 ≡ sent s ++ take n bytes)

  one_round :
      (fuel : ℕ) (message : Bytes) (offset k n : ℕ) (s : S)
      → (send (take (suc k) (drop offset message)) s).0 ≡ gives n
      → offset + suc k ≡ length message
      → n ≤ suc k
      → length message < 2 ^ 64
      → send_loop socket (suc fuel) message offset (suc k) s
        ≡ send_loop socket fuel message
            (offset + n)
            (suc k - n)
            (send (take (suc k) (drop offset message)) s).1
  unfolding send_loop
  one_round fuel message offset k n s r e room size =
      let z : (suc k == 0) ≡ false = ground arith in
      let fits : leb (offset + suc k) (length message) ≡ true = ground arith in
      let o : (offset + n) % 2 ^ 64 ≡ offset + n = omega arith in
      let c : (suc k + (2 ^ 64 - n)) % 2 ^ 64 ≡ suc k - n = omega arith in
      rw (r, send_loop, o, c, fits, z) refl

  module _ (takes : Takes) where
    send_loop-drop :
        (fuel : ℕ) (message : Bytes) (offset num_bytes : ℕ) (s : S)
        → offset + num_bytes ≡ length message
        → length message < 2 ^ 64
        → num_bytes < fuel
        → (s' : S) × (send_loop socket fuel message offset num_bytes s ≡ returned s')
          × (sent s' ≡ sent s ++ drop offset message)
    unfolding send_loop
    send_loop-drop zero message offset num_bytes s e size h = absurd (omega arith)
    send_loop-drop (suc fuel) message offset zero s e size h =
        let nothing : drop offset message ≡ [] = drop-all offset message (omega arith) in
        (s, refl, rw (nothing) (sym (append-nil (sent s))))
    send_loop-drop (suc fuel) message offset (suc k) s e size h =
        let bytes = take (suc k) (drop offset message) in
        let whole : bytes ≡ drop offset message =
          take-all (suc k) (drop offset message) (omega (arith, length-drop offset message)) in
        let long = ap length whole in
        let (n, r, some_bytes, le, taken) =
          takes.one_send bytes s (omega (arith, length-drop offset message, long)) in
        let s1 = (send bytes s).1 in
        let room : n ≤ suc k = omega (arith, length-drop offset message, long) in
        let (s', loop, file) =
          send_loop-drop fuel message (offset + n) (suc k - n) s1 (omega arith) size
            (omega arith) in
        (
          s',
          one_round fuel message offset k n s r e room size ∙ loop,
          sent_both (sent s) (sent s1) (sent s') message offset n
              (taken ∙ ap (λ b. sent s ++ take n b) whole) file,
        )

    -- If the peer takes some bytes of every send, the whole message is sent, in order, however
    -- the sends are split. The message is shorter than 2^64, and the fuel exceeds its length.
    pub send_message-sent :
        (fuel : ℕ) (message : Bytes) (s : S)
        → length message < 2 ^ 64
        → length message < fuel
        → (s' : S) × (send_message socket fuel message s ≡ returned s')
          × (sent s' ≡ sent s ++ message)
    unfolding send_message
    send_message-sent fuel message s size h =
        send_loop-drop fuel message 0 (length message) s (omega arith) size h
