-- ===== src/Examples/Sockets.antt =====
-- A peer that sends two segments and takes two bytes at a time, and the priorities of a thread.
use kwctoolkit.Prelude.{
  ℕ, zero, suc, ◌<◌, ◌≤◌, ◌≡◌, refl, ap, sym, ◌∙◌, arith, ◌⊎◌, true, some, none, List, [], ◌∷◌,
  ◌++◌, length, length-append, take, drop, min, take-append_length, drop-append_length, Bytes,
  codes, returned, if◌then◌else◌,
}
use kwctoolkit.Strings.Ascii.{ends_with}
use kwctoolkit.File.Descriptors.{Reply, gives}
use kwctoolkit.Transport.Socket.{Socket, message_end, recv_data, send_message}
use kwctoolkit.Transport.Socket.Receiving.{
  EndsOnce, closes, Plays, segment, closed, joined, without_state, at_ending, recv_data-Plays,
}
use kwctoolkit.Transport.Socket.Sending.{Takes, send_message-sent}
use kwctoolkit.System.Thread.{low_priority, high_priority, priority_for}
use kwctoolkit.System.Thread.Priorities.{priority_for-bounds}

abbrev Peer : Type 0
Peer = List Bytes × Bytes

abbrev peer_recv : ℕ → Peer → Reply Bytes × Peer
peer_recv count ([], taken) = (gives [], ([], taken))
peer_recv count (s ∷ segments, taken) = (gives s, (segments, taken))

abbrev peer : Socket Peer
peer = record {
  recv = peer_recv;
  send = λ bytes p. (gives (min 2 (length bytes)), (p.0, p.1 ++ take (min 2 (length bytes)) bytes));
  data_awaiting = λ p. (true, p);
}

abbrev segments : List Bytes
segments = codes "x0\r" ∷ codes "\n\r\n" ∷ []

segments-Plays : Plays peer (segments, []) segments closes
segments-Plays =
    segment (segments, []) (codes "x0\r") (codes "\n\r\n" ∷ []) closes refl refl
      (segment (codes "\n\r\n" ∷ [], []) (codes "\n\r\n") [] closes refl refl
        (closed ([], []) refl))

prefix_ends :
    (k : ℕ)
    → k ≤ 6
    → ends_with (take k (codes "x0\r\n\r\n")) message_end ≡ true
    → drop k (codes "x0\r\n\r\n") ≡ []
unfolding ends_with
prefix_ends zero h e = absurd (ground arith)
prefix_ends (suc zero) h e = absurd (ground arith)
prefix_ends (suc (suc zero)) h e = absurd (ground arith)
prefix_ends (suc (suc (suc zero))) h e = absurd (ground arith)
prefix_ends (suc (suc (suc (suc zero)))) h e = absurd (ground arith)
prefix_ends (suc (suc (suc (suc (suc zero))))) h e = absurd (ground arith)
prefix_ends (suc (suc (suc (suc (suc (suc zero)))))) h e = refl
prefix_ends (suc (suc (suc (suc (suc (suc (suc k))))))) h e = absurd (omega arith)

segments-EndsOnce : EndsOnce (joined segments)
segments-EndsOnce front back e h =
    let size = ap length e in
    let f : take (length front) (codes "x0\r\n\r\n") ≡ front =
      ap (take (length front)) e ∙ take-append_length front back in
    let b : drop (length front) (codes "x0\r\n\r\n") ≡ back =
      ap (drop (length front)) e ∙ drop-append_length front back in
    sym b
    ∙ prefix_ends (length front) (omega (arith, size, length-append front back))
        (ap (λ t. ends_with t message_end) f ∙ h)

recv_data-Plays_example : without_state (recv_data peer 5 (segments, [])) ≡ (
    if ends_with (joined segments) message_end
    then returned (joined segments)
    else at_ending closes (joined segments))
recv_data-Plays_example =
    recv_data-Plays peer 5 (segments, []) segments closes refl segments-Plays (omega arith)
      segments-EndsOnce

peer-Takes : Takes peer (λ p. p.1)
peer-Takes = record {
  one_send = λ bytes p some_bytes. (min 2 (length bytes), refl, omega arith, omega arith, refl);
}

send_message-sent_example :
    (p' : Peer) × (send_message peer 9 (codes "GET /") ([], []) ≡ returned p')
    × (p'.1 ≡ codes "GET /")
send_message-sent_example =
    send_message-sent peer (λ p. p.1) peer-Takes 9 (codes "GET /") ([], []) (omega arith)
      (omega arith)

priority_for-bounds_example :
    ((a b : ℕ) × (priority_for (some 1) (some 99) low_priority ≡ some a)
      × (priority_for (some 1) (some 99) high_priority ≡ some b)
      × (1 < a)
      × (a ≤ b)
      × (b < 99))
    ⊎ ((99 ≤ 3) × (priority_for (some 1) (some 99) low_priority ≡ none))
priority_for-bounds_example =
    priority_for-bounds low_priority high_priority 1 99 (omega arith) (omega arith)
