-- ===== src/Transport/Socket.antt =====
-- The receive and send loops of SimpleHttpProcessor in
-- kwctoolkit/transport/simple_http_transaction.cc, on POSIX. The socket, which does not block, is a
-- parameter: recv(2), send(2) and whether DataAwaiting's select finds data, over a state of it. The
-- fuel bounds the loops. KWC_CHECK only logs; `thrown` is a range that ends before it starts.
pub mod Receiving
pub mod Sending
use kwctoolkit.Prelude.{
  ℕ, zero, suc, ◌+◌, ◌-◌, ◌%◌, ◌^◌, Bool, true, false, List, [], ◌∷◌, ◌++◌, leb, ◌==◌,
  if◌then◌else◌, is_empty, length, take, drop, Bytes, codes, Outcome, returned, thrown, exhausted,
}
use kwctoolkit.Strings.Ascii.{ends_with}
use kwctoolkit.File.Descriptors.{Reply, gives, fails}

pub record Socket (S : Type 0) : Type 0 where
  pub recv : ℕ → S → Reply Bytes × S
  pub send : Bytes → S → Reply ℕ × S
  pub data_awaiting : S → Bool × S

-- EAGAIN and EWOULDBLOCK
abbrev pub eagain : ℕ
eagain = 11

-- The end of a chunked message.
abbrev pub message_end : Bytes
message_end = codes "0\r\n\r\n"

module _ {S : Type 0} (socket : Socket S) where
  open socket use {recv, send, data_awaiting}

  -- The loop of recv. A failure that does not leave it inserts the range up to &data[-1].
  unfoldable pub recv_loop : ℕ → Bytes → S → Outcome (Bytes × S)
  unfolding ends_with
  recv_loop zero buffer s = exhausted
  recv_loop (suc fuel) buffer s = elim (recv (2 ^ 12) s).0 [
    | fails errno ↦
        let s1 = (recv (2 ^ 12) s).1 in
        if errno == eagain
        then if (data_awaiting s1).0 then thrown else returned (buffer, (data_awaiting s1).1)
        else thrown
    | gives bytes ↦
        let s1 = (recv (2 ^ 12) s).1 in
        let again = recv_loop fuel (buffer ++ bytes) s1 in
        if is_empty bytes
        then returned (buffer, s1)
        else if ends_with (buffer ++ bytes) message_end
        then returned (buffer ++ bytes, s1)
        else again
  ]

  unfoldable pub recv_data : ℕ → S → Outcome (Bytes × S)
  unfolding recv_loop
  recv_data fuel s =
      if (data_awaiting s).0
      then recv_loop fuel [] (data_awaiting s).1
      else returned ([], (data_awaiting s).1)

  -- The count of a failed send is -1 as a size_t.
  abbrev pub sent_count : Reply ℕ → ℕ
  sent_count (gives n) = n
  sent_count (fails errno) = 2 ^ 64 - 1

  -- The loop of send, from an offset of the message on; it is `thrown` outside of the message.
  unfoldable pub send_loop : ℕ → Bytes → ℕ → ℕ → S → Outcome S
  send_loop zero message offset num_bytes s = exhausted
  send_loop (suc fuel) message offset num_bytes s =
      let r = send (take num_bytes (drop offset message)) s in
      let n = sent_count r.0 in
      let again =
        send_loop fuel message ((offset + n) % 2 ^ 64) ((num_bytes + (2 ^ 64 - n)) % 2 ^ 64) r.1 in
      if num_bytes == 0
      then returned s
      else if leb (offset + num_bytes) (length message)
      then again
      else thrown

  unfoldable pub send_message : ℕ → Bytes → S → Outcome S
  unfolding send_loop
  send_message fuel message s = send_loop fuel message 0 (length message) s
