-- ===== src/StreamBuffer/Calls/Exchange.antt =====
-- Receiving from a message buffer, and whole exchanges between a sender and a receiver.
use freertos_in_rust.Prelude.{
  ℕ, ◌-◌, ◌≤◌, ◌<◌, ◌≡◌, refl, inl, inr, true, List, [], ◌∷◌, ◌++◌, arith, leb, Bool-cases, length,
  Outcome, ok, ◌>>=◌, word_mod,
}
use freertos_in_rust.StreamBuffer.{StreamBuffer, is_message_buffer, bytes_in_buffer}
use freertos_in_rust.StreamBuffer.Ring.{bytes_lt}
use freertos_in_rust.StreamBuffer.Framing.{took}
use freertos_in_rust.StreamBuffer.Framing.Reading.{read_framed, read_framed_short}
use freertos_in_rust.StreamBuffer.Calls.{after_read, send_from_isr, receive_from_isr}
use freertos_in_rust.StreamBuffer.Calls.Wakeups.{after_read-SameBytes}
use freertos_in_rust.StreamBuffer.Calls.Messages.{
  frames, total, Holds, send_message, receive_message, bytes-total, SameBytes-Holds, Answers,
  send_refines,
}

module _ {sb : StreamBuffer} (capacity : ℕ) where
  receive-nothing : Holds sb [] → Answers sb (receive_from_isr sb capacity) ([], [])
  unfolding receive_from_isr total
  receive-nothing h = (sb, [], ground (arith, bytes-total h, h.kind), h, refl)

  module _ {m : List ℕ} {ms : List (List ℕ)} (h : Holds sb (m ∷ ms)) where
    some_bytes : 4 < bytes_in_buffer sb
    unfolding total
    some_bytes = omega (arith, bytes-total h, h.sized)

    small : length m < word_mod
    unfolding total
    small = omega (arith, bytes-total h, bytes_lt h.valid, h.valid.small)

    receive-fits : length m ≤ capacity → Answers sb (receive_from_isr sb capacity) (m, ms)
    unfolding receive_from_isr frames is_message_buffer
    receive-fits room =
        let (t, e, valid, held) =
          read_framed h.valid capacity (length m) m (frames ms) h.kind h.sized.0 small refl h.framed
            room in
        let (sb', effects, r, same) = after_read-SameBytes true [] m (took sb t) in
        let holds : Holds (took sb t) ms = record {
          valid = valid;
          kind = h.kind;
          framed = held;
          sized = h.sized.1;
        } in
        (sb', effects, ground (arith, some_bytes), SameBytes-Holds same holds, same.len)

    receive-short : capacity < length m → Answers sb (receive_from_isr sb capacity) ([], m ∷ ms)
    unfolding receive_from_isr frames after_read
    receive-short short =
        let e =
          read_framed_short h.valid capacity (length m) (m ++ frames ms) h.kind small h.framed
            short in
        (sb, [], ground (arith, some_bytes, h.kind), h, refl)

  -- `xStreamBufferReceiveFromISR` takes the oldest message whole if the caller's buffer can hold it;
  -- otherwise, and from an empty buffer, it returns nothing and every message stays.
  pub receive_refines :
      {ms : List (List ℕ)}
      → Holds sb ms
      → Answers sb (receive_from_isr sb capacity) (receive_message ms capacity)
  unfolding receive_message
  receive_refines {ms = []} h = receive-nothing h
  receive_refines {ms = m ∷ ms} h = elim (Bool-cases (leb (length m) capacity)) [
    | inl room ↦ rw room (receive-fits h (ground arith))
    | inr short ↦ rw short (receive-short h (ground arith))
  ]

-- what a sender and a receiver do, and what they see
pub data Op : Type 0 where
  send : List ℕ → Op
  receive : ℕ → Op

pub data Reply : Type 0 where
  sent : ℕ → Reply
  received : List ℕ → Reply

unfoldable pub run : StreamBuffer → List Op → Outcome (List Reply)
run sb [] = ok []
run sb (send m ∷ ops) = do
  (n, sb', _) ← send_from_isr sb m (length m)
  replies ← run sb' ops
  ok (sent n ∷ replies)
run sb (receive capacity ∷ ops) = do
  (m, sb', _) ← receive_from_isr sb capacity
  replies ← run sb' ops
  ok (received m ∷ replies)

-- the same over the queue of messages
unfoldable pub run_queue : ℕ → List (List ℕ) → List Op → List Reply
run_queue capacity ms [] = []
run_queue capacity ms (send m ∷ ops) =
    let (n, ms') = send_message capacity ms m in sent n ∷ run_queue capacity ms' ops
run_queue capacity ms (receive room ∷ ops) =
    let (m, ms') = receive_message ms room in received m ∷ run_queue capacity ms' ops

-- From a valid message buffer on, whatever is sent and received from interrupts, no assertion fails
-- and every call answers as the bounded queue of messages does: no message is lost, split, joined,
-- repeated or reordered, also across the end of the storage.
pub run_refines :
    (ops : List Op) {sb : StreamBuffer} {ms : List (List ℕ)}
    → Holds sb ms
    → run sb ops ≡ ok (run_queue (sb.len - 1) ms ops)
unfolding run run_queue
run_refines [] h = refl
run_refines (send m ∷ ops) {sb = sb} {ms = ms} h =
    let (sb', effects, r, holds, e) = send_refines h m in ground (arith, run_refines ops holds)
run_refines (receive room ∷ ops) {sb = sb} h =
    let (sb', effects, r, holds, e) = receive_refines room h in
    ground (arith, run_refines ops holds)
