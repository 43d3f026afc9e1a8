-- ===== src/StreamBuffer/Calls/Wakeups.antt =====
-- Whom a completed send or receive wakes, and what it leaves alone.
use freertos_in_rust.Prelude.{
  ℕ, ◌≡◌, inl, inr, Bool, ◌&&◌, List, ◌++◌, arith, ltb, leb, ◌==◌, Bool-cases, length, ok,
}
use freertos_in_rust.StreamBuffer.{StreamBuffer, is_message_buffer, bytes_in_buffer}
use freertos_in_rust.StreamBuffer.Ring.{IsValid, contents}
use freertos_in_rust.StreamBuffer.Calls.{
  Effect, send_completed, receive_completed, after_write, after_read,
}

-- Two states with the same storage, indices and kind; the wake-up slots may differ.
pub record SameBytes (s t : StreamBuffer) : Type 0 where
  pub tail : t.tail ≡ s.tail
  pub head : t.head ≡ s.head
  pub len : t.len ≡ s.len
  pub buffer : t.buffer ≡ s.buffer
  pub flags : t.flags ≡ s.flags
  pub trigger : t.trigger_level_bytes ≡ s.trigger_level_bytes

module _ {s t : StreamBuffer} (same : SameBytes s t) where
  pub SameBytes-contents : contents t ≡ contents s
  unfolding contents bytes_in_buffer
  SameBytes-contents = ground arith

  pub SameBytes-IsValid : IsValid s → IsValid t
  SameBytes-IsValid v = ground arith

  pub SameBytes-is_message_buffer : is_message_buffer t ≡ is_message_buffer s
  unfolding is_message_buffer
  SameBytes-is_message_buffer = ground arith

send_completed-SameBytes :
    (sb : StreamBuffer) (from_isr : Bool) → SameBytes sb (send_completed sb from_isr).0
unfolding send_completed
send_completed-SameBytes sb from_isr = ground arith

receive_completed-SameBytes :
    (sb : StreamBuffer) (from_isr : Bool) → SameBytes sb (receive_completed sb from_isr).0
unfolding receive_completed
receive_completed-SameBytes sb from_isr = ground arith

-- The end of a send reports the bytes written, wakes or not, and leaves the bytes alone.
pub after_write-SameBytes :
    (from_isr : Bool) (before : List Effect) (n : ℕ) (sb : StreamBuffer)
    → (sb' : StreamBuffer) × (effects : List Effect) × (after_write from_isr before (n, sb)
        ≡ ok (n, sb', effects))
      × SameBytes sb sb'
unfolding after_write
after_write-SameBytes from_isr before n sb =
    elim (Bool-cases (ltb 0 n && leb sb.trigger_level_bytes (bytes_in_buffer sb))) [
      | inl wakes ↦
          let (sb', effects) = send_completed sb from_isr in
          (sb', before ++ effects, ground arith, send_completed-SameBytes sb from_isr)
      | inr quiet ↦ (sb, before, ground arith, ground arith)
    ]

pub after_read-SameBytes :
    (from_isr : Bool) (before : List Effect) (xs : List ℕ) (sb : StreamBuffer)
    → (sb' : StreamBuffer) × (effects : List Effect) × (after_read from_isr before (xs, sb)
        ≡ ok (xs, sb', effects))
      × SameBytes sb sb'
unfolding after_read
after_read-SameBytes from_isr before xs sb = elim (Bool-cases (length xs == 0)) [
  | inl nothing ↦ (sb, before, ground arith, ground arith)
  | inr some_bytes ↦
      let (sb', effects) = receive_completed sb from_isr in
      (sb', before ++ effects, ground arith, receive_completed-SameBytes sb from_isr)
]
