-- ===== src/StreamBuffer/Calls/Queries.antt =====
-- What a message buffer tells of itself.
use freertos_in_rust.Prelude.{
  ℕ, ◌+◌, ◌-◌, ◌<◌, ◌≡◌, refl, Bool, true, false, List, [], ◌∷◌, ◌++◌, arith, ◌==◌, length, ok,
  word_mod,
}
use freertos_in_rust.StreamBuffer.{
  StreamBuffer, bytes_in_buffer, is_empty, is_full, next_message_length_bytes,
}
use freertos_in_rust.StreamBuffer.Ring.{IsValid, bytes-add-spaces, bytes_lt}
use freertos_in_rust.StreamBuffer.Framing.{from_le_bytes-to_le_bytes}
use freertos_in_rust.StreamBuffer.Framing.Reading.{read_prefix}
use freertos_in_rust.StreamBuffer.Calls.Messages.{frames, total, Holds, send_message, bytes-total}

unfoldable pub first_length : List (List ℕ) → ℕ
first_length [] = 0
first_length (m ∷ ms) = length m

abbrev pub has_none : List (List ℕ) → Bool
has_none [] = true
has_none (m ∷ ms) = false

module _ {sb : StreamBuffer} where
  empty-bytes : IsValid sb → is_empty sb ≡ (bytes_in_buffer sb == 0)
  unfolding is_empty bytes_in_buffer
  empty-bytes v = ground arith

  empty-messages : (ms : List (List ℕ)) → Holds sb ms → (total ms == 0) ≡ has_none ms
  unfolding total
  empty-messages [] h = refl
  empty-messages (m ∷ ms) h = ground (arith, h.sized)

  next_length :
      (ms : List (List ℕ)) → Holds sb ms → next_message_length_bytes sb ≡ ok (first_length ms)
  unfolding next_message_length_bytes first_length total frames
  next_length [] h = ground (arith, h.kind, bytes-total h)
  next_length (m ∷ ms) h =
      let bytes : bytes_in_buffer sb ≡ length m + 4 + total ms = bytes-total h in
      let small : length m < word_mod = omega (arith, bytes_lt h.valid, h.valid.small) in
      ground (
        arith,
        h.kind,
        h.sized,
        read_prefix h.valid (length m) (m ++ frames ms) small h.framed,
        from_le_bytes-to_le_bytes (length m) small,
      )

-- A valid message buffer says that it is empty exactly if it holds no message, that it is full
-- exactly if not even a message of one byte would be sent, and what the length of its oldest message
-- is, with 0 for none; no assertion fails.
pub queries_lem :
    {sb : StreamBuffer} {ms : List (List ℕ)} (byte : ℕ)
    → Holds sb ms
    → (is_empty sb ≡ has_none ms)
      × (is_full sb ≡ ((send_message (sb.len - 1) ms (byte ∷ [])).0 == 0))
      × (next_message_length_bytes sb ≡ ok (first_length ms))
unfolding is_full send_message
queries_lem {ms = ms} byte h = (
  ground (arith, empty-bytes h.valid, bytes-total h, empty-messages ms h),
  ground (arith, h.kind, bytes-add-spaces h.valid, bytes-total h),
  next_length ms h,
)
