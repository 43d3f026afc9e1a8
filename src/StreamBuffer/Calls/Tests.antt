-- ===== src/StreamBuffer/Calls/Tests.antt =====
-- The theorems on stream and message buffers at concrete buffers, and runs of the calls.
use freertos_in_rust.Prelude.{
  ℕ, ◌+◌, ◌-◌, ◌<◌, ◌≡◌, refl, inl, inr, true, ◌&&◌, Option, none, some, List, [], ◌∷◌, arith, ◌==◌,
  if◌then◌else◌, is_none, ok,
}
use freertos_in_rust.StreamBuffer.{
  stream_buffer, message_buffer, StreamBuffer, is_message_buffer, bytes_in_buffer, spaces_available,
  advance, splice, gather, write_bytes_to_buffer, read_bytes_from_buffer, to_le_bytes,
  from_le_bytes, write_data, write_message_to_buffer, read_data, read_message_from_buffer,
}
use freertos_in_rust.StreamBuffer.Ring.{IsValid, window, contents}
use freertos_in_rust.StreamBuffer.Calls.{
  notify, after_write, after_read, required_space, send_from_isr, receive_from_isr, reset,
  generic_create, generic_create_static,
}
use freertos_in_rust.StreamBuffer.Calls.Messages.{frames, Holds}
use freertos_in_rust.StreamBuffer.Calls.Exchange.{
  Op, send, receive, sent, received, run, run_queue, run_refines,
}
use freertos_in_rust.StreamBuffer.Calls.Static.{static_level_lem}
use freertos_in_rust.StreamBuffer.Calls.Bytes.{
  HoldsBytes, AnswersBytes, send_bytes, receive_bytes, send_bytes_refines, receive_bytes_refines,
}
use freertos_in_rust.StreamBuffer.Calls.Lifecycle.{
  IsFresh, generic_create-IsFresh, generic_create_refused, reset_lem, Woken, send-wakes,
}

-- A message buffer of ten bytes whose one message, 11 and 22, goes round the end of the storage.
abbrev one_message : StreamBuffer
one_message = record {
  tail = 7;
  head = 3;
  len = 10;
  trigger_level_bytes = 1;
  task_waiting_to_receive = some 5;
  task_waiting_to_send = none;
  buffer = 0 ∷ 11 ∷ 22 ∷ 9 ∷ 9 ∷ 9 ∷ 9 ∷ 2 ∷ 0 ∷ 0 ∷ [];
  flags = 1;
  send_completed_callback = none;
  receive_completed_callback = none;
  notification_index = 0;
}

-- The same bytes in a stream buffer.
abbrev six_bytes : StreamBuffer
six_bytes = record one_message { flags = 0 }

-- An empty buffer with a receiver that waits for three bytes.
abbrev waiting : StreamBuffer
waiting = record one_message { flags = 0; tail = 3; trigger_level_bytes = 3 }

one_message-Holds : Holds one_message ((11 ∷ 22 ∷ []) ∷ [])
unfolding contents bytes_in_buffer window frames to_le_bytes is_message_buffer
one_message-Holds = record { valid = omega arith; kind = refl; framed = refl; sized = omega arith }

six_bytes-HoldsBytes : HoldsBytes six_bytes (2 ∷ 0 ∷ 0 ∷ 0 ∷ 11 ∷ 22 ∷ [])
unfolding contents bytes_in_buffer window is_message_buffer
six_bytes-HoldsBytes = record { valid = omega arith; kind = refl; held = refl }

abbrev script : List Op
script = receive 1 ∷ send (7 ∷ []) ∷ receive 2 ∷ send (7 ∷ 8 ∷ []) ∷ receive 9 ∷ []

script_replies :
    run one_message script
    ≡ ok (received [] ∷ sent 0 ∷ received (11 ∷ 22 ∷ []) ∷ sent 2 ∷ received (7 ∷ 8 ∷ []) ∷ [])
unfolding run send_from_isr receive_from_isr write_message_to_buffer read_message_from_buffer
    write_data read_data write_bytes_to_buffer read_bytes_from_buffer splice gather advance
    to_le_bytes from_le_bytes spaces_available bytes_in_buffer is_message_buffer required_space
    after_write after_read
script_replies = refl

run_refines_example : run one_message script ≡ ok (run_queue 9 ((11 ∷ 22 ∷ []) ∷ []) script)
run_refines_example = run_refines script one_message-Holds

send_bytes_refines_example :
    AnswersBytes six_bytes
      (send_from_isr six_bytes (1 ∷ 2 ∷ 3 ∷ 4 ∷ []) 4)
      (send_bytes 9 (2 ∷ 0 ∷ 0 ∷ 0 ∷ 11 ∷ 22 ∷ []) (1 ∷ 2 ∷ 3 ∷ 4 ∷ []))
send_bytes_refines_example = send_bytes_refines six_bytes-HoldsBytes (1 ∷ 2 ∷ 3 ∷ 4 ∷ [])

receive_bytes_refines_example :
    AnswersBytes six_bytes
      (receive_from_isr six_bytes 5)
      (receive_bytes (2 ∷ 0 ∷ 0 ∷ 0 ∷ 11 ∷ 22 ∷ []) 5)
receive_bytes_refines_example = receive_bytes_refines six_bytes-HoldsBytes 5

abbrev woken : StreamBuffer
woken = record waiting {
  head = 6;
  buffer = 0 ∷ 11 ∷ 22 ∷ 1 ∷ 2 ∷ 3 ∷ 9 ∷ 2 ∷ 0 ∷ 0 ∷ [];
  task_waiting_to_receive = none;
}

send-wakes_example : Woken waiting woken 5 (notify 5 0 true ∷ [])
unfolding send_from_isr write_message_to_buffer write_data write_bytes_to_buffer splice advance
    spaces_available bytes_in_buffer is_message_buffer required_space after_write
send-wakes_example =
    send-wakes waiting woken (1 ∷ 2 ∷ 3 ∷ []) 3 3 5 (notify 5 0 true ∷ []) refl refl refl
      (omega arith)

reset_lem_example :
    let (done, sb') = reset six_bytes in
    (done ≡ (is_none six_bytes.task_waiting_to_receive && is_none six_bytes.task_waiting_to_send))
    × IsValid sb'
    × (contents sb' ≡ (if done then [] else contents six_bytes))
    × (bytes_in_buffer sb' + spaces_available sb' ≡ 10 - 1)
    × (sb'.flags ≡ 0)
    × (sb'.trigger_level_bytes ≡ 1)
    × (sb'.send_completed_callback ≡ none)
    × (sb'.receive_completed_callback ≡ none)
    × (sb'.task_waiting_to_receive ≡ six_bytes.task_waiting_to_receive)
    × (sb'.task_waiting_to_send ≡ six_bytes.task_waiting_to_send)
    × ((if done then six_bytes else sb') ≡ six_bytes)
reset_lem_example = reset_lem six_bytes (omega arith)

-- an allocator with one block of eight bytes
abbrev block : List ℕ
block = 0 ∷ 1 ∷ 2 ∷ 3 ∷ 4 ∷ 5 ∷ 6 ∷ 7 ∷ []

abbrev small_heap : ℕ → Option (List ℕ)
small_heap n = if n == 8 then some block else none

generic_create-IsFresh_example :
    (sb : StreamBuffer) × (generic_create small_heap 2 5 0 message_buffer none none ≡ ok (some sb))
    × IsFresh 5 sb
generic_create-IsFresh_example =
    generic_create-IsFresh small_heap 2 5 0 message_buffer none none block
      (omega arith, omega arith, refl) refl refl (omega arith)

generic_create_refused_example : generic_create small_heap 2 4 0 message_buffer none none ≡ ok none
generic_create_refused_example =
    generic_create_refused small_heap 2 4 0 message_buffer none none (inl (inr (inr refl)))

static_level_lem_example :
    (sb : StreamBuffer) × (generic_create_static 10 10 stream_buffer
        (some six_bytes.buffer)
        true
        none
        none
      ≡ ok (some sb))
    × IsValid sb
    × (contents sb ≡ [])
    × (spaces_available sb ≡ 9)
    × (bytes_in_buffer six_bytes < sb.trigger_level_bytes)
static_level_lem_example =
    static_level_lem 10 stream_buffer six_bytes.buffer none none six_bytes (omega arith) refl refl
      (omega arith) six_bytes-HoldsBytes.valid refl
