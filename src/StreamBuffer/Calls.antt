-- ===== src/StreamBuffer/Calls.antt =====
-- kernel/stream_buffer.rs: the calls of the API. What a call asks of the scheduler (tasks.rs) and
-- of the application's callbacks is returned as a list of effects, in order. A callback's own code
-- is the application's, and does nothing to the buffer here.
pub mod Wakeups
mod Tests
pub mod Lifecycle
pub mod Bytes
pub mod Exchange
pub mod Messages
pub mod Queries
pub mod Static
use freertos_in_rust.Prelude.{
  ℕ, ◌+◌, Bool, true, false, ◌&&◌, ◌||◌, Option, none, some, List, ◌∷◌, ◌++◌, ltb, leb, ◌==◌,
  if◌then◌else◌, is_none, length, drop, Outcome, ok, panic, ◌>>=◌, config_assert, word_mod, [],
  ◌>>◌,
}
use freertos_in_rust.StreamBuffer.{
  bytes_to_store_message_length, flags_is_message_buffer, flags_is_statically_allocated,
  flags_is_batching_buffer, BufferType, stream_buffer, message_buffer, stream_batching_buffer,
  StreamBuffer, is_message_buffer, initialise_new_stream_buffer, bytes_in_buffer, spaces_available,
  write_message_to_buffer, read_message_from_buffer,
}

pub data Effect : Type 0 where
  -- `xTaskNotifyIndexed` or `xTaskNotifyIndexedFromISR` with `eNoAction`: task, index, from an ISR
  notify : ℕ → ℕ → Bool → Effect
  -- a completion callback, and whether from an ISR
  callback : ℕ → Bool → Effect
  -- `xTaskNotifyStateClearIndexed` of the current task
  clear_notify_state : ℕ → Effect
  -- `xTaskNotifyWaitIndexed`: index and ticks
  notify_wait : ℕ → ℕ → Effect

abbrev pub Call : Type 0 → Type 0
Call A = Outcome (A × StreamBuffer × List Effect)

-- `sbSEND_COMPLETED`, `sbSEND_COMPLETE_FROM_ISR`: the level is read again before the wake-up, and
-- `prvTakeWaitingTask` empties the slot.
unfoldable pub wake_receiver : StreamBuffer → Bool → StreamBuffer × List Effect
wake_receiver sb from_isr =
    if ltb (bytes_in_buffer sb) sb.trigger_level_bytes
    then (sb, [])
    else elim sb.task_waiting_to_receive [
      | none ↦ (sb, [])
      | some task ↦ (
        record sb { task_waiting_to_receive = none },
        notify task sb.notification_index from_isr ∷ [],
      )
    ]

-- `sbRECEIVE_COMPLETED`, `sbRECEIVE_COMPLETED_FROM_ISR`
unfoldable pub wake_sender : StreamBuffer → Bool → StreamBuffer × List Effect
wake_sender sb from_isr = elim sb.task_waiting_to_send [
  | none ↦ (sb, [])
  | some task ↦
      (record sb { task_waiting_to_send = none }, notify task sb.notification_index from_isr ∷ [])
]

-- `prvSEND_COMPLETED`, `prvSEND_COMPLETE_FROM_ISR`
unfoldable pub send_completed : StreamBuffer → Bool → StreamBuffer × List Effect
unfolding wake_receiver
send_completed sb from_isr = elim sb.send_completed_callback [
  | some id ↦ (sb, callback id from_isr ∷ [])
  | none ↦ wake_receiver sb from_isr
]

-- `prvRECEIVE_COMPLETED`, `prvRECEIVE_COMPLETED_FROM_ISR`
unfoldable pub receive_completed : StreamBuffer → Bool → StreamBuffer × List Effect
unfolding wake_sender
receive_completed sb from_isr = elim sb.receive_completed_callback [
  | some id ↦ (sb, callback id from_isr ∷ [])
  | none ↦ wake_sender sb from_isr
]

-- the end of both send calls
unfoldable pub after_write : Bool → List Effect → ℕ × StreamBuffer → Call ℕ
unfolding send_completed
after_write from_isr before (written, sb) =
    if ltb 0 written && leb sb.trigger_level_bytes (bytes_in_buffer sb)
    then (let (sb', effects) = send_completed sb from_isr in ok (written, sb', before ++ effects))
    else ok (written, sb, before)

-- the end of both receive calls
unfoldable pub after_read : Bool → List Effect → List ℕ × StreamBuffer → Call (List ℕ)
unfolding receive_completed
after_read from_isr before (bytes, sb) =
    if length bytes == 0
    then ok (bytes, sb, before)
    else (let (sb', effects) = receive_completed sb from_isr in ok (bytes, sb', before ++ effects))

-- `checked_add` of the length prefix
unfoldable pub required_space : StreamBuffer → ℕ → Option ℕ
required_space sb count =
    if is_message_buffer sb
    then if ltb (count + bytes_to_store_message_length) word_mod
      then some (count + bytes_to_store_message_length)
      else none
    else some count

-- `xStreamBufferSendFromISR`
unfoldable pub send_from_isr : StreamBuffer → List ℕ → ℕ → Call ℕ
send_from_isr sb source count = elim (required_space sb count) [
  | none ↦ ok (0, sb, [])
  | some required ↦
      write_message_to_buffer sb source count (spaces_available sb) required >>= after_write true []
]

-- `xStreamBufferReceiveFromISR`
unfoldable pub receive_from_isr : StreamBuffer → ℕ → Call (List ℕ)
receive_from_isr sb capacity =
    let available = bytes_in_buffer sb in
    if ltb (if is_message_buffer sb then bytes_to_store_message_length else 0) available
    then read_message_from_buffer sb capacity available >>= after_read true []
    else ok ([], sb, [])

-- `xStreamBufferSendCompletedFromISR`
unfoldable pub send_completed_from_isr : StreamBuffer → Bool × StreamBuffer × List Effect
send_completed_from_isr sb = elim sb.task_waiting_to_receive [
  | none ↦ (false, sb, [])
  | some task ↦ (
    true,
    record sb { task_waiting_to_receive = none },
    notify task sb.notification_index true ∷ [],
  )
]

-- `xStreamBufferReceiveCompletedFromISR`
unfoldable pub receive_completed_from_isr : StreamBuffer → Bool × StreamBuffer × List Effect
receive_completed_from_isr sb = elim sb.task_waiting_to_send [
  | none ↦ (false, sb, [])
  | some task ↦
      (true, record sb { task_waiting_to_send = none }, notify task sb.notification_index true ∷ [])
]

-- `xStreamBufferReset` and `xStreamBufferResetFromISR`
unfoldable pub reset : StreamBuffer → Bool × StreamBuffer
reset sb =
    if is_none sb.task_waiting_to_receive && is_none sb.task_waiting_to_send
    then (
      true,
      initialise_new_stream_buffer sb.buffer sb.len sb.trigger_level_bytes sb.flags
          sb.send_completed_callback sb.receive_completed_callback,
    )
    else (false, sb)

abbrev pub type_flags : BufferType → ℕ
type_flags message_buffer = flags_is_message_buffer
type_flags stream_batching_buffer = flags_is_batching_buffer
type_flags stream_buffer = 0

abbrev pub too_small_for_type : BufferType → ℕ → Bool
too_small_for_type message_buffer size = leb size bytes_to_store_message_length
too_small_for_type _ size = false

-- `configASSERT(size > sbBYTES_TO_STORE_MESSAGE_LENGTH)` or `> 0`
abbrev pub assert_size : BufferType → ℕ → Outcome (Unit {0})
assert_size message_buffer size = config_assert (ltb bytes_to_store_message_length size)
assert_size _ size = config_assert (ltb 0 size)

-- `xStreamBufferGenericCreate`: `malloc` is `pvPortMalloc`, which gives the bytes of a new block, and
-- `struct_size` is `size_of::<StreamBuffer_t>()`.
unfoldable pub generic_create :
    (malloc : ℕ → Option (List ℕ)) (struct_size : ℕ)
    → ℕ
    → ℕ
    → BufferType
    → Option ℕ
    → Option ℕ
    → Outcome (Option StreamBuffer)
generic_create malloc struct_size size trigger kind send_callback receive_callback =
    if size == 0 || (ltb size trigger || too_small_for_type kind size) then ok none else (do
      assert_size kind size
      config_assert (leb trigger size)
      if ltb (size + 1) word_mod && ltb (struct_size + (size + 1)) word_mod
          then ok (elim (malloc (struct_size + (size + 1))) [
            | none ↦ none
            | some memory ↦ some (
                initialise_new_stream_buffer (drop struct_size memory) (size + 1)
                  (if trigger == 0 then 1 else trigger) (type_flags kind) send_callback
                  receive_callback)
          ])
          else ok none)

-- the same of a buffer in storage of the caller, without a test for a plain stream buffer
abbrev pub assert_static_size : BufferType → ℕ → Outcome (Unit {0})
assert_static_size message_buffer size = config_assert (ltb bytes_to_store_message_length size)
assert_static_size stream_batching_buffer size = config_assert (ltb 0 size)
assert_static_size stream_buffer size = ok tt

-- `xStreamBufferGenericCreateStatic`, with the storage area and whether the object's is not null
unfoldable pub generic_create_static :
    ℕ
    → ℕ
    → BufferType
    → Option (List ℕ)
    → Bool
    → Option ℕ
    → Option ℕ
    → Outcome (Option StreamBuffer)
generic_create_static size trigger kind none object send_callback receive_callback = panic
generic_create_static size trigger kind (some storage) object send_callback receive_callback = do
  config_assert object
  config_assert (leb trigger size)
  if size == 0 || too_small_for_type kind size then ok none else (do
    assert_static_size kind size
    ok (
        some (
          initialise_new_stream_buffer storage size (if trigger == 0 then 1 else trigger)
            (type_flags kind + flags_is_statically_allocated) send_callback receive_callback)))
