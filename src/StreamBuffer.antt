-- ===== src/StreamBuffer.antt =====
-- kernel/stream_buffer.rs: the stream and message buffer object, its circular byte storage and the
-- framing of messages. The storage behind `pucBuffer` is a list of bytes. Traces, and the critical
-- sections that make each call atomic, have no counterpart here.
pub mod Calls
pub mod Framing
pub mod Ring
use Prim.Native.Nat.{bit_and}
use freertos_in_rust.Prelude.{
  ℕ, ◌+◌, ◌-◌, ◌*◌, ◌/◌, ◌%◌, ◌^◌, min, Bool, true, false, not, Option, none, List, ◌∷◌, ◌++◌, ltb,
  leb, ◌==◌, if◌then◌else◌, Outcome, ok, ◌>>=◌, config_assert, add_word, sub_word, word_max, take,
  drop, copy_at, [], ◌>>◌,
}

-- `sbBYTES_TO_STORE_MESSAGE_LENGTH`, the size of `configMESSAGE_BUFFER_LENGTH_TYPE` (a `u32`).
abbrev pub bytes_to_store_message_length : ℕ
bytes_to_store_message_length = 4

abbrev pub flags_is_message_buffer : ℕ
flags_is_message_buffer = 1

abbrev pub flags_is_statically_allocated : ℕ
flags_is_statically_allocated = 2

abbrev pub flags_is_batching_buffer : ℕ
flags_is_batching_buffer = 4

-- `xStreamBufferType`
pub data BufferType : Type 0 where
  stream_buffer message_buffer stream_batching_buffer : BufferType

-- `StreamBuffer_t`. A task handle or a callback is a number; a null one is `none`.
pub record StreamBuffer : Type 0 where
  pub tail : ℕ
  pub head : ℕ
  pub len : ℕ
  pub trigger_level_bytes : ℕ
  pub task_waiting_to_receive : Option ℕ
  pub task_waiting_to_send : Option ℕ
  pub buffer : List ℕ
  pub flags : ℕ
  pub send_completed_callback : Option ℕ
  pub receive_completed_callback : Option ℕ
  pub notification_index : ℕ

-- `ucFlags & sbFLAGS_IS_MESSAGE_BUFFER != 0`
unfoldable pub is_message_buffer : StreamBuffer → Bool
is_message_buffer sb = not (bit_and sb.flags flags_is_message_buffer == 0)

unfoldable pub initialise_new_stream_buffer :
    List ℕ → ℕ → ℕ → ℕ → Option ℕ → Option ℕ → StreamBuffer
initialise_new_stream_buffer buffer size trigger flags send_callback receive_callback = record {
  tail = 0;
  head = 0;
  len = size;
  trigger_level_bytes = trigger;
  task_waiting_to_receive = none;
  task_waiting_to_send = none;
  buffer = buffer;
  flags = flags;
  send_completed_callback = send_callback;
  receive_completed_callback = receive_callback;
  notification_index = 0;
}

unfoldable pub bytes_in_buffer : StreamBuffer → ℕ
bytes_in_buffer sb =
    let count = sub_word (add_word sb.len sb.head) sb.tail in
    if leb sb.len count then sub_word count sb.len else count

unfoldable pub spaces_available : StreamBuffer → ℕ
spaces_available sb =
    let space = sub_word (sub_word (add_word sb.len sb.tail) sb.head) 1 in
    if leb sb.len space then sub_word space sb.len else space

unfoldable pub is_empty : StreamBuffer → Bool
is_empty sb = sb.head == sb.tail

unfoldable pub is_full : StreamBuffer → Bool
is_full sb =
    leb (spaces_available sb) (if is_message_buffer sb then bytes_to_store_message_length else 0)

unfoldable pub set_trigger_level : StreamBuffer → ℕ → Bool × StreamBuffer
set_trigger_level sb level =
    let level' = if level == 0 then 1 else level in
    if ltb level' sb.len then (true, record sb { trigger_level_bytes = level' }) else (false, sb)

-- `xHead += xCount`, brought back into the storage
unfoldable pub advance : ℕ → ℕ → ℕ → ℕ
advance len index count =
    let index' = add_word index count in if leb len index' then sub_word index' len else index'

-- the two copies of `prvWriteBytesToBuffer`: up to the end of the storage, and on from its start
unfoldable pub splice : List ℕ → ℕ → ℕ → List ℕ → ℕ → List ℕ
splice buffer len head source count =
    let first_length = min (sub_word len head) count in
    let first = copy_at buffer head source first_length in
    if ltb first_length count
    then copy_at first 0 (drop first_length source) (count - first_length)
    else first

-- the two copies of `prvReadBytesFromBuffer`
unfoldable pub gather : List ℕ → ℕ → ℕ → ℕ → List ℕ
gather buffer len tail count =
    let first_length = min (sub_word len tail) count in
    let first = take first_length (drop tail buffer) in
    if ltb first_length count then first ++ take (count - first_length) buffer else first

-- `prvWriteBytesToBuffer`: the new head, and the buffer with the bytes copied in two chunks.
unfoldable pub write_bytes_to_buffer : StreamBuffer → List ℕ → ℕ → ℕ → Outcome (ℕ × StreamBuffer)
write_bytes_to_buffer sb source count head = do
  config_assert (ltb 0 count)
  ok (advance sb.len head count, record sb { buffer = splice sb.buffer sb.len head source count })

-- `prvReadBytesFromBuffer`: the bytes copied out in two chunks, and the new tail.
unfoldable pub read_bytes_from_buffer : StreamBuffer → ℕ → ℕ → Outcome (List ℕ × ℕ)
read_bytes_from_buffer sb count tail = do
  config_assert (ltb 0 count)
  ok (gather sb.buffer sb.len tail count, advance sb.len tail count)

-- The four bytes of a `u32` in memory, least significant first, and the `u32` that they make.
unfoldable pub to_le_bytes : ℕ → List ℕ
to_le_bytes n = n % 256 ∷ n / 256 % 256 ∷ n / 2 ^ 16 % 256 ∷ n / 2 ^ 24 % 256 ∷ []

unfoldable pub from_le_bytes : List ℕ → ℕ
from_le_bytes [] = 0
from_le_bytes (b ∷ bs) = b + 256 * from_le_bytes bs

-- the store to `xHead` that publishes the bytes
publish : ℕ → ℕ × StreamBuffer → Outcome (ℕ × StreamBuffer)
publish count (head, sb) = ok (count, record sb { head = head })

unfoldable pub write_data : StreamBuffer → List ℕ → ℕ → ℕ → Outcome (ℕ × StreamBuffer)
unfolding publish
write_data sb source count next_head =
    if count == 0
    then ok (0, sb)
    else write_bytes_to_buffer sb source count next_head >>= publish count

-- `prvWriteMessageToBuffer`: the number of bytes written (without the length prefix).
unfoldable pub write_message_to_buffer :
    StreamBuffer → List ℕ → ℕ → ℕ → ℕ → Outcome (ℕ × StreamBuffer)
write_message_to_buffer sb source count space required =
    if is_message_buffer sb
    then if leb required space
      then if ltb word_max count then ok (0, sb) else (do
        (next_head, sb') ←
            write_bytes_to_buffer sb (to_le_bytes count) bytes_to_store_message_length sb.head
        write_data sb' source count next_head)
      else write_data sb source 0 sb.head
    else write_data sb source (min count space) sb.head

consume : ℕ → StreamBuffer → List ℕ × ℕ → Outcome (List ℕ × StreamBuffer)
consume count sb (bytes, tail) = ok (bytes, record sb { tail = tail })

unfoldable pub read_data : StreamBuffer → ℕ → ℕ → Outcome (List ℕ × StreamBuffer)
unfolding consume
read_data sb count next_tail =
    if count == 0
    then ok ([], sb)
    else read_bytes_from_buffer sb count next_tail >>= consume count sb

-- `prvReadMessageFromBuffer`: the bytes put into the caller's buffer; the returned length is theirs.
unfoldable pub read_message_from_buffer : StreamBuffer → ℕ → ℕ → Outcome (List ℕ × StreamBuffer)
read_message_from_buffer sb capacity available =
    if is_message_buffer sb
    then (do
      (prefix, next_tail) ← read_bytes_from_buffer sb bytes_to_store_message_length sb.tail
      let next_message_length = from_le_bytes prefix
      let rest = sub_word available bytes_to_store_message_length
      if ltb capacity next_message_length
          then ok ([], sb)
          else read_data sb (min next_message_length rest) next_tail)
    else read_data sb (min capacity available) sb.tail

unfoldable pub next_message_length_bytes : StreamBuffer → Outcome ℕ
next_message_length_bytes sb =
    if is_message_buffer sb
    then if ltb bytes_to_store_message_length (bytes_in_buffer sb)
      then (do
        (prefix, _) ← read_bytes_from_buffer sb bytes_to_store_message_length sb.tail
        ok (from_le_bytes prefix))
      else (do config_assert (bytes_in_buffer sb == 0); ok 0)
    else ok 0
