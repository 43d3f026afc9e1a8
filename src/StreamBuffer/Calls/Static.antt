-- ===== src/StreamBuffer/Calls/Static.antt =====
-- Buffers in storage of the caller.
use freertos_in_rust.Prelude.{
  ℕ, ◌+◌, ◌-◌, ◌^◌, ◌<◌, ◌≡◌, true, false, Option, some, List, [], arith, length, ok,
}
use freertos_in_rust.StreamBuffer.{
  flags_is_statically_allocated, BufferType, stream_buffer, message_buffer, stream_batching_buffer,
  StreamBuffer, initialise_new_stream_buffer, bytes_in_buffer, spaces_available,
}
use freertos_in_rust.StreamBuffer.Ring.{IsValid, contents, bytes_lt}
use freertos_in_rust.StreamBuffer.Calls.{type_flags, too_small_for_type, generic_create_static}
use freertos_in_rust.StreamBuffer.Calls.Lifecycle.{initialise-IsValid}

create_static :
    (size : ℕ) (kind : BufferType) (storage : List ℕ) (f g : Option ℕ)
    → 0 < size
    → too_small_for_type kind size ≡ false
    → generic_create_static size size kind (some storage) true f g
      ≡ ok (
          some (
            initialise_new_stream_buffer storage size size
              (type_flags kind + flags_is_statically_allocated)
              f
              g))
unfolding generic_create_static
create_static size message_buffer storage f g p fits = ground arith
create_static size stream_buffer storage f g p fits = ground arith
create_static size stream_batching_buffer storage f g p fits = ground arith

-- `xStreamBufferGenericCreateStatic` accepts a trigger level of the whole size of the storage, if
-- that is not 0, not too small for a message buffer and less than 2^31, and gives a valid empty buffer with space for one
-- byte less. No valid state `later` of a buffer of this length holds as many bytes as that level.
pub static_level_lem :
    (size : ℕ) (kind : BufferType) (storage : List ℕ) (f g : Option ℕ) (later : StreamBuffer)
    → 0 < size
    → too_small_for_type kind size ≡ false
    → length storage ≡ size
    → size < 2 ^ 31
    → IsValid later
    → later.len ≡ size
    → (sb : StreamBuffer) × (generic_create_static size size kind (some storage) true f g
        ≡ ok (some sb))
      × IsValid sb
      × (contents sb ≡ [])
      × (spaces_available sb ≡ size - 1)
      × (bytes_in_buffer later < sb.trigger_level_bytes)
unfolding initialise_new_stream_buffer
static_level_lem size kind storage f g later p fits l small v same =
    let flags = type_flags kind + flags_is_statically_allocated in
    let (valid, empty, space) = initialise-IsValid storage size size flags f g l p small in
    (
      initialise_new_stream_buffer storage size size flags f g,
      create_static size kind storage f g p fits,
      valid,
      empty,
      space,
      omega (arith, bytes_lt v),
    )
