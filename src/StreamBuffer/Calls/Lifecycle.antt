-- ===== src/StreamBuffer/Calls/Lifecycle.antt =====
-- Creating and resetting stream buffers, and the wake-up of a waiting receiver.
use freertos_in_rust.Prelude.{
  ℕ, ◌+◌, ◌-◌, ◌^◌, ◌≤◌, ◌<◌, ◌≡◌, refl, ◌⊎◌, inl, inr, true, false, ◌&&◌, Option, none, some, List,
  [], ◌∷◌, arith, leb, ◌==◌, if◌then◌else◌, is_none, Option-cases, length, drop, length-drop,
  Outcome, ok, panic, word_mod,
}
use freertos_in_rust.StreamBuffer.{
  BufferType, stream_buffer, message_buffer, stream_batching_buffer, StreamBuffer,
  initialise_new_stream_buffer, bytes_in_buffer, spaces_available, write_bytes_to_buffer,
  write_data, write_message_to_buffer,
}
use freertos_in_rust.StreamBuffer.Ring.{IsValid, window, contents}
use freertos_in_rust.StreamBuffer.Calls.{
  Effect, notify, after_write, required_space, send_from_isr, reset, type_flags, too_small_for_type,
  generic_create,
}

-- A valid buffer that holds nothing, waits for a byte at least and can take `capacity` bytes.
pub record IsFresh (capacity : ℕ) (sb : StreamBuffer) : Type 0 where
  pub valid : IsValid sb
  pub empty : contents sb ≡ []
  pub space : spaces_available sb ≡ capacity
  pub level : (0 < sb.trigger_level_bytes) × (sb.trigger_level_bytes ≤ capacity)

pub initialise-IsValid :
    (buffer : List ℕ) (size trigger flags : ℕ) (f g : Option ℕ)
    → length buffer ≡ size
    → 0 < size
    → size < 2 ^ 31
    → let sb = initialise_new_stream_buffer buffer size trigger flags f g in
      IsValid sb × (contents sb ≡ []) × (spaces_available sb ≡ size - 1)
unfolding initialise_new_stream_buffer contents bytes_in_buffer spaces_available window
initialise-IsValid buffer size trigger flags f g l p small =
    (record { storage = l; head_in = p; tail_in = p; small = small }, ground arith, ground arith)

initialise-IsFresh :
    (buffer : List ℕ) (size trigger flags : ℕ) (f g : Option ℕ)
    → length buffer ≡ size
    → 0 < size
    → size < 2 ^ 31
    → 0 < trigger
    → trigger ≤ size - 1
    → IsFresh (size - 1) (initialise_new_stream_buffer buffer size trigger flags f g)
unfolding initialise_new_stream_buffer
initialise-IsFresh buffer size trigger flags f g l p small t k =
    let (valid, empty, space) = initialise-IsValid buffer size trigger flags f g l p small in
    record { valid = valid; empty = empty; space = space; level = (t, k) }

abbrev pub GoodArguments : ℕ → ℕ → BufferType → Type 0
GoodArguments size trigger kind =
    (0 < size) × (trigger ≤ size) × (too_small_for_type kind size ≡ false)

abbrev pub BadArguments : ℕ → ℕ → BufferType → Type 0
BadArguments size trigger kind =
    (size ≡ 0) ⊎ (size < trigger) ⊎ (too_small_for_type kind size ≡ true)

module _ (malloc : ℕ → Option (List ℕ)) (struct_size size trigger : ℕ) where
  create_good :
      (kind : BufferType) (f g : Option ℕ)
      → GoodArguments size trigger kind
      → (memory : List ℕ) → malloc (struct_size + (size + 1)) ≡ some memory
      → struct_size + (size + 1) < word_mod
      → generic_create malloc struct_size size trigger kind f g
        ≡ ok (
            some (
              initialise_new_stream_buffer
                (drop struct_size memory)
                (size + 1)
                (if trigger == 0 then 1 else trigger)
                (type_flags kind)
                f
                g))
  unfolding generic_create
  create_good message_buffer f g good memory given small = ground arith
  create_good stream_buffer f g good memory given small = ground arith
  create_good stream_batching_buffer f g good memory given small = ground arith

  create_bad :
      (kind : BufferType) (f g : Option ℕ)
      → BadArguments size trigger kind
      → generic_create malloc struct_size size trigger kind f g ≡ ok none
  unfolding generic_create
  create_bad message_buffer f g bad = ground arith
  create_bad stream_buffer f g bad = ground arith
  create_bad stream_batching_buffer f g bad = ground arith

  create_overflow :
      (kind : BufferType) (f g : Option ℕ)
      → word_mod ≤ struct_size + (size + 1)
      → generic_create malloc struct_size size trigger kind f g ≡ ok none
  unfolding generic_create
  create_overflow message_buffer f g over = ground arith
  create_overflow stream_buffer f g over = ground arith
  create_overflow stream_batching_buffer f g over = ground arith

  create_no_memory :
      (kind : BufferType) (f g : Option ℕ)
      → malloc (struct_size + (size + 1)) ≡ none
      → generic_create malloc struct_size size trigger kind f g ≡ ok none
  unfolding generic_create
  create_no_memory message_buffer f g gone = ground arith
  create_no_memory stream_buffer f g gone = ground arith
  create_no_memory stream_batching_buffer f g gone = ground arith

-- With arguments in range and a block from the allocator, `xStreamBufferGenericCreate` fails no
-- assertion and gives a fresh buffer that can take `size` bytes.
pub generic_create-IsFresh :
    (malloc : ℕ → Option (List ℕ)) (struct_size size trigger : ℕ) (kind : BufferType)
    (f g : Option ℕ) (memory : List ℕ)
    → GoodArguments size trigger kind
    → malloc (struct_size + (size + 1)) ≡ some memory
    → length memory ≡ struct_size + (size + 1)
    → length memory < 2 ^ 31
    → (sb : StreamBuffer) × (generic_create malloc struct_size size trigger kind f g ≡ ok (some sb))
      × IsFresh size sb
generic_create-IsFresh malloc struct_size size trigger kind f g memory good given l small =
    let level : ℕ = if trigger == 0 then 1 else trigger in
    let sb =
      initialise_new_stream_buffer (drop struct_size memory) (size + 1) level (type_flags kind) f
        g in
    let fresh =
      initialise-IsFresh (drop struct_size memory) (size + 1) level (type_flags kind) f g
        (omega (arith, length-drop struct_size memory)) (omega arith) (omega arith) (ground arith)
        (ground arith) in
    let capacity : size + 1 - 1 ≡ size = omega arith in
    (
      sb,
      create_good malloc struct_size size trigger kind f g good memory given (omega arith),
      rw capacity at fresh,
    )

-- With arguments out of range, with a size that overflows, or with no block,
-- `xStreamBufferGenericCreate` fails no assertion and gives no buffer.
pub generic_create_refused :
    (malloc : ℕ → Option (List ℕ)) (struct_size size trigger : ℕ) (kind : BufferType)
    (f g : Option ℕ)
    → BadArguments size trigger kind
      ⊎ (word_mod ≤ struct_size + (size + 1))
      ⊎ (malloc (struct_size + (size + 1)) ≡ none)
    → generic_create malloc struct_size size trigger kind f g ≡ ok none
generic_create_refused malloc struct_size size trigger kind f g (inl bad) =
    create_bad malloc struct_size size trigger kind f g bad
generic_create_refused malloc struct_size size trigger kind f g (inr (inl over)) =
    create_overflow malloc struct_size size trigger kind f g over
generic_create_refused malloc struct_size size trigger kind f g (inr (inr gone)) =
    create_no_memory malloc struct_size size trigger kind f g gone

-- A reset of a valid buffer is done exactly if no task waits. It then empties the buffer, and
-- otherwise changes nothing; either way the buffer stays valid, with its capacity, kind, level and
-- callbacks.
pub reset_lem :
    (sb : StreamBuffer)
    → IsValid sb
    → let (done, sb') = reset sb in
      (done ≡ (is_none sb.task_waiting_to_receive && is_none sb.task_waiting_to_send))
      × IsValid sb'
      × (contents sb' ≡ (if done then [] else contents sb))
      × (bytes_in_buffer sb' + spaces_available sb' ≡ sb.len - 1)
      × (sb'.flags ≡ sb.flags)
      × (sb'.trigger_level_bytes ≡ sb.trigger_level_bytes)
      × (sb'.send_completed_callback ≡ sb.send_completed_callback)
      × (sb'.receive_completed_callback ≡ sb.receive_completed_callback)
      × (sb'.task_waiting_to_receive ≡ sb.task_waiting_to_receive)
      × (sb'.task_waiting_to_send ≡ sb.task_waiting_to_send)
      × ((if done then sb else sb') ≡ sb)
unfolding reset initialise_new_stream_buffer contents bytes_in_buffer spaces_available window
reset_lem sb v = ground arith

-- what a write leaves alone
write_message-keeps :
    (sb : StreamBuffer) (source : List ℕ) (count space required n : ℕ) (sb' : StreamBuffer)
    → write_message_to_buffer sb source count space required ≡ ok (n, sb')
    → (sb'.task_waiting_to_receive ≡ sb.task_waiting_to_receive)
      × (sb'.send_completed_callback ≡ sb.send_completed_callback)
      × (sb'.notification_index ≡ sb.notification_index)
      × (sb'.trigger_level_bytes ≡ sb.trigger_level_bytes)
unfolding write_message_to_buffer write_data write_bytes_to_buffer
write_message-keeps sb source count space required n sb' e = ground arith

-- how a send leaves a waiting receiver: woken from the trigger level on
abbrev pub Woken : StreamBuffer → StreamBuffer → ℕ → List Effect → Type 0
Woken sb sb' task effects =
    let enough = leb sb.trigger_level_bytes (bytes_in_buffer sb') in
    (sb'.task_waiting_to_receive ≡ (if enough then none else some task))
    × (effects ≡ (if enough then notify task sb.notification_index true ∷ [] else []))

after_write-wakes :
    (sb sb' : StreamBuffer) (k n task : ℕ) (effects : List Effect)
    → sb.send_completed_callback ≡ none
    → sb.task_waiting_to_receive ≡ some task
    → after_write true [] (k, sb) ≡ ok (n, sb', effects)
    → 0 < n
    → Woken sb sb' task effects
unfolding after_write bytes_in_buffer
after_write-wakes sb sb' k n task effects no_callback waiting e p = ground arith

-- A send from an interrupt that wrote something and left at least the trigger level of bytes in a
-- buffer without a callback leaves no receiver waiting: the one that was is notified, once. Below the
-- level the receiver goes on waiting and nobody is notified.
pub send-wakes :
    (sb sb' : StreamBuffer) (source : List ℕ) (count n task : ℕ) (effects : List Effect)
    → sb.send_completed_callback ≡ none
    → sb.task_waiting_to_receive ≡ some task
    → send_from_isr sb source count ≡ ok (n, sb', effects)
    → 0 < n
    → Woken sb sb' task effects
unfolding send_from_isr
send-wakes sb sb' source count n task effects no_callback waiting e p =
    elim (Option-cases (required_space sb count)) [
      | inl overflow ↦ absurd (ground arith)
      | inr (required, s) ↦
          go required s (write_message_to_buffer sb source count (spaces_available sb) required)
            refl
    ]
  where
    go :
        (required : ℕ)
        → required_space sb count ≡ some required
        → (r : Outcome (ℕ × StreamBuffer))
        → write_message_to_buffer sb source count (spaces_available sb) required ≡ r
        → Woken sb sb' task effects
    go required s panic w = absurd (ground arith)
    go required s (ok (k, sb₁)) w =
        let kept = write_message-keeps sb source count (spaces_available sb) required k sb₁ w in
        ground (arith, after_write-wakes sb₁ sb' k n task effects)
