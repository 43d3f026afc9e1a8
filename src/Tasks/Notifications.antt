-- ===== src/Tasks/Notifications.antt =====
-- kernel/tasks.rs: task notifications. The state is the notification array of one task. What the
-- scheduler does with a task that is unblocked or goes to sleep is left out, with the assertions on
-- its lists: a call says whether it unblocks the task, and a call that may block is two functions, before and after the wait. The
-- test outside of the critical section is made again inside, and only the second counts.
pub mod Semaphore
pub mod Rendezvous
mod Tests
use Prim.Native.Nat.{bit_or}
use freertos_in_rust.Prelude.{
  ℕ, ◌-◌, Bool, true, false, not, ◌&&◌, List, ltb, ◌==◌, if◌then◌else◌, length, get_or, set,
  Outcome, ok, config_assert, add_word, and_not, ◌>>◌,
}

-- `taskNOT_WAITING_NOTIFICATION`, `taskWAITING_NOTIFICATION`, `taskNOTIFICATION_RECEIVED`
pub data NotifyState : Type 0 where
  not_waiting_notification waiting_notification notification_received : NotifyState

-- `eNotifyAction`
pub data NotifyAction : Type 0 where
  no_action set_value_bits increment set_value_with_overwrite set_value_without_overwrite :
      NotifyAction

-- an entry of `ulNotifiedValue` and of `ucNotifyState`
pub record Slot : Type 0 where
  pub value : ℕ
  pub state : NotifyState

abbrev pub no_slot : Slot
no_slot = record { value = 0; state = not_waiting_notification }

abbrev pub slot_at : List Slot → ℕ → Slot
slot_at slots index = get_or slots index no_slot

abbrev pub is_received : NotifyState → Bool
is_received notification_received = true
is_received _ = false

abbrev pub is_waiting : NotifyState → Bool
is_waiting waiting_notification = true
is_waiting _ = false

-- the new value, and whether the call passes
unfoldable pub act : NotifyAction → ℕ → Slot → Bool × ℕ
act no_action v s = (true, s.value)
act set_value_bits v s = (true, bit_or s.value v)
act increment v s = (true, add_word s.value 1)
act set_value_with_overwrite v s = (true, v)
act set_value_without_overwrite v s = if is_received s.state then (false, s.value) else (true, v)

-- the result of `xTaskGenericNotify`, with the previous value and whether the task is unblocked
pub record Notified : Type 0 where
  pub passed : Bool
  pub previous : ℕ
  pub unblocks : Bool
  pub slots : List Slot

-- `xTaskGenericNotify` and `xTaskGenericNotifyFromISR`
unfoldable pub generic_notify : List Slot → ℕ → ℕ → NotifyAction → Outcome Notified
generic_notify slots index v action = do
  config_assert (ltb index (length slots))
  let original = slot_at slots index
  let (passed, value) = act action v original
  ok (record {
    passed = passed;
    previous = original.value;
    unblocks = is_waiting original.state;
    slots = set slots index (record { value = value; state = notification_received });
  })

-- `xTaskGenericNotifyWait` up to the wait: whether the task blocks
unfoldable pub generic_notify_wait : List Slot → ℕ → ℕ → ℕ → Outcome (Bool × List Slot)
generic_notify_wait slots index clear_on_entry ticks = do
  config_assert (ltb index (length slots))
  let s = slot_at slots index
  if not (is_received s.state) && ltb 0 ticks
      then ok (
        true,
        set slots index
            (record { value = and_not s.value clear_on_entry; state = waiting_notification }),
      )
      else ok (false, slots)

-- `xTaskGenericNotifyWait` after the wait: whether there was a notification, and its value
unfoldable pub generic_notify_wait_resume : List Slot → ℕ → ℕ → Bool × ℕ × List Slot
generic_notify_wait_resume slots index clear_on_exit =
    let s = slot_at slots index in
    if is_received s.state
    then (
      true,
      s.value,
      set slots index
          (record { value = and_not s.value clear_on_exit; state = not_waiting_notification }),
    )
    else (false, s.value, set slots index (record s { state = not_waiting_notification }))

-- `ulTaskNotifyTakeIndexed` up to the wait
unfoldable pub notify_take : List Slot → ℕ → ℕ → Outcome (Bool × List Slot)
notify_take slots index ticks = do
  config_assert (ltb index (length slots))
  let s = slot_at slots index
  if s.value == 0 && ltb 0 ticks
      then ok (true, set slots index (record s { state = waiting_notification }))
      else ok (false, slots)

-- `ulTaskNotifyTakeIndexed` after the wait
unfoldable pub notify_take_resume : List Slot → ℕ → (clear_count_on_exit : Bool) → ℕ × List Slot
notify_take_resume slots index clear =
    let count = (slot_at slots index).value in
    let left = if count == 0 then 0 else if clear then 0 else count - 1 in
    (count, set slots index (record { value = left; state = not_waiting_notification }))

-- `xTaskNotifyStateClearIndexed`
unfoldable pub notify_state_clear : List Slot → ℕ → Outcome (Bool × List Slot)
notify_state_clear slots index = do
  config_assert (ltb index (length slots))
  let s = slot_at slots index
  if is_received s.state
      then ok (true, set slots index (record s { state = not_waiting_notification }))
      else ok (false, slots)

-- `ulTaskNotifyValueClearIndexed`
unfoldable pub notify_value_clear : List Slot → ℕ → ℕ → Outcome (ℕ × List Slot)
notify_value_clear slots index bits_to_clear = do
  config_assert (ltb index (length slots))
  let s = slot_at slots index
  ok (s.value, set slots index (record s { value = and_not s.value bits_to_clear }))
