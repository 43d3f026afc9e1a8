-- ===== src/EventGroups.antt =====
-- kernel/event_groups.rs, with 32-bit event words. A group is its bits and the tasks that wait, in
-- the order of the unordered event list (tasks.rs, `vTaskPlaceOnUnorderedEventList`,
-- `xTaskRemoveFromUnorderedEventList`): each with the value of its event list item. A task that is
-- taken off the list is returned with its new item value; what the scheduler then does with it is not
-- part of this module. A call that may block is two functions, before and after the wait.
pub mod Waiting
pub mod Quiet
pub mod Keeps
pub mod Steps
pub mod Wakeups
pub mod Rendezvous
mod Tests
use Prim.Native.Nat.{bit_and, bit_or}
use freertos_in_rust.Prelude.{
  ℕ, Bool, true, false, not, ◌&&◌, List, ◌∷◌, ◌++◌, ◌==◌, if◌then◌else◌, Outcome, ok, config_assert,
  and_not, [], ◌>>=◌, ◌>>◌,
}

abbrev pub clear_events_on_exit_bit : ℕ
clear_events_on_exit_bit = 0x0100_0000

abbrev pub unblocked_due_to_bit_set : ℕ
unblocked_due_to_bit_set = 0x0200_0000

abbrev pub wait_for_all_bits : ℕ
wait_for_all_bits = 0x0400_0000

abbrev pub event_bits_control_bytes : ℕ
event_bits_control_bytes = 0xFF00_0000

-- `taskEVENT_LIST_ITEM_VALUE_IN_USE`
abbrev pub item_value_in_use : ℕ
item_value_in_use = 0x8000_0000

pub record Waiter : Type 0 where
  pub task : ℕ
  pub item_value : ℕ

pub record EventGroup : Type 0 where
  pub event_bits : ℕ
  pub tasks_waiting_for_bits : List Waiter

-- `prvTestWaitCondition`
unfoldable pub test_wait_condition : ℕ → ℕ → Bool → Bool
test_wait_condition current wanted all =
    if all then bit_and current wanted == wanted else not (bit_and current wanted == 0)

-- the test of the loop in `xEventGroupSetBits`, on the value of a list item
unfoldable pub is_match : ℕ → ℕ → Bool
is_match current value =
    let control = bit_and value event_bits_control_bytes in
    let wanted = and_not value event_bits_control_bytes in
    if bit_and control wait_for_all_bits == 0
    then not (bit_and wanted current == 0)
    else bit_and wanted current == wanted

-- `vTaskPlaceOnUnorderedEventList`: the current task goes to the end of the list.
unfoldable pub place : EventGroup → ℕ → ℕ → EventGroup
place g task value = record g {
  tasks_waiting_for_bits =
      g.tasks_waiting_for_bits
      ++ (record { task = task; item_value = bit_or value item_value_in_use } ∷ []);
}

-- what the loop of `xEventGroupSetBits` leaves: the waiters that stay, those taken off with their new
-- item values, and the bits to clear
pub record Scan : Type 0 where
  pub kept : List Waiter
  pub unblocked : List Waiter
  pub bits_to_clear : ℕ

-- `uxBitsToClear` after the list item `w`
unfoldable pub add_bits_to_clear : ℕ → ℕ → Waiter → ℕ
add_bits_to_clear current to_clear w =
    let control = bit_and w.item_value event_bits_control_bytes in
    if is_match current w.item_value && not (bit_and control clear_events_on_exit_bit == 0)
    then bit_or to_clear (and_not w.item_value event_bits_control_bytes)
    else to_clear

unfoldable pub scan : ℕ → ℕ → List Waiter → Scan
scan current to_clear [] = record { kept = []; unblocked = []; bits_to_clear = to_clear }
scan current to_clear (w ∷ ws) =
    let rest = scan current (add_bits_to_clear current to_clear w) ws in
    if is_match current w.item_value
    then record rest {
      unblocked =
          record w {
            item_value = bit_or (bit_or current unblocked_due_to_bit_set) item_value_in_use;
          }
          ∷ rest.unblocked;
    }
    else record rest { kept = w ∷ rest.kept }

-- `xEventGroupSetBits`
unfoldable pub set_bits : EventGroup → ℕ → Outcome (ℕ × EventGroup × List Waiter)
set_bits g bits_to_set = do
  config_assert (bit_and bits_to_set event_bits_control_bytes == 0)
  let current = bit_or g.event_bits bits_to_set
  let s = scan current 0 g.tasks_waiting_for_bits
  let left = and_not current s.bits_to_clear
  ok (left, record { event_bits = left; tasks_waiting_for_bits = s.kept }, s.unblocked)

-- `xEventGroupClearBits`, and with 0 `xEventGroupGetBits`
unfoldable pub clear_bits : EventGroup → ℕ → Outcome (ℕ × EventGroup)
clear_bits g bits_to_clear = do
  config_assert (bit_and bits_to_clear event_bits_control_bytes == 0)
  ok (g.event_bits, record g { event_bits = and_not g.event_bits bits_to_clear })

-- How a call goes on: it returns, or its task has been put on the list and waits.
pub data Entered : Type 0 where
  returns : ℕ → EventGroup → Entered
  blocks : EventGroup → Entered

abbrev pub control_bits : Bool → Bool → ℕ
control_bits true true = bit_or clear_events_on_exit_bit wait_for_all_bits
control_bits true false = clear_events_on_exit_bit
control_bits false true = wait_for_all_bits
control_bits false false = 0

-- `xEventGroupWaitBits` up to the wait, called by `task`
unfoldable pub wait_bits :
    (scheduler_suspended : Bool)
    → ℕ
    → EventGroup
    → ℕ
    → (clear_on_exit wait_for_all : Bool) → ℕ
    → Outcome Entered
wait_bits suspended task g wanted clear all ticks = do
  config_assert (bit_and wanted event_bits_control_bytes == 0)
  config_assert (not (wanted == 0))
  config_assert (not (suspended && not (ticks == 0)))
  if test_wait_condition g.event_bits wanted all
      then ok (
          returns g.event_bits
            (if clear then record g { event_bits = and_not g.event_bits wanted } else g))
      else if ticks == 0
      then ok (returns g.event_bits g)
      else ok (blocks (place g task (bit_or wanted (control_bits clear all))))

-- `xEventGroupWaitBits` from the wake-up on, with the value that the task's event item has then
unfoldable pub wait_bits_resume :
    EventGroup → ℕ → (clear_on_exit wait_for_all : Bool) → ℕ → ℕ × EventGroup
wait_bits_resume g wanted clear all value =
    if bit_and value unblocked_due_to_bit_set == 0
    then (
      and_not g.event_bits event_bits_control_bytes,
      if test_wait_condition g.event_bits wanted all && clear
          then record g { event_bits = and_not g.event_bits wanted }
          else g,
    )
    else (and_not value event_bits_control_bytes, g)

-- `xEventGroupSync` up to the wait: the tasks that its own `xEventGroupSetBits` unblocks come with it.
unfoldable pub sync :
    (scheduler_suspended : Bool) → ℕ → EventGroup → ℕ → ℕ → ℕ → Outcome (Entered × List Waiter)
sync suspended task g bits_to_set wanted ticks = do
  config_assert (bit_and bits_to_set event_bits_control_bytes == 0)
  config_assert (bit_and wanted event_bits_control_bytes == 0)
  config_assert (not (wanted == 0))
  config_assert (not (suspended && not (ticks == 0)))
  (_, g', unblocked) ← set_bits g bits_to_set
  if bit_and (bit_or g.event_bits bits_to_set) wanted == wanted
      then ok (
        returns (bit_or g.event_bits bits_to_set)
            (record g' { event_bits = and_not g'.event_bits wanted }),
        unblocked,
      )
      else if ticks == 0
      then ok (returns g'.event_bits g', unblocked)
      else ok (
        blocks (place g' task (bit_or (bit_or wanted clear_events_on_exit_bit) wait_for_all_bits)),
        unblocked,
      )

-- `xEventGroupSync` from the wake-up on
unfoldable pub sync_resume : EventGroup → ℕ → ℕ → ℕ × EventGroup
sync_resume g wanted value =
    if bit_and value unblocked_due_to_bit_set == 0
    then (
      and_not g.event_bits event_bits_control_bytes,
      if bit_and g.event_bits wanted == wanted
          then record g { event_bits = and_not g.event_bits wanted }
          else g,
    )
    else (and_not value event_bits_control_bytes, g)

-- `vEventGroupDelete`: every waiter is unblocked.
unfoldable pub delete : EventGroup → List Waiter
delete g = drain g.tasks_waiting_for_bits
  where
    drain : List Waiter → List Waiter
    drain [] = []
    drain (w ∷ ws) =
        record w { item_value = bit_or unblocked_due_to_bit_set item_value_in_use } ∷ drain ws
