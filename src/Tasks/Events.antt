-- ===== src/Tasks/Events.antt =====
-- The moves of kernel/tasks.rs to and from the lists of tasks that wait for an event, without the feature
-- `tickless-idle`, and the switch of tasks. A list of the tasks is in the order of their priorities, but
-- that of an event group has none.
pub mod Unblocked
pub mod Waiting
use Prim.Native.Nat.{bit_or}
use freertos_in_rust.Prelude.{
  ℕ, ◌^◌, Bool, true, false, not, Option, none, some, ltb, ◌==◌, if◌then◌else◌, Outcome, ok, ◌>>◌,
  config_assert, word_max,
}
use freertos_in_rust.Lists.{insert_end, insert, remove}
use freertos_in_rust.Tasks.Ready.{Kernel, add_task_to_ready_list, select_highest_priority_task}
use freertos_in_rust.Tasks.Delays.{
  Places, owner_of_head_entry, set_item_value, add_current_task_to_delayed_list,
}

-- `taskEVENT_LIST_ITEM_VALUE_IN_USE`
abbrev pub event_list_item_value_in_use : ℕ
event_list_item_value_in_use = 2 ^ 31

-- the answer of a wake-up: whether the task has a higher priority than the current one, which asks for a switch
abbrev pub answer_unblocked : ℕ → Kernel → Kernel × Bool
answer_unblocked t k =
    if ltb (k.tcbs k.current_tcb).priority (k.tcbs t).priority
    then (record k { yield_pending = true }, true)
    else (k, false)

-- `xTaskRemoveFromEventList`
unfoldable pub remove_from_event_list : Places → ℕ → Kernel → Outcome (Kernel × Bool)
remove_from_event_list places l k =
    let t = owner_of_head_entry l k.store in
    let tcb = k.tcbs t in
    let removed = (remove tcb.event_list_item k.store).1 in
    let awake =
      add_task_to_ready_list places.ready t
        (record k { store = (remove tcb.state_list_item removed).1 }) in
    let pending = record k {
      store = insert_end places.pending_ready tcb.event_list_item removed;
    } in
    config_assert (not (t == 0))
    >> ok (answer_unblocked t (if k.scheduler_suspended == 0 then awake else pending))

-- `vTaskPlaceOnEventList`
unfoldable pub place_on_event_list : Places → Bool → ℕ → ℕ → Kernel → Outcome (Option Kernel)
place_on_event_list places suspension l ticks k =
    let placed = insert l (k.tcbs k.current_tcb).event_list_item k.store in
    config_assert (not (l == 0))
    >> ok (elim placed [
      | none ↦ none
      | some s ↦
          add_current_task_to_delayed_list places suspension ticks true (record k { store = s })
    ])

-- `vTaskPlaceOnEventListRestricted`
unfoldable pub place_on_event_list_restricted :
    Places → Bool → ℕ → ℕ → Bool → Kernel → Outcome (Option Kernel)
place_on_event_list_restricted places suspension l ticks indefinitely k =
    let s = insert_end l (k.tcbs k.current_tcb).event_list_item k.store in
    config_assert (not (l == 0))
    >> config_assert (not (k.scheduler_suspended == 0))
    >> ok (
        add_current_task_to_delayed_list places suspension
          (if indefinitely then word_max else ticks) indefinitely (record k { store = s }))

-- `vTaskPlaceOnUnorderedEventList`
unfoldable pub place_on_unordered_event_list :
    Places → Bool → ℕ → ℕ → ℕ → Kernel → Outcome (Option Kernel)
place_on_unordered_event_list places suspension l value ticks k =
    let e = (k.tcbs k.current_tcb).event_list_item in
    let s = set_item_value e (bit_or value event_list_item_value_in_use) k.store in
    config_assert (not (l == 0))
    >> ok (
        add_current_task_to_delayed_list places suspension ticks true
          (record k { store = insert_end l e s }))

-- `xTaskRemoveFromUnorderedEventList`
unfoldable pub remove_from_unordered_event_list : Places → ℕ → ℕ → Kernel → Outcome (Kernel × Bool)
remove_from_unordered_event_list places e value k =
    let s = set_item_value e (bit_or value event_list_item_value_in_use) k.store in
    let t = (s.items e).owner in
    let removed = (remove (k.tcbs t).state_list_item (remove e s).1).1 in
    config_assert (not (k.scheduler_suspended == 0))
    >> config_assert (not (t == 0))
    >> ok
        (answer_unblocked t (add_task_to_ready_list places.ready t (record k { store = removed })))

-- `vTaskMissedYield`
abbrev pub missed_yield : Kernel → Kernel
missed_yield k = record k { yield_pending = true }

-- `vTaskSwitchContext`
unfoldable pub switch_context : Places → Kernel → Outcome Kernel
switch_context places k =
    let selected = select_highest_priority_task places.ready (record k { yield_pending = false }) in
    if k.scheduler_suspended == 0 then selected else ok (missed_yield k)
