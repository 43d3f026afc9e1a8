-- ===== src/Tasks/Priorities.antt =====
-- The priority inheritance of kernel/tasks.rs: a task that holds a mutex gets the priority of a task that waits
-- for it, and its own one back. `most` is the number of priorities, below which they all are.
pub mod Inheritance
pub mod Steps
pub mod Returning
use Prim.Native.Nat.{bit_and}
use freertos_in_rust.Prelude.{
  ℕ, ◌-◌, Bool, true, false, not, ◌&&◌, ltb, ◌==◌, if◌then◌else◌, Outcome, ok, ◌>>◌, config_assert,
}
use freertos_in_rust.Lists.{Store, remove}
use freertos_in_rust.Tasks.Ready.{Tcb, Kernel, add_task_to_ready_list}
use freertos_in_rust.Tasks.Delays.{set_item_value}
use freertos_in_rust.Tasks.Events.{event_list_item_value_in_use}

abbrev pub set_tcb : ℕ → Tcb → Kernel → Kernel
set_tcb t tcb k = record k { tcbs = λ r. if r == t then tcb else k.tcbs r }

-- the place of the task in lists of its event, unless its item holds something else
abbrev pub rank : ℕ → ℕ → ℕ → Store → Store
rank most e priority s =
    if bit_and (s.items e).item_value event_list_item_value_in_use == 0
    then set_item_value e (most - priority) s
    else s

-- A task gets a priority: from its ready list to the one of the new priority, if it is in the first.
unfoldable pub change_priority : (ℕ → ℕ) → ℕ → ℕ → Kernel → Kernel
change_priority ready t priority k =
    let tcb = k.tcbs t in
    let changed = set_tcb t (record tcb { priority = priority }) k in
    let moved =
      add_task_to_ready_list ready t
        (record changed { store = (remove tcb.state_list_item k.store).1 }) in
    if (k.store.items tcb.state_list_item).container == ready tcb.priority then moved else changed

-- `xTaskPriorityInherit`
unfoldable pub priority_inherit : (ℕ → ℕ) → ℕ → ℕ → Kernel → Kernel × Bool
priority_inherit ready most t k =
    let priority = (k.tcbs k.current_tcb).priority in
    let tcb = k.tcbs t in
    let ranked = record k { store = rank most tcb.event_list_item priority k.store } in
    if t == 0
    then (k, false)
    else if ltb tcb.priority priority
    then (change_priority ready t priority ranked, true)
    else (k, ltb tcb.base_priority priority)

-- the last mutex of a task with an inherited priority is given back
unfoldable pub restore_priority : (ℕ → ℕ) → ℕ → ℕ → Kernel → Kernel
restore_priority ready most t k =
    let tcb = k.tcbs t in
    let restored =
      set_tcb t (record tcb { priority = tcb.base_priority })
        (record k { store = (remove tcb.state_list_item k.store).1 }) in
    add_task_to_ready_list ready t (record restored {
      store = set_item_value tcb.event_list_item (most - tcb.base_priority) restored.store;
    })

-- `xTaskPriorityDisinherit`
unfoldable pub priority_disinherit : (ℕ → ℕ) → ℕ → ℕ → Kernel → Outcome (Kernel × Bool)
priority_disinherit ready most t k =
    let tcb = k.tcbs t in
    let given = set_tcb t (record tcb { mutexes_held = tcb.mutexes_held - 1 }) k in
    if t == 0
    then ok (k, false)
    else config_assert (t == k.current_tcb)
      >> config_assert (ltb 0 tcb.mutexes_held)
      >> ok (
          if not (tcb.priority == tcb.base_priority) && tcb.mutexes_held - 1 == 0
          then (restore_priority ready most t given, true)
          else (given, false))

-- `vTaskPriorityDisinheritAfterTimeout`
unfoldable pub priority_disinherit_after_timeout : (ℕ → ℕ) → ℕ → ℕ → ℕ → Kernel → Outcome Kernel
priority_disinherit_after_timeout ready most t highest_waiting k =
    let tcb = k.tcbs t in
    let priority =
      if ltb highest_waiting tcb.base_priority then tcb.base_priority else highest_waiting in
    let ranked = record k { store = rank most tcb.event_list_item priority k.store } in
    if t == 0
    then ok k
    else config_assert (ltb 0 tcb.mutexes_held)
      >> (if not (priority == tcb.priority) && tcb.mutexes_held == 1
          then config_assert (not (t == k.current_tcb))
            >> ok (change_priority ready t priority ranked)
          else ok k)
