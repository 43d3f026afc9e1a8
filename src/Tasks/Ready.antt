-- ===== src/Tasks/Ready.antt =====
-- The ready lists of kernel/tasks.rs: one list per priority, the bound `uxTopReadyPriority` on the
-- priorities in use, and the selection of the task to run. `ready` says where the array of lists puts the
-- list of a priority. An item of a task's block has an address of its own.
pub mod Selection
mod Tests
use freertos_in_rust.Prelude.{
  ℕ, zero, suc, Bool, true, false, Outcome, ok, panic, ◌>>=◌, ltb, ◌==◌, if◌then◌else◌,
}
use freertos_in_rust.Lists.{Store, insert_end, get_owner_of_next_entry}

-- `TCB_t`: the fields that place a task in the lists
pub record Tcb : Type 0 where
  pub priority : ℕ
  pub base_priority : ℕ
  pub mutexes_held : ℕ
  pub state_list_item : ℕ
  pub event_list_item : ℕ

-- the scheduler's variables for one core
pub record Kernel : Type 0 where
  pub store : Store
  pub tcbs : ℕ → Tcb
  pub top_ready_priority : ℕ
  pub current_tcb : ℕ
  pub delayed_task_list : ℕ
  pub overflow_delayed_task_list : ℕ
  pub tick_count : ℕ
  pub next_task_unblock_time : ℕ
  pub num_of_overflows : ℕ
  pub scheduler_suspended : ℕ
  pub pended_ticks : ℕ
  pub yield_pending : Bool
  pub current_number_of_tasks : ℕ

-- `taskRECORD_READY_PRIORITY`
abbrev pub record_ready_priority : ℕ → Kernel → Kernel
record_ready_priority priority s =
    if ltb s.top_ready_priority priority then record s { top_ready_priority = priority } else s

-- `prvAddTaskToReadyList`
unfoldable pub add_task_to_ready_list : (ℕ → ℕ) → ℕ → Kernel → Kernel
add_task_to_ready_list ready t s =
    let tcb = s.tcbs t in
    record (record_ready_priority tcb.priority s) {
      store = insert_end (ready tcb.priority) tcb.state_list_item s.store;
    }

-- the loop of `taskSELECT_HIGHEST_PRIORITY_TASK`
unfoldable pub find_top : (ℕ → ℕ) → Store → ℕ → Outcome ℕ
find_top ready s zero = if (s.lists (ready 0)).number_of_items == 0 then panic else ok 0
find_top ready s (suc p) = elim ((s.lists (ready (suc p))).number_of_items == 0) [
  | true ↦ find_top ready s p
  | false ↦ ok (suc p)
]

-- `taskSELECT_HIGHEST_PRIORITY_TASK`
unfoldable pub select_highest_priority_task : (ℕ → ℕ) → Kernel → Outcome Kernel
select_highest_priority_task ready s = do
  top ← find_top ready s.store s.top_ready_priority
  let next = get_owner_of_next_entry (ready top) s.store
  ok (record s { store = next.1; current_tcb = next.0; top_ready_priority = top })
