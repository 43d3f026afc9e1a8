-- ===== src/Tasks/Suspension.antt =====
-- The suspension of the scheduler and the delays of kernel/tasks.rs. The first loop of `xTaskResumeAll` has
-- as many rounds as there are pending tasks and one more, the second as many as there are pended ticks;
-- `none` is a loop that goes on. The yields that a call requests are its Boolean result.
pub mod Elapsed
pub mod Resuming
pub mod Delaying
pub mod Periods
use freertos_in_rust.Prelude.{
  ℕ, zero, suc, ◌+◌, ◌-◌, ◌*◌, ◌/◌, ◌%◌, ◌^◌, ◌≤◌, ◌<◌, min, ◌≡◌, refl, sym, ap, ◌∙◌, ◌≢◌, ◌↔◌, ◌⊎◌,
  inl, inr, Bool, true, false, not, ◌&&◌, ◌||◌, Option, none, some, List, [], ◌∷◌, ◌++◌, append-nil,
  append_assoc, arith, ltb, leb, ◌==◌, if◌then◌else◌, is_none, ==_iff, Bool-cases, Option-cases,
  length, get_or, set, take, drop, length-append, length-take, take-length, length-drop, length-set,
  get_or-take, get_or-drop, eq_of_get_or, copy_at, length-copy_at, get_or-set, get_or-append,
  get_or-copy_at, append_inj, Outcome, ok, panic, ◌>>=◌, ◌>>◌, config_assert, word_mod, word_max,
  add_word, sub_word, test_bit, and_low, or_low, xor_low, test_bit-and, test_bit-or, test_bit-xor,
  pow2, pow2_pos, and_not, test_bit-and_not, eq_of_test_bit, bit_or-lt, bit_and-le, test_bit-zero,
  bit_and-seven, and_not-sub, bit_and-top, bit_or-top, shift, bit_and-mask, bit_and-lt_mask,
  max-pow2,
}
use freertos_in_rust.Lists.{
  ListItem, ListHead, Items, Store, list_end, set_next, set_previous, set_container, set_head,
  initialise, initialise_item, count_in, insert_end, find_place, insert_behind, insert, remove,
  get_owner_of_next_entry,
}
use freertos_in_rust.Tasks.Ready.{
  Tcb, Kernel, record_ready_priority, add_task_to_ready_list, find_top,
  select_highest_priority_task,
}
use freertos_in_rust.Tasks.Delays.{
  Places, list_is_empty, owner_of_head_entry, set_item_value, reset_next_task_unblock_time,
  switch_delayed_lists, leave_event_list, unblock, wake_tasks, slice, check_delayed, increment_tick,
  delay_until_time, add_current_task_to_delayed_list,
}

-- `vTaskSuspendAll`
abbrev pub suspend_all : Kernel → Kernel
suspend_all k = record k { scheduler_suspended = add_word k.scheduler_suspended 1 }

-- a task that got ready while the scheduler was suspended
unfoldable pub move_task : (ℕ → ℕ) → ℕ → Kernel → Kernel
move_task ready t k =
    let tcb = k.tcbs t in
    let moved = add_task_to_ready_list ready t (record k {
      store = (remove tcb.state_list_item (remove tcb.event_list_item k.store).1).1;
    }) in
    record moved {
      yield_pending = ltb (k.tcbs k.current_tcb).priority tcb.priority || k.yield_pending;
    }

-- the first loop of `xTaskResumeAll`: the scheduler, and whether a task was moved
unfoldable pub move_pending : Places → ℕ → Kernel → Bool → Option (Kernel × Bool)
move_pending places zero k moved = none
move_pending places (suc rounds) k moved = elim (list_is_empty places.pending_ready k.store) [
  | true ↦ some (k, moved)
  | false ↦
      let t = owner_of_head_entry places.pending_ready k.store in
      move_pending places rounds (move_task places.ready t k) true
]

-- the second loop of `xTaskResumeAll`
unfoldable pub run_pended : (ℕ → ℕ) → ℕ → Kernel → Outcome (Option Kernel)
run_pended ready zero k = ok (if k.pended_ticks == 0 then some k else none)
run_pended ready (suc rounds) k = elim (k.pended_ticks == 0) [
  | true ↦ ok (some k)
  | false ↦ increment_tick ready k >>= (λ r. elim r [
    | none ↦ ok none
    | some (k', switch) ↦ run_pended ready rounds (record k' {
      yield_pending = switch || k'.yield_pending;
      pended_ticks = k'.pended_ticks - 1;
    })
  ])
]

-- the scheduler that runs again, and whether a switch is pending
abbrev pub yielded : Option Kernel → Option (Kernel × Bool)
yielded none = none
yielded (some k) = some (k, k.yield_pending)

-- the part of `xTaskResumeAll` behind the first loop
abbrev pub resume_moved : (ℕ → ℕ) → Option (Kernel × Bool) → Outcome (Option (Kernel × Bool))
resume_moved ready none = ok none
resume_moved ready (some (k, moved)) =
    let k' = if moved then reset_next_task_unblock_time k else k in
    run_pended ready k'.pended_ticks k' >>= (λ r. ok (yielded r))

-- `xTaskResumeAll`: the scheduler, and whether the call has yielded
unfoldable pub resume_all : Places → Kernel → Outcome (Option (Kernel × Bool))
resume_all places k =
    let k' = record k { scheduler_suspended = k.scheduler_suspended - 1 } in
    let rounds = suc (k.store.lists places.pending_ready).number_of_items in
    config_assert (ltb 0 k.scheduler_suspended)
    >> (if k'.scheduler_suspended == 0 && ltb 0 k.current_number_of_tasks
        then resume_moved places.ready (move_pending places rounds k' false)
        else ok (some (k', false)))

abbrev pub resume_some : Places → Option Kernel → Outcome (Option (Kernel × Bool))
resume_some places none = ok none
resume_some places (some k) = resume_all places k

-- the scheduler of a call that yields in any case
abbrev pub kept : Outcome (Option (Kernel × Bool)) → Outcome (Option Kernel)
kept panic = panic
kept (ok none) = ok none
kept (ok (some (k, _))) = ok (some k)

-- `vTaskDelay`, which always yields
unfoldable pub task_delay : Places → Bool → ℕ → Kernel → Outcome (Option Kernel)
task_delay places suspension ticks k =
    if ltb 0 ticks
    then config_assert (k.scheduler_suspended == 0)
      >> kept (
          resume_some places
            (add_current_task_to_delayed_list places suspension ticks false (suspend_all k)))
    else ok (some k)

-- whether the time to wake is still to come, of `xTaskDelayUntil`
abbrev pub should_delay : ℕ → ℕ → ℕ → Bool
should_delay now previous wake =
    if ltb now previous
    then ltb wake previous && ltb now wake
    else ltb wake previous || ltb now wake

-- `xTaskDelayUntil`, which always yields: the new time, whether the task is delayed, and the scheduler
unfoldable pub delay_until : Places → Bool → ℕ → ℕ → Kernel → ℕ × Bool × Outcome (Option Kernel)
delay_until places suspension previous increment k =
    let wake = add_word previous increment in
    let delays = should_delay k.tick_count previous wake in
    (
      wake,
      delays,
      config_assert (ltb 0 increment)
          >> config_assert (k.scheduler_suspended == 0)
          >> kept (
              if delays
              then resume_some places (
                  add_current_task_to_delayed_list places suspension (sub_word wake k.tick_count)
                    false (suspend_all k))
              else resume_all places (suspend_all k)),
    )
