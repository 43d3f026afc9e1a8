-- ===== src/Tasks/Delays.antt =====
-- The delayed tasks and the tick of kernel/tasks.rs, with preemption and for one core. A loop's fuel is one
-- more than the items of the list that it empties, and `none` is the loop that goes on. The yields that
-- a call requests are its Boolean result.
pub mod Tidy
pub mod Moves
pub mod Unblocking
pub mod Waking
pub mod Loop
pub mod Clock
pub mod Start
pub mod Ticks
pub mod Sleeping
use freertos_in_rust.Prelude.{
  ℕ, zero, suc, ◌+◌, ◌-◌, ◌*◌, ◌/◌, ◌%◌, ◌^◌, ◌≤◌, ◌<◌, min, ◌≡◌, refl, sym, ap, ◌∙◌, ◌≢◌, ◌↔◌, ◌⊎◌,
  inl, inr, Bool, true, false, not, ◌&&◌, ◌||◌, Option, none, some, List, [], ◌∷◌, ◌++◌, append-nil,
  append_assoc, arith, ltb, leb, ◌==◌, if◌then◌else◌, is_none, ==_iff, Bool-cases, Option-cases,
  length, get_or, set, take, drop, length-append, length-take, take-length, length-drop, length-set,
  get_or-take, get_or-drop, eq_of_get_or, copy_at, length-copy_at, get_or-set, get_or-append,
  get_or-copy_at, append_inj, Outcome, ok, panic, ◌>>=◌, ◌>>◌, config_assert, word_mod, word_max,
  add_word, sub_word, test_bit, and_low, or_low, xor_low, test_bit-and, test_bit-or, test_bit-xor,
  pow2, pow2_pos, and_not, test_bit-and_not, eq_of_test_bit, bit_or-lt, bit_and-le, test_bit-zero,
  bit_and-seven, and_not-sub, bit_and-top, bit_or-top, shift, bit_and-mask, bit_and-lt_mask,
  max-pow2,
}
use freertos_in_rust.Lists.{Store, list_end, insert_end, insert, remove}
use freertos_in_rust.Tasks.Ready.{Kernel, add_task_to_ready_list}

-- where the kernel's static lists are: the ready list of a priority, `xPendingReadyList` and
-- `xSuspendedTaskList`
pub record Places : Type 0 where
  pub ready : ℕ → ℕ
  pub pending_ready : ℕ
  pub suspended : ℕ

-- `listLIST_IS_EMPTY`
abbrev pub list_is_empty : ℕ → Store → Bool
list_is_empty l s = (s.lists l).number_of_items == 0

-- `listGET_OWNER_OF_HEAD_ENTRY`
abbrev pub owner_of_head_entry : ℕ → Store → ℕ
owner_of_head_entry l s = (s.items (s.items (list_end l)).next).owner

-- `listSET_LIST_ITEM_VALUE`
abbrev pub set_item_value : ℕ → ℕ → Store → Store
set_item_value x v s = record s {
  items = λ r. if r == x then record (s.items x) { item_value = v } else s.items r;
}

-- `prvResetNextTaskUnblockTime`
unfoldable pub reset_next_task_unblock_time : Kernel → Kernel
reset_next_task_unblock_time k =
    let t = owner_of_head_entry k.delayed_task_list k.store in
    record k {
      next_task_unblock_time =
          if list_is_empty k.delayed_task_list k.store
          then word_max
          else (k.store.items (k.tcbs t).state_list_item).item_value;
    }

-- `taskSWITCH_DELAYED_LISTS`
unfoldable pub switch_delayed_lists : Kernel → Outcome Kernel
switch_delayed_lists k = do
  config_assert (list_is_empty k.delayed_task_list k.store)
  ok (
      reset_next_task_unblock_time (record k {
        delayed_task_list = k.overflow_delayed_task_list;
        overflow_delayed_task_list = k.delayed_task_list;
        num_of_overflows = add_word k.num_of_overflows 1;
      }))

-- out of the event list, if it is in one
abbrev pub leave_event_list : ℕ → Store → Store
leave_event_list e s = if (s.items e).container == 0 then s else (remove e s).1

-- the part of the tick that makes a task ready whose time has come
unfoldable pub unblock : (ℕ → ℕ) → ℕ → Kernel → Kernel
unblock ready t k =
    let tcb = k.tcbs t in
    add_task_to_ready_list ready t (record k {
      store = leave_event_list tcb.event_list_item (remove tcb.state_list_item k.store).1;
    })

-- the loop of `xTaskIncrementTick`: the scheduler, and whether to switch
unfoldable pub wake_tasks : (ℕ → ℕ) → ℕ → ℕ → Kernel → Bool → Option (Kernel × Bool)
wake_tasks ready zero now k switch = none
wake_tasks ready (suc rounds) now k switch =
    let t = owner_of_head_entry k.delayed_task_list k.store in
    let value = (k.store.items (k.tcbs t).state_list_item).item_value in
    elim (list_is_empty k.delayed_task_list k.store) [
      | true ↦ some (record k { next_task_unblock_time = word_max }, switch)
      | false ↦ elim (ltb now value) [
        | true ↦ some (record k { next_task_unblock_time = value }, switch)
        | false ↦
            wake_tasks ready rounds now (unblock ready t k)
              (switch || ltb (k.tcbs k.current_tcb).priority (k.tcbs t).priority)
      ]
    ]

-- the end of the tick: time slices and yields that are pending
abbrev pub slice : (ℕ → ℕ) → Option (Kernel × Bool) → Option (Kernel × Bool)
slice ready none = none
slice ready (some (k, switch)) = some (
  k,
  switch
      || ltb 1 (k.store.lists (ready (k.tcbs k.current_tcb).priority)).number_of_items
      || k.yield_pending,
)

-- a tick that has been counted
abbrev pub check_delayed : (ℕ → ℕ) → Kernel → Option (Kernel × Bool)
check_delayed ready k =
    let rounds = suc (k.store.lists k.delayed_task_list).number_of_items in
    slice ready (
      if leb k.next_task_unblock_time k.tick_count
      then wake_tasks ready rounds k.tick_count k false
      else some (k, false))

-- `xTaskIncrementTick`: the scheduler, and whether to switch
unfoldable pub increment_tick : (ℕ → ℕ) → Kernel → Outcome (Option (Kernel × Bool))
increment_tick ready k =
    let now = add_word k.tick_count 1 in
    let ticked = record k { tick_count = now } in
    let started = if now == 0 then switch_delayed_lists ticked else ok ticked in
    if k.scheduler_suspended == 0
    then started >>= (λ k. ok (check_delayed ready k))
    else ok (some (record k { pended_ticks = add_word k.pended_ticks 1 }, false))

-- the current task goes to a delayed list for its time to wake
unfoldable pub delay_until_time : ℕ → ℕ → Kernel → Option Kernel
delay_until_time x wake k =
    let s = set_item_value x wake k.store in
    let overflowed = insert k.overflow_delayed_task_list x s in
    let later = insert k.delayed_task_list x s in
    if ltb wake k.tick_count
    then elim overflowed [ none ↦ none | some s ↦ some (record k { store = s }) ]
    else elim later [
      | none ↦ none
      | some s ↦ some (record k {
        store = s;
        next_task_unblock_time =
            if ltb wake k.next_task_unblock_time then wake else k.next_task_unblock_time;
      })
    ]

-- `prvAddCurrentTaskToDelayedList`, with the feature `task-suspend` if `suspension` is set
unfoldable pub add_current_task_to_delayed_list : Places → Bool → ℕ → Bool → Kernel → Option Kernel
add_current_task_to_delayed_list places suspension ticks indefinitely k =
    let x = (k.tcbs k.current_tcb).state_list_item in
    let removed = record k { store = (remove x k.store).1 } in
    let wake = add_word k.tick_count ticks in
    if suspension && ticks == word_max && indefinitely
    then some (record removed { store = insert_end places.suspended x removed.store })
    else delay_until_time x wake removed
