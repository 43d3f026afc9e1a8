-- ===== src/Queue.antt =====
-- kernel/queue.rs, without the feature `queue-sets`: the queue object, the copies of items into and out of
-- its storage, its locks, and the calls that do not block. A pointer into the storage is its offset
-- in bytes from `pcHead`. A list of waiting tasks is a list of handles, highest priority first, as
-- `vTaskPlaceOnEventList` keeps it; `xTaskRemoveFromEventList` takes its head. Critical sections
-- and traces have no counterpart here.
pub mod Calls
pub mod Storage
pub mod Items
mod Tests
use freertos_in_rust.Prelude.{
  ℕ, zero, suc, ◌+◌, ◌-◌, Bool, false, not, ◌||◌, Option, none, List, ◌∷◌, ltb, leb, ◌==◌,
  if◌then◌else◌, take, drop, copy_at, Outcome, ok, config_assert, [], ◌>>◌,
}

-- What the calls ask of the scheduler (tasks.rs).
pub record Scheduler : Type 0 where
  -- whether a task that is unblocked has a higher priority than the running one
  pub outranks : ℕ → Bool
  -- `uxTaskGetNumberOfTasks`
  pub number_of_tasks : ℕ
  -- `xTaskPriorityDisinherit` of a mutex holder: whether to yield
  pub priority_disinherit : Option ℕ → Bool

-- `cRxLock` and `cTxLock`: `queueUNLOCKED` is -1, `queueLOCKED_UNMODIFIED` is 0.
pub data Lock : Type 0 where
  unlocked : Lock
  locked : ℕ → Lock

-- `queueINT8_MAX`
abbrev pub int8_max : ℕ
int8_max = 127

pub data Position : Type 0 where
  send_to_back send_to_front overwrite : Position

-- `xQUEUE`. The head is null exactly in a mutex, whose `u` holds the holder and not the pointers.
pub record Queue : Type 0 where
  pub head_is_null : Bool
  pub storage : List ℕ
  pub write_to : ℕ
  pub tail : ℕ
  pub read_from : ℕ
  pub mutex_holder : Option ℕ
  pub tasks_waiting_to_send : List ℕ
  pub tasks_waiting_to_receive : List ℕ
  pub messages_waiting : ℕ
  pub len : ℕ
  pub item_size : ℕ
  pub rx_lock : Lock
  pub tx_lock : Lock

-- the pointer behind the item written, brought back to `pcHead` at the end
unfoldable pub next_item : Queue → ℕ → ℕ
next_item q p = if leb q.tail (p + q.item_size) then 0 else p + q.item_size

-- the pointer before the item, from the end at `pcHead`
unfoldable pub previous_item : Queue → ℕ → ℕ
previous_item q p = (if p == 0 then q.tail else p) - q.item_size

-- the messages counted before the new one: an overwritten item is not counted twice
unfoldable pub messages_before : Queue → Position → ℕ
messages_before q overwrite =
    if ltb 0 q.messages_waiting then q.messages_waiting - 1 else q.messages_waiting
messages_before q _ = q.messages_waiting

unfoldable pub copy_behind : Queue → List ℕ → Queue
copy_behind q item = record q {
  storage = copy_at q.storage q.write_to item q.item_size;
  write_to = next_item q q.write_to;
  messages_waiting = q.messages_waiting + 1;
}

unfoldable pub copy_in_front : Queue → List ℕ → Position → Queue
copy_in_front q item position = record q {
  storage = copy_at q.storage q.read_from item q.item_size;
  read_from = previous_item q q.read_from;
  messages_waiting = messages_before q position + 1;
}

unfoldable pub copy_item : Queue → List ℕ → Position → Queue
unfolding copy_behind copy_in_front
copy_item q item send_to_back = copy_behind q item
copy_item q item position = copy_in_front q item position

-- `prvCopyDataToQueue`: whether to yield, and the queue
unfoldable pub copy_data_to_queue : Scheduler → Queue → List ℕ → Position → Bool × Queue
unfolding copy_item
copy_data_to_queue sched q item position =
    if q.item_size == 0
    then if q.head_is_null
      then (
        sched.priority_disinherit q.mutex_holder,
        record q { mutex_holder = none; messages_waiting = q.messages_waiting + 1 },
      )
      else (false, record q { messages_waiting = q.messages_waiting + 1 })
    else (false, copy_item q item position)

-- `prvCopyDataFromQueue`: the bytes put into the caller's buffer, and the queue
unfoldable pub copy_data_from_queue : Queue → List ℕ × Queue
copy_data_from_queue q =
    if q.item_size == 0
    then ([], q)
    else (let from = next_item q q.read_from in
        (take q.item_size (drop from q.storage), record q { read_from = from }))

-- `prvLockQueue`
abbrev lock : Lock → Lock
lock unlocked = locked 0
lock (locked n) = locked n

unfoldable pub lock_queue : Queue → Queue
lock_queue q = record q { rx_lock = lock q.rx_lock; tx_lock = lock q.tx_lock }

-- `prvIncrementQueueTxLock`, `prvIncrementQueueRxLock`
unfoldable pub increment_lock : Scheduler → ℕ → Outcome Lock
increment_lock sched n =
    if ltb n sched.number_of_tasks
    then (do config_assert (not (n == int8_max)); ok (locked (n + 1)))
    else ok (locked n)

-- `xTaskRemoveFromEventList` if the list is not empty: the waiters left, and whether the one that is
-- unblocked outranks the running task
unfoldable pub unblock_head : Scheduler → List ℕ → List ℕ × Bool
unblock_head sched [] = ([], false)
unblock_head sched (task ∷ tasks) = (tasks, sched.outranks task)

-- the loops of `prvUnlockQueue`: one waiter for each event counted, until none is left
unfoldable pub unblock_counted : Scheduler → ℕ → List ℕ → List ℕ × Bool
unblock_counted sched zero tasks = (tasks, false)
unblock_counted sched (suc n) [] = ([], false)
unblock_counted sched (suc n) (task ∷ tasks) =
    let (left, missed) = unblock_counted sched n tasks in (left, sched.outranks task || missed)

abbrev pub lock_count : Lock → ℕ
lock_count unlocked = 0
lock_count (locked n) = n

-- `prvUnlockQueue`: the queue, and whether `vTaskMissedYield` was called
unfoldable pub unlock_queue : Scheduler → Queue → Queue × Bool
unfolding unblock_counted
unlock_queue sched q =
    let (receivers, missed) =
      unblock_counted sched (lock_count q.tx_lock) q.tasks_waiting_to_receive in
    let (senders, missed') = unblock_counted sched (lock_count q.rx_lock) q.tasks_waiting_to_send in
    (
      record q {
        tasks_waiting_to_receive = receivers;
        tx_lock = unlocked;
        tasks_waiting_to_send = senders;
        rx_lock = unlocked;
      },
      missed || missed',
    )
