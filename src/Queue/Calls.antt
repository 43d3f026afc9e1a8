-- ===== src/Queue/Calls.antt =====
-- kernel/queue.rs: the calls that do not block.
pub mod Signals
pub mod Answers
pub mod Fifo
pub mod Reset
pub mod Deferred
use freertos_in_rust.Prelude.{
  ℕ, ◌+◌, ◌-◌, ◌*◌, ◌/◌, Bool, true, false, not, ◌&&◌, ◌||◌, Option, none, some, List, ltb, leb,
  ◌==◌, if◌then◌else◌, is_none, Outcome, ok, config_assert, word_max, [], ◌>>=◌, ◌>>◌,
}
use freertos_in_rust.Queue.{
  Scheduler, unlocked, locked, Position, overwrite, Queue, copy_data_to_queue, copy_data_from_queue,
  increment_lock, unblock_head,
}

-- the end of a send: a waiting receiver is unblocked, or the event is counted while the queue is locked
unfoldable pub signal_receivers : Scheduler → Queue → Outcome (Queue × Bool)
signal_receivers sched q = elim q.tx_lock [
  | unlocked ↦
      let (left, woken) = unblock_head sched q.tasks_waiting_to_receive in
      ok (record q { tasks_waiting_to_receive = left }, woken)
  | locked n ↦ (do tx_lock ← increment_lock sched n; ok (record q { tx_lock = tx_lock }, false))
]

unfoldable pub signal_senders : Scheduler → Queue → Outcome (Queue × Bool)
signal_senders sched q = elim q.rx_lock [
  | unlocked ↦
      let (left, woken) = unblock_head sched q.tasks_waiting_to_send in
      ok (record q { tasks_waiting_to_send = left }, woken)
  | locked n ↦ (do rx_lock ← increment_lock sched n; ok (record q { rx_lock = rx_lock }, false))
]

abbrev pub is_overwrite : Position → Bool
is_overwrite overwrite = true
is_overwrite _ = false

-- `xQueueGenericSendFromISR`: whether the item was sent, the queue, and `*pxHigherPriorityTaskWoken`
unfoldable pub generic_send_from_isr :
    Scheduler → Queue → List ℕ → Position → Outcome (Bool × Queue × Bool)
generic_send_from_isr sched q item position = do
  config_assert (not (is_overwrite position && not (q.len == 1)))
  if ltb q.messages_waiting q.len || is_overwrite position
      then (do
        (q', woken) ← signal_receivers sched (copy_data_to_queue sched q item position).1
        ok (true, q', woken))
      else ok (false, q, false)

-- `xQueueReceiveFromISR`: the item received, if any
unfoldable pub receive_from_isr : Scheduler → Queue → Outcome (Option (List ℕ) × Queue × Bool)
receive_from_isr sched q =
    if ltb 0 q.messages_waiting
    then (let (item, q') = copy_data_from_queue q in
        (do
          (q'', woken) ←
              signal_senders sched (record q' { messages_waiting = q.messages_waiting - 1 })
          ok (some item, q'', woken)))
    else ok (none, q, false)

-- `xQueuePeekFromISR`
unfoldable pub peek_from_isr : Queue → Outcome (Option (List ℕ) × Queue)
peek_from_isr q = do
  config_assert (not (q.item_size == 0))
  if ltb 0 q.messages_waiting
      then (let (item, q') = copy_data_from_queue q in
          ok (some item, record q' { read_from = q.read_from }))
      else ok (none, q)

-- `xQueueGiveFromISR`
unfoldable pub give_from_isr : Scheduler → Queue → Outcome (Bool × Queue × Bool)
give_from_isr sched q = do
  config_assert (q.item_size == 0)
  config_assert (not q.head_is_null || is_none q.mutex_holder)
  if ltb q.messages_waiting q.len
      then (do
        (q', woken) ←
            signal_receivers sched (record q { messages_waiting = q.messages_waiting + 1 })
        ok (true, q', woken))
      else ok (false, q, false)

-- `xQueueGenericReset`: the queue, and whether the sender that it unblocked outranks the running
-- task. The two pointers are written whatever the item size is: in a mutex, whose head is null and whose
-- items have no bytes, the null tail goes over the holder.
unfoldable pub generic_reset : Scheduler → Queue → Bool → Outcome (Queue × Bool)
generic_reset sched q new_queue = do
  config_assert (ltb 0 q.len && leb q.item_size (word_max / q.len))
  let (senders, woken) = unblock_head sched q.tasks_waiting_to_send
  ok (
    record q {
      tail = q.len * q.item_size;
      mutex_holder = if q.head_is_null then none else q.mutex_holder;
      messages_waiting = 0;
      write_to = 0;
      read_from = (q.len - 1) * q.item_size;
      rx_lock = unlocked;
      tx_lock = unlocked;
      tasks_waiting_to_send = if new_queue then [] else senders;
      tasks_waiting_to_receive = if new_queue then [] else q.tasks_waiting_to_receive;
    },
    if new_queue then false else woken,
  )
