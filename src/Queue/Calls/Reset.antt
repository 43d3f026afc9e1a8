-- ===== src/Queue/Calls/Reset.antt =====
-- Resetting a queue, and a new queue.
use freertos_in_rust.Prelude.{
  ℕ, ◌+◌, ◌-◌, ◌*◌, ◌/◌, ◌≤◌, ◌<◌, ◌≡◌, refl, sym, ap, ◌∙◌, Bool, false, none, List, [], ◌∷◌, arith,
  if◌then◌else◌, length, drop, ok, word_max,
}
use native.Mathlib.Nat.{le-div_iff_mul-le}
use freertos_in_rust.Queue.{Scheduler, unlocked, Queue, unblock_head}
use freertos_in_rust.Queue.Storage.{wrap, ring}
use freertos_in_rust.Queue.Items.{Holds, zero_mul}
use freertos_in_rust.Queue.Calls.{generic_reset}

-- A queue of items whose storage has a number of bytes that a word holds.
pub record HasStorage (q : Queue) : Type 0 where
  pub no_mutex : q.head_is_null ≡ false
  pub sized : 0 < q.item_size
  pub room : 0 < q.len
  pub whole : length q.storage ≡ q.len * q.item_size
  pub small : q.len * q.item_size ≤ word_max

first_unblocked : (sched : Scheduler) (tasks : List ℕ) → (unblock_head sched tasks).0 ≡ drop 1 tasks
unfolding unblock_head
first_unblocked sched [] = refl
first_unblocked sched (task ∷ tasks) = refl

fits : (size len : ℕ) → 0 < len → len * size ≤ word_max → size ≤ word_max / len
fits size len p h = (le-div_iff_mul-le p).1 (grind (arith))

-- `xQueueGenericReset` on a queue of items with a proper storage fails no assertion and leaves an
-- empty, unlocked queue, whatever its pointers, count and locks were. Of a queue in use the first
-- waiting sender is unblocked and the receivers go on waiting; a new queue gets empty lists.
pub generic_reset-Holds :
    (sched : Scheduler) (q : Queue) (new_queue : Bool)
    → HasStorage q
    → (q' : Queue) × (woken : Bool) × (generic_reset sched q new_queue ≡ ok (q', woken))
      × Holds q' []
      × (q'.len ≡ q.len)
      × (q'.rx_lock ≡ unlocked)
      × (q'.tx_lock ≡ unlocked)
      × (q'.tasks_waiting_to_send ≡ (if new_queue then [] else drop 1 q.tasks_waiting_to_send))
      × (q'.tasks_waiting_to_receive ≡ (if new_queue then [] else q.tasks_waiting_to_receive))
unfolding generic_reset unblock_head ring
generic_reset-Holds sched q new_queue h =
    let (senders, woken) = unblock_head sched q.tasks_waiting_to_send in
    let q' : Queue = record q {
      tail = q.len * q.item_size;
      mutex_holder = if q.head_is_null then none else q.mutex_holder;
      messages_waiting = 0;
      write_to = 0;
      read_from = (q.len - 1) * q.item_size;
      rx_lock = unlocked;
      tx_lock = unlocked;
      tasks_waiting_to_send = if new_queue then [] else senders;
      tasks_waiting_to_receive = if new_queue then [] else q.tasks_waiting_to_receive;
    } in
    (
      q',
      if new_queue then false else woken,
      ground (arith, fits q.item_size q.len h.room h.small, h.room),
      record {
        no_mutex = h.no_mutex;
        sized = h.sized;
        room = h.room;
        whole = h.whole;
        end = refl;
        read_slot = q.len - 1;
        read_in = omega (arith, h.room);
        reads = refl;
        bounded = omega arith;
        writes =
            let first : wrap q.len (wrap q.len (q.len - 1 + 1) + 0) ≡ 0 = ground (arith, h.room) in
            sym (ap (λ i. i * q.item_size) first ∙ zero_mul q.item_size);
        held = refl;
      },
      refl,
      refl,
      refl,
      ap (λ tasks. if new_queue then [] else tasks) (first_unblocked sched q.tasks_waiting_to_send),
      refl,
    )
