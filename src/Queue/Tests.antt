-- ===== src/Queue/Tests.antt =====
-- The theorems on queues at concrete queues, and runs of the calls.
use freertos_in_rust.Prelude.{
  ◌%◌, ◌≡◌, refl, Bool, true, false, none, some, List, [], ◌∷◌, arith, ◌==◌, ok,
}
use freertos_in_rust.Queue.{
  Scheduler, unlocked, locked, send_to_back, send_to_front, Queue, next_item, previous_item,
  messages_before, copy_behind, copy_in_front, copy_item, copy_data_to_queue, copy_data_from_queue,
  lock_queue, increment_lock, unblock_head, unlock_queue,
}
use freertos_in_rust.Queue.Storage.{slot, ring}
use freertos_in_rust.Queue.Items.{Holds}
use freertos_in_rust.Queue.Calls.{
  signal_receivers, signal_senders, generic_send_from_isr, receive_from_isr, peek_from_isr,
  give_from_isr, generic_reset,
}
use freertos_in_rust.Queue.Calls.Fifo.{
  Op, send, receive, peek, sent, received, run, run_deque, run_refines_deque,
}
use freertos_in_rust.Queue.Calls.Deferred.{give_times, IsCounting, lock-defers}
use freertos_in_rust.Queue.Calls.Reset.{HasStorage, generic_reset-Holds}

-- Tasks with an even handle outrank the running one.
abbrev sched : Scheduler
sched = record {
  outranks = λ task. task % 2 == 0;
  number_of_tasks = 4;
  priority_disinherit = λ holder. false;
}

-- Three items of two bytes; the one that is held stands in the last place.
abbrev one_item : Queue
one_item = record {
  head_is_null = false;
  storage = 1 ∷ 2 ∷ 3 ∷ 4 ∷ 5 ∷ 6 ∷ [];
  write_to = 0;
  tail = 6;
  read_from = 2;
  mutex_holder = none;
  tasks_waiting_to_send = 4 ∷ [];
  tasks_waiting_to_receive = [];
  messages_waiting = 1;
  len = 3;
  item_size = 2;
  rx_lock = unlocked;
  tx_lock = locked 0;
}

one_item-Holds : Holds one_item ((5 ∷ 6 ∷ []) ∷ [])
unfolding ring slot
one_item-Holds = record {
  no_mutex = refl;
  sized = omega arith;
  room = omega arith;
  whole = refl;
  end = refl;
  read_slot = 1;
  read_in = omega arith;
  reads = refl;
  bounded = omega arith;
  writes = refl;
  held = refl;
}

abbrev script : List Op
script =
    peek
    ∷ send (7 ∷ 8 ∷ []) send_to_back
    ∷ send (9 ∷ 10 ∷ []) send_to_front
    ∷ send (0 ∷ 0 ∷ []) send_to_back
    ∷ receive
    ∷ receive
    ∷ receive
    ∷ receive
    ∷ []

script_replies :
    run sched one_item script
    ≡ ok (
        received (some (5 ∷ 6 ∷ []))
        ∷ sent true
        ∷ sent true
        ∷ sent false
        ∷ received (some (9 ∷ 10 ∷ []))
        ∷ received (some (5 ∷ 6 ∷ []))
        ∷ received (some (7 ∷ 8 ∷ []))
        ∷ received none
        ∷ [])
unfolding run generic_send_from_isr receive_from_isr peek_from_isr signal_receivers signal_senders
    increment_lock unblock_head copy_data_to_queue copy_data_from_queue copy_item copy_behind
    copy_in_front next_item previous_item messages_before
script_replies = refl

run_refines_deque_example : run sched one_item script ≡ run_deque 3 ((5 ∷ 6 ∷ []) ∷ []) script
run_refines_deque_example =
    run_refines_deque sched script (omega arith) one_item-Holds (refl, (refl, (refl, tt)))

-- A counting semaphore at 1 of 3 with two waiting tasks, the second of which outranks the running one.
abbrev counting : Queue
counting = record one_item {
  storage = [];
  item_size = 0;
  tx_lock = unlocked;
  tasks_waiting_to_receive = 1 ∷ 2 ∷ [];
}

counting-IsCounting : IsCounting counting
counting-IsCounting = record { counts = refl; no_mutex = refl; bounded = omega arith }

gives_value :
    give_times sched 5 counting
    ≡ ok (record counting { messages_waiting = 3; tasks_waiting_to_receive = [] }, true)
unfolding give_times give_from_isr signal_receivers unblock_head
gives_value = refl

lock-defers_example :
    (locked_after : Queue) × (give_times sched 5 (lock_queue counting) ≡ ok (locked_after, false))
    × (locked_after.tasks_waiting_to_receive ≡ 1 ∷ 2 ∷ [])
    × (ok (unlock_queue sched locked_after) ≡ give_times sched 5 counting)
lock-defers_example =
    lock-defers sched 5 counting (omega arith) (omega arith) counting-IsCounting refl refl

one_item-HasStorage : HasStorage one_item
one_item-HasStorage = record {
  no_mutex = refl;
  sized = omega arith;
  room = omega arith;
  whole = refl;
  small = omega arith;
}

generic_reset-Holds_example :
    (q' : Queue) × (woken : Bool) × (generic_reset sched one_item false ≡ ok (q', woken))
    × Holds q' []
    × (q'.len ≡ 3)
    × (q'.rx_lock ≡ unlocked)
    × (q'.tx_lock ≡ unlocked)
    × (q'.tasks_waiting_to_send ≡ [])
    × (q'.tasks_waiting_to_receive ≡ [])
generic_reset-Holds_example = generic_reset-Holds sched one_item false one_item-HasStorage
