-- ===== src/Queue/Calls/Signals.antt =====
-- Waking or counting at the end of a call leaves the items alone.
use freertos_in_rust.Prelude.{
  ℕ, ◌+◌, ◌≤◌, ◌≡◌, refl, Bool, false, List, arith, ltb, if◌then◌else◌, Outcome, ok,
}
use freertos_in_rust.Queue.{
  Scheduler, Lock, unlocked, locked, int8_max, Queue, increment_lock, unblock_head,
}
use freertos_in_rust.Queue.Items.{Holds}
use freertos_in_rust.Queue.Calls.{signal_receivers, signal_senders}

-- Only who waits and what is locked may differ.
abbrev others : Queue → List ℕ → List ℕ → Lock → Lock → Queue
others q senders receivers rx tx = record q {
  tasks_waiting_to_send = senders;
  tasks_waiting_to_receive = receivers;
  rx_lock = rx;
  tx_lock = tx;
}

others-Holds :
    {q : Queue} {items : List (List ℕ)} (senders receivers : List ℕ) (rx tx : Lock)
    → Holds q items
    → Holds (others q senders receivers rx tx) items
others-Holds senders receivers rx tx h = record {
  no_mutex = h.no_mutex;
  sized = h.sized;
  room = h.room;
  whole = h.whole;
  end = h.end;
  read_slot = h.read_slot;
  read_in = h.read_in;
  reads = h.reads;
  bounded = h.bounded;
  writes = h.writes;
  held = h.held;
}

-- How a call ends: no assertion fails, and the items are the same.
abbrev pub Ends : Queue → List (List ℕ) → Outcome (Queue × Bool) → Type 0
Ends q items r =
    (q' : Queue) × (woken : Bool) × (r ≡ ok (q', woken))
    × Holds q' items
    × (q'.len ≡ q.len)
    × (q'.item_size ≡ q.item_size)

-- No lock count overflows while there are at most `queueINT8_MAX` tasks.
module _ (sched : Scheduler) (few : sched.number_of_tasks ≤ int8_max) (q : Queue)
    {items : List (List ℕ)} (h : Holds q items) where
  increment_lock-ok : (n : ℕ) → (k : ℕ) × (increment_lock sched n ≡ ok (locked k))
  unfolding increment_lock
  increment_lock-ok n = (if ltb n sched.number_of_tasks then n + 1 else n, ground arith)

  pub signal_receivers-Holds : Ends q items (signal_receivers sched q)
  unfolding signal_receivers
  signal_receivers-Holds = go q.tx_lock refl
    where
      go : (l : Lock) → q.tx_lock ≡ l → Ends q items (signal_receivers sched q)
      go unlocked e =
          let (left, woken) = unblock_head sched q.tasks_waiting_to_receive in
          (
            others q q.tasks_waiting_to_send left q.rx_lock q.tx_lock,
            woken,
            ground arith,
            others-Holds q.tasks_waiting_to_send left q.rx_lock q.tx_lock h,
            refl,
            refl,
          )
      go (locked n) e =
          let (k, counted) = increment_lock-ok n in
          (
            others q q.tasks_waiting_to_send q.tasks_waiting_to_receive q.rx_lock (locked k),
            false,
            ground arith,
            others-Holds q.tasks_waiting_to_send q.tasks_waiting_to_receive q.rx_lock (locked k) h,
            refl,
            refl,
          )

  pub signal_senders-Holds : Ends q items (signal_senders sched q)
  unfolding signal_senders
  signal_senders-Holds = go q.rx_lock refl
    where
      go : (l : Lock) → q.rx_lock ≡ l → Ends q items (signal_senders sched q)
      go unlocked e =
          let (left, woken) = unblock_head sched q.tasks_waiting_to_send in
          (
            others q left q.tasks_waiting_to_receive q.rx_lock q.tx_lock,
            woken,
            ground arith,
            others-Holds left q.tasks_waiting_to_receive q.rx_lock q.tx_lock h,
            refl,
            refl,
          )
      go (locked n) e =
          let (k, counted) = increment_lock-ok n in
          (
            others q q.tasks_waiting_to_send q.tasks_waiting_to_receive (locked k) q.tx_lock,
            false,
            ground arith,
            others-Holds q.tasks_waiting_to_send q.tasks_waiting_to_receive (locked k) q.tx_lock h,
            refl,
            refl,
          )
