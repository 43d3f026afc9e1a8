-- ===== src/Queue/Calls/Deferred.antt =====
-- Events that happen to a locked queue wake tasks when it is unlocked, and not before.
use freertos_in_rust.Prelude.{
  ℕ, zero, suc, ◌+◌, ◌-◌, ◌≤◌, min, ◌≡◌, refl, sym, ap, ◌∙◌, inl, inr, Bool, true, false, ◌||◌,
  List, [], ◌∷◌, arith, ltb, leb, if◌then◌else◌, Bool-cases, length, drop, Outcome, ok, ◌>>=◌,
}
use freertos_in_rust.Queue.{
  Scheduler, unlocked, locked, int8_max, Queue, lock_queue, increment_lock, unblock_head,
  unblock_counted, unlock_queue,
}
use freertos_in_rust.Queue.Calls.{signal_receivers, give_from_isr}

-- whether one of the first `n` tasks outranks the running one
unfoldable pub any_outranks : Scheduler → ℕ → List ℕ → Bool
any_outranks sched zero tasks = false
any_outranks sched (suc n) [] = false
any_outranks sched (suc n) (task ∷ tasks) = sched.outranks task || any_outranks sched n tasks

drop-nil : (n : ℕ) → drop {A = ℕ} n [] ≡ []
drop-nil zero = refl
drop-nil (suc n) = refl

any_outranks-nil : (sched : Scheduler) (n : ℕ) → any_outranks sched n [] ≡ false
unfolding any_outranks
any_outranks-nil sched zero = refl
any_outranks-nil sched (suc n) = refl

-- The head is unblocked first.
drop-head :
    (sched : Scheduler) (n : ℕ) (tasks : List ℕ)
    → drop (suc n) tasks ≡ drop n (unblock_head sched tasks).0
unfolding unblock_head
drop-head sched n [] = sym (drop-nil n)
drop-head sched n (task ∷ tasks) = refl

any_outranks-head :
    (sched : Scheduler) (n : ℕ) (tasks : List ℕ)
    → any_outranks sched (suc n) tasks
      ≡ ((unblock_head sched tasks).1 || any_outranks sched n (unblock_head sched tasks).0)
unfolding any_outranks unblock_head
any_outranks-head sched n [] = sym (any_outranks-nil sched n)
any_outranks-head sched n (task ∷ tasks) = refl

drop-all : (n : ℕ) (tasks : List ℕ) → length tasks ≤ n → drop n tasks ≡ []
drop-all zero [] h = refl
drop-all zero (task ∷ tasks) h = absurd (omega arith)
drop-all (suc n) [] h = refl
drop-all (suc n) (task ∷ tasks) h = drop-all n tasks (omega arith)

any_outranks-all :
    (sched : Scheduler) (n : ℕ) (tasks : List ℕ)
    → length tasks ≤ n
    → any_outranks sched n tasks ≡ any_outranks sched (length tasks) tasks
unfolding any_outranks
any_outranks-all sched zero [] h = refl
any_outranks-all sched zero (task ∷ tasks) h = absurd (omega arith)
any_outranks-all sched (suc n) [] h = refl
any_outranks-all sched (suc n) (task ∷ tasks) h =
    ap (λ b. sched.outranks task || b) (any_outranks-all sched n tasks (omega arith))

unblock_counted_lem :
    (sched : Scheduler) (n : ℕ) (tasks : List ℕ)
    → unblock_counted sched n tasks ≡ (drop n tasks, any_outranks sched n tasks)
unfolding unblock_counted any_outranks
unblock_counted_lem sched zero tasks = refl
unblock_counted_lem sched (suc n) [] = refl
unblock_counted_lem sched (suc n) (task ∷ tasks) = ground (arith, unblock_counted_lem sched n tasks)

-- Counting more events than there are tasks makes no difference.
unblock_counted-min :
    (sched : Scheduler) (n most : ℕ) (tasks : List ℕ)
    → length tasks ≤ most
    → unblock_counted sched (min n most) tasks ≡ unblock_counted sched n tasks
unblock_counted-min sched n most tasks h =
    rw (unblock_counted_lem sched (min n most) tasks, unblock_counted_lem sched n tasks)
      (elim (Bool-cases (leb n most)) [
        | inl few ↦
            let same : min n most ≡ n = ground arith in
            ap (λ i. (drop i tasks, any_outranks sched i tasks)) same
        | inr many ↦
            let same : min n most ≡ most = ground arith in
            let over : length tasks ≤ n = ground arith in
            ap (λ i. (drop i tasks, any_outranks sched i tasks)) same
            ∙ ground (
              arith,
              drop-all most tasks h,
              drop-all n tasks over,
              any_outranks-all sched most tasks h,
              any_outranks-all sched n tasks over,
            )
      ])

-- `xQueueGiveFromISR`, `n` times: the queue, and whether a task that outranks the running one woke
unfoldable pub give_times : Scheduler → ℕ → Queue → Outcome (Queue × Bool)
give_times sched zero q = ok (q, false)
give_times sched (suc n) q = do
  (_, q', woken) ← give_from_isr sched q
  (q'', woken') ← give_times sched n q'
  ok (q'', woken || woken')

-- A counting semaphore.
pub record IsCounting (q : Queue) : Type 0 where
  pub counts : q.item_size ≡ 0
  pub no_mutex : q.head_is_null ≡ false
  pub bounded : q.messages_waiting ≤ q.len

-- the gives of `n` that find room
abbrev done : Queue → ℕ → ℕ
done q n = min n (q.len - q.messages_waiting)

module _ (sched : Scheduler) (few : sched.number_of_tasks ≤ int8_max) where
  give_times_locked :
      (n : ℕ) (q : Queue) (tx : ℕ)
      → IsCounting q
      → q.tx_lock ≡ locked tx
      → tx ≤ sched.number_of_tasks
      → give_times sched n q
        ≡ ok (
          record q {
            messages_waiting = q.messages_waiting + done q n;
            tx_lock = locked (min (tx + done q n) sched.number_of_tasks);
          },
          false,
        )
  unfolding give_times give_from_isr signal_receivers increment_lock
  give_times_locked zero q tx k e t = ground (arith)
  give_times_locked (suc n) q tx k e t = elim (Bool-cases (ltb q.messages_waiting q.len)) [
    | inl room ↦
        let tx' = if ltb tx sched.number_of_tasks then tx + 1 else tx in
        let q' : Queue = record q {
          messages_waiting = q.messages_waiting + 1;
          tx_lock = locked tx';
        } in
        let one : give_from_isr sched q ≡ ok (true, q', false) =
          ground (arith, k.counts, k.no_mutex) in
        let rest =
          give_times_locked n q' tx'
            (record { counts = k.counts; no_mutex = k.no_mutex; bounded = ground arith }) refl
            (ground arith) in
        let messages : q'.messages_waiting + done q' n ≡ q.messages_waiting + done q (suc n) =
          ground arith in
        let count : min (tx' + done q' n) sched.number_of_tasks
            ≡ min (tx + done q (suc n)) sched.number_of_tasks =
          ground arith in
        ground arith
    | inr full ↦
        let none_done : give_from_isr sched q ≡ ok (false, q, false) =
          ground (arith, k.counts, k.no_mutex) in
        let rest = give_times_locked n q tx k e t in
        let messages : done q n ≡ done q (suc n) = ground arith in ground arith
  ]

  give_times_unlocked :
      (n : ℕ) (q : Queue)
      → IsCounting q
      → q.tx_lock ≡ unlocked
      → give_times sched n q
        ≡ ok (
          record q {
            messages_waiting = q.messages_waiting + done q n;
            tasks_waiting_to_receive = drop (done q n) q.tasks_waiting_to_receive;
          },
          any_outranks sched (done q n) q.tasks_waiting_to_receive,
        )
  unfolding give_times give_from_isr signal_receivers unblock_head any_outranks
  give_times_unlocked zero q k e = ground arith
  give_times_unlocked (suc n) q k e = elim (Bool-cases (ltb q.messages_waiting q.len)) [
    | inl room ↦
        let tasks = q.tasks_waiting_to_receive in
        let (left, woken) = unblock_head sched tasks in
        let q' : Queue = record q {
          messages_waiting = q.messages_waiting + 1;
          tasks_waiting_to_receive = left;
        } in
        let one : give_from_isr sched q ≡ ok (true, q', woken) =
          ground (arith, k.counts, k.no_mutex) in
        let rest =
          give_times_unlocked n q'
            (record { counts = k.counts; no_mutex = k.no_mutex; bounded = ground arith }) e in
        let step : done q (suc n) ≡ suc (done q' n) = ground arith in
        let messages : q'.messages_waiting + done q' n ≡ q.messages_waiting + done q (suc n) =
          ground arith in
        let after = ap (λ i. drop i tasks) step ∙ drop-head sched (done q' n) tasks in
        let yield =
          ap (λ i. any_outranks sched i tasks) step ∙ any_outranks-head sched (done q' n) tasks in
        ground arith
    | inr full ↦
        let none_done : give_from_isr sched q ≡ ok (false, q, false) =
          ground (arith, k.counts, k.no_mutex) in
        let rest = give_times_unlocked n q k e in
        let messages : done q n ≡ done q (suc n) = ground arith in
        let nothing : done q n ≡ 0 = ground arith in ground arith
  ]

-- While a counting semaphore is locked that was not before, any number of gives from interrupts wakes
-- nobody. When it is then unlocked, the semaphore, the tasks that still wait for it and whether to yield are the same as
-- after as many gives to the semaphore without the lock. There are at most `queueINT8_MAX` tasks, and
-- no more of them wait than there are.
pub lock-defers :
    (sched : Scheduler) (n : ℕ) (q : Queue)
    → sched.number_of_tasks ≤ int8_max
    → length q.tasks_waiting_to_receive ≤ sched.number_of_tasks
    → IsCounting q
    → q.rx_lock ≡ unlocked
    → q.tx_lock ≡ unlocked
    → (locked_after : Queue) × (give_times sched n (lock_queue q) ≡ ok (locked_after, false))
      × (locked_after.tasks_waiting_to_receive ≡ q.tasks_waiting_to_receive)
      × (ok (unlock_queue sched locked_after) ≡ give_times sched n q)
unfolding lock_queue unlock_queue unblock_counted
lock-defers sched n q few waiters k rx tx =
    let q' = lock_queue q in
    let k' : IsCounting q' = record {
      counts = k.counts;
      no_mutex = k.no_mutex;
      bounded = k.bounded;
    } in
    let gives = give_times_locked sched few n q' 0 k' (ground arith) (omega arith) in
    let direct = give_times_unlocked sched few n q k tx in
    (
      _,
      gives,
      refl,
      ground (
        arith,
        unblock_counted-min sched (done q n) sched.number_of_tasks q.tasks_waiting_to_receive
            waiters,
        unblock_counted_lem sched (done q n) q.tasks_waiting_to_receive,
      ),
    )
