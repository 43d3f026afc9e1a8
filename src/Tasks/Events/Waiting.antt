-- ===== src/Tasks/Events/Waiting.antt =====
-- A task waits for an event with a timeout.
use mathlib.Core.Path.{subst}
use freertos_in_rust.Prelude.{
  ℕ, ◌-◌, ◌≤◌, ◌<◌, ◌≡◌, sym, ap, ◌∙◌, ◌≢◌, inr, Bool, true, some, List, ◌∷◌, ◌++◌, arith, ok,
  word_max, add_word,
}
use freertos_in_rust.Lists.{Store, insert}
use freertos_in_rust.Lists.Ordered.{before, after}
use freertos_in_rust.Lists.World.{with_list, Moved, with_other}
use freertos_in_rust.Lists.World.Inserting.{insert-World}
use freertos_in_rust.Tasks.Ready.{Tcb, Kernel}
use freertos_in_rust.Tasks.Delays.{Places, add_current_task_to_delayed_list}
use freertos_in_rust.Tasks.Delays.Tidy.{
  Setting, state_item, event_item, Sleepers, IsTidy, Sleepers-kept, IsTask-Moved, either_list,
}
use freertos_in_rust.Tasks.Delays.Clock.{IsKernel, Sleeps, Awake}
use freertos_in_rust.Tasks.Delays.Sleeping.{IsKernel-change, add_current_task_to_delayed_list_lem}
use freertos_in_rust.Tasks.Suspension.{suspend_all, resume_all}
use freertos_in_rust.Tasks.Suspension.Elapsed.{Elapsed-sleeper}
use freertos_in_rust.Tasks.Suspension.Resuming.{IsKernel-with}
use freertos_in_rust.Tasks.Suspension.Delaying.{run_ticks, run_ticks_lem, IsRunning, sleep-resume}
use freertos_in_rust.Tasks.Events.{place_on_event_list}

-- The event item of a task goes to a list in the order of its value.
insert_event-IsTidy :
    (a : Setting) (d o : ℕ) (s : Store) (c : ℕ → List ℕ) (t l : ℕ)
    → IsTidy a d o s c
    → a.live t
    → a.known l
    → l ≢ d
    → l ≢ o
    → (s.items (event_item a t)).container ≡ 0
    → (s' : Store) × (c' : ℕ → List ℕ) × (insert l (event_item a t) s ≡ some s')
      × IsTidy a d o s' c'
      × Moved s s' (event_item a t) l
      × ((q : ℕ) → q ≢ l → c' q ≡ c q)
insert_event-IsTidy a d o s c t l h alive kl n1 n2 out =
    let x = event_item a t in
    let task = h.tasks t alive in
    let (s', done, world, moved) =
      insert-World a.known s c h.world l x kl task.event out task.event_value in
    let xs =
      before s.items (s.items x).item_value (c l)
      ++ x ∷ after s.items (s.items x).item_value (c l) in
    let both : (q : ℕ)
        → l ≢ q
        → Sleepers a s.items (c q)
        → Sleepers a s'.items (with_list c l xs q) =
      λ q n k.
        Sleepers-kept a s.items s'.items (with_list c l xs q) moved.values moved.owners
          (either_list c l q xs (Sleepers a s.items) (λ same. absurd (n (sym same))) (λ _. k)) in
    (
      s',
      with_list c l xs,
      done,
      record {
        world = world;
        apart = h.apart;
        first_known = h.first_known;
        second_known = h.second_known;
        first = both d n1 h.first;
        second = both o n2 h.second;
        tasks = λ u k. IsTask-Moved a d o s s' x l u moved (inr kl) (h.tasks u k);
      },
      moved,
      (λ q n. with_other c l xs q n),
    )

place_runs :
    (places : Places) (suspension : Bool) (l ticks : ℕ) (k : Kernel) (s : Store)
    → l ≢ 0
    → insert l (k.tcbs k.current_tcb).event_list_item k.store ≡ some s
    → place_on_event_list places suspension l ticks k
      ≡ ok (add_current_task_to_delayed_list places suspension ticks true (record k { store = s }))
unfolding place_on_event_list
place_runs places suspension l ticks k s n e = ground arith

-- the scheduler with the current task in the list of an event
placed-IsRunning :
    (a : Setting) (places : Places) (l : ℕ) (k : Kernel) (c : ℕ → List ℕ)
    → IsRunning a places k c
    → a.known l
    → l ≢ k.delayed_task_list
    → l ≢ k.overflow_delayed_task_list
    → l ≢ places.pending_ready
    → (k.store.items (event_item a k.current_tcb)).container ≡ 0
    → (s : Store) × (c' : ℕ → List ℕ) × (insert l (event_item a k.current_tcb) k.store ≡ some s)
      × IsRunning a places (record k { store = s }) c'
      × ((s.items (event_item a k.current_tcb)).container ≡ l)
placed-IsRunning a places l k c h kl n1 n2 n3 out =
    let tidy = h.kernel.scheduled.tidy in
    let alive = h.kernel.scheduled.current in
    let task = tidy.tasks k.current_tcb alive in
    let (s, c', done, tidy', moved, others) =
      insert_event-IsTidy a k.delayed_task_list k.overflow_delayed_task_list k.store c k.current_tcb
        l tidy alive kl n1 n2 out in
    (
      s,
      c',
      done,
      record {
        kernel =
            IsKernel-change a k c h.kernel s c' k.top_ready_priority k.next_task_unblock_time
              (event_item a k.current_tcb) tidy'
              (λ r n e. (sym (moved.stay r n) ∙ e, moved.values r))
              (λ e. absurd (n1 (sym moved.to ∙ e))) (omega arith);
        ready = h.ready;
        pending_known = h.pending_known;
        pending_first = h.pending_first;
        pending_second = h.pending_second;
        pending_none = others places.pending_ready (λ e. absurd (n3 (sym e))) ∙ h.pending_none;
        suspended = h.suspended;
        pended = h.pended;
        tasks = h.tasks;
        running =
            subst a.known (sym (moved.stay (state_item a k.current_tcb) task.differ)) h.running;
      },
      moved.to,
    )

-- A wait of a task, which waits for no event yet, with a timeout of 1 to 2^32 - 2 ticks, in a scheduler that ran
-- with no pended tick and an empty pending ready list; the list of the event is another than this one and
-- the delayed lists. With the scheduler suspended, `vTaskPlaceOnEventList` puts the current task in the list
-- of the event, and `xTaskResumeAll` ends the suspension. Both calls end, no assertion fails, and the
-- invariant is kept. If the event does not come, the task is asleep for the ticks of the timeout and then in
-- the ready list of its priority and no more in the list of the event, wherever the tick count overflows.
pub place_on_event_list_lem :
    (a : Setting) (places : Places) (suspension : Bool) (l ticks n : ℕ) (k : Kernel)
    (c : ℕ → List ℕ)
    → IsRunning a places k c
    → a.known l
    → l ≢ k.delayed_task_list
    → l ≢ k.overflow_delayed_task_list
    → l ≢ places.pending_ready
    → (k.store.items (event_item a k.current_tcb)).container ≡ 0
    → 0 < ticks
    → ticks < word_max
    → (k1 : Kernel) × (k2 : Kernel) × (k3 : Kernel) × (c' : ℕ → List ℕ) × (place_on_event_list
          places suspension l ticks
          (suspend_all k)
        ≡ ok (some k1))
      × ((k1.store.items (event_item a k.current_tcb)).container ≡ l)
      × (resume_all places k1 ≡ ok (some (k2, k2.yield_pending)))
      × (run_ticks a.ready n k2 ≡ ok (some k3))
      × IsKernel a k3 c'
      × (n < ticks → Sleeps a k3 k.current_tcb (ticks - n))
      × (ticks ≤ n → Awake a k3 k.current_tcb)
place_on_event_list_lem a places suspension l ticks n k c h kl n1 n2 n3 out some_time fits =
    let tidy = h.kernel.scheduled.tidy in
    let live = h.kernel.scheduled.current in
    let (s, c', done, h', at) = placed-IsRunning a places l k c h kl n1 n2 n3 out in
    let placed : Kernel = record k { store = s } in
    let slept =
      add_current_task_to_delayed_list_lem a (suspend_all placed) c' ticks
        (IsKernel-with a placed c' (add_word k.scheduler_suspended 1) k.pended_ticks k.yield_pending
          h'.kernel)
        h'.running some_time (omega arith) places suspension true (ground arith) in
    let (k2, resumed, d) =
      sleep-resume a places placed c' ticks
        (add_current_task_to_delayed_list places suspension ticks true (suspend_all placed)) h'
        some_time slept in
    let (k3, run, e) = run_ticks_lem a n k2 d.lists d.kernel d.suspended in
    let (on, off) =
      Elapsed-sleeper a k2 n k3 k.current_tcb ticks e h.kernel.scheduled.current some_time
        d.sleeps in
    let real : l ≢ 0 = λ z. absurd (tidy.world.null (subst a.known z kl)) in
    let task = tidy.tasks k.current_tcb live in
    (
      slept.k',
      k2,
      k3,
      e.lists,
      place_runs places suspension l ticks (suspend_all k) s real (
            ap (λ (f : ℕ → Tcb). insert l (f k.current_tcb).event_list_item k.store)
              h.kernel.scheduled.setting
            ∙ done)
          ∙ ap (λ q. ok q) slept.runs,
      (slept.stay (event_item a k.current_tcb) (λ z. absurd (task.differ (sym z)))).0 ∙ at,
      resumed,
      run,
      e.kernel,
      on,
      off,
    )
