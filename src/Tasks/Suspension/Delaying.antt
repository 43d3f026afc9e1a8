-- ===== src/Tasks/Suspension/Delaying.antt =====
-- `vTaskDelay` and `xTaskDelayUntil`: a task sleeps for as many ticks as it asks for.
use mathlib.Core.Path.{subst}
use freertos_in_rust.Prelude.{
  ℕ, zero, suc, ◌+◌, ◌-◌, ◌%◌, ◌≤◌, ◌<◌, ◌≡◌, refl, sym, ap, ◌∙◌, ◌≢◌, inl, inr, Bool, false,
  Option, none, some, List, [], ◌∷◌, arith, ◌==◌, Bool-cases, length, Outcome, ok, ◌>>=◌, word_mod,
  add_word,
}
use freertos_in_rust.Lists.Members.{Within}
use freertos_in_rust.Lists.World.{Held-Within}
use freertos_in_rust.Tasks.Ready.{Kernel}
use freertos_in_rust.Tasks.Delays.{Places, increment_tick, add_current_task_to_delayed_list}
use freertos_in_rust.Tasks.Delays.Tidy.{Setting, state_item, event_item}
use freertos_in_rust.Tasks.Delays.Waking.{apart_tasks}
use freertos_in_rust.Tasks.Delays.Clock.{IsKernel, Sleeps, Awake}
use freertos_in_rust.Tasks.Delays.Ticks.{increment_tick_lem}
use freertos_in_rust.Tasks.Delays.Sleeping.{Slept, add_current_task_to_delayed_list_lem}
use freertos_in_rust.Tasks.Suspension.{suspend_all, resume_all, task_delay}
use freertos_in_rust.Tasks.Suspension.Elapsed.{Elapsed, Elapsed-none, Elapsed-suc, Elapsed-sleeper}
use freertos_in_rust.Tasks.Suspension.Resuming.{IsKernel-with, resume_all_lem}

-- `n` ticks one after the other
abbrev pub run_ticks : (ℕ → ℕ) → ℕ → Kernel → Outcome (Option Kernel)
run_ticks ready zero k = ok (some k)
run_ticks ready (suc n) k =
    increment_tick ready k
    >>= (λ r. elim r [ none ↦ ok none | some (k', _) ↦ run_ticks ready n k' ])

pub run_ticks_lem :
    (a : Setting) (n : ℕ) (k : Kernel) (c : ℕ → List ℕ)
    → IsKernel a k c
    → k.scheduler_suspended ≡ 0
    → (k' : Kernel) × (run_ticks a.ready n k ≡ ok (some k')) × Elapsed a k n k'
run_ticks_lem a zero k c h s = (k, refl, Elapsed-none a k k c refl h)
run_ticks_lem a (suc n) k c h s =
    let q = increment_tick_lem a k c h s in
    let (k', run, w) = run_ticks_lem a n q.k' q.lists q.kernel (q.suspended ∙ s) in
    (
      k',
      ap (λ r. r >>= (λ r. elim r [ none ↦ ok none | some (k', _) ↦ run_ticks a.ready n k' ])) q.run
          ∙ run,
      Elapsed-suc a k q.k' k' c n q h refl w,
    )

-- The pending ready list is a list of its own, and the scheduler has tasks and runs.
pub record IsRunning (a : Setting) (places : Places) (k : Kernel) (c : ℕ → List ℕ) : Type 0 where
  pub kernel : IsKernel a k c
  pub ready : places.ready ≡ a.ready
  pub pending_known : a.known places.pending_ready
  pub pending_first : places.pending_ready ≢ k.delayed_task_list
  pub pending_second : places.pending_ready ≢ k.overflow_delayed_task_list
  pub pending_none : c places.pending_ready ≡ []
  pub suspended : k.scheduler_suspended ≡ 0
  pub pended : k.pended_ticks ≡ 0
  pub tasks : 0 < k.current_number_of_tasks
  pub running : a.known (k.store.items (state_item a k.current_tcb)).container

-- an empty list that the sleeping task does not go to stays empty
still_none : (xs : List ℕ) → ((r : ℕ) → Within r xs → ⊥) → xs ≡ []
still_none [] h = refl
still_none (x ∷ xs) h = absurd (h x (inl refl))

Slept-none :
    (a : Setting) (places : Places) (k : Kernel) (c : ℕ → List ℕ) (ticks : ℕ) (run : Option Kernel)
    → IsRunning a places k c
    → (w : Slept a (suspend_all k) ticks run)
    → (w.k'.store.lists places.pending_ready).number_of_items ≡ 0
Slept-none a places k c ticks run h w =
    let p = places.pending_ready in
    let list = w.kernel.scheduled.tidy.world.lists p h.pending_known in
    list.count
    ∙ ap length (
        still_none (w.lists p) (λ r i.
          let at = Held-Within w.k'.store.items p r (w.lists p) list.held i in
          elim (Bool-cases (r == state_item a k.current_tcb)) [
            | inl same ↦
                let e =
                  ap (λ y. (w.k'.store.items y).container) {x = r} {y = state_item a k.current_tcb}
                    (ground arith) in
                elim w.sleeps [
                  | inl s ↦
                      h.pending_first (sym at ∙ e ∙ s.0 ∙ ap (λ y. y.delayed_task_list) w.same)
                  | inr s ↦
                      h.pending_second
                        (sym at ∙ e ∙ s.0 ∙ ap (λ y. y.overflow_delayed_task_list) w.same)
                ]
            | inr other ↦
                let before = sym (w.stay r (λ e. absurd (ground arith))).0 ∙ at in
                subst (Within r) h.pending_none (
                  subst (λ q. Within r (c q)) before
                    (h.kernel.scheduled.tidy.world.complete r
                      (subst a.known (sym before) h.pending_known)))
          ]))

delay_runs :
    (places : Places) (suspension : Bool) (ticks : ℕ) (k k1 k2 : Kernel) (yields : Bool)
    → 0 < ticks
    → k.scheduler_suspended ≡ 0
    → add_current_task_to_delayed_list places suspension ticks false (suspend_all k) ≡ some k1
    → resume_all places k1 ≡ ok (some (k2, yields))
    → task_delay places suspension ticks k ≡ ok (some k2)
unfolding task_delay
delay_runs places suspension ticks k k1 k2 yields l e add resume = ground arith

-- What it comes to that the current task is delayed.
pub record Delayed (a : Setting) (k : Kernel) (ticks : ℕ) (k' : Kernel) : Type 0 where
  pub lists : ℕ → List ℕ
  pub kernel : IsKernel a k' lists
  pub suspended : k'.scheduler_suspended ≡ 0
  pub pended : k'.pended_ticks ≡ 0
  pub count : k'.tick_count ≡ k.tick_count
  pub sleeps : Sleeps a k' k.current_tcb ticks
  pub awake : (t : ℕ) → a.live t → t ≢ k.current_tcb → Awake a k t → Awake a k' t
  pub waits :
      (t n : ℕ) → a.live t → t ≢ k.current_tcb → Sleeps a k t (suc n) → Sleeps a k' t (suc n)

-- a task that goes to sleep while the scheduler is suspended, and the end of the suspension
pub sleep-resume :
    (a : Setting) (places : Places) (k : Kernel) (c : ℕ → List ℕ) (ticks : ℕ) (run : Option Kernel)
    → IsRunning a places k c
    → 0 < ticks
    → (w : Slept a (suspend_all k) ticks run)
    → (k' : Kernel) × (resume_all places w.k' ≡ ok (some (k', k'.yield_pending)))
      × Delayed a k ticks k'
sleep-resume a places k c ticks run h l w =
    let up : w.k'.scheduler_suspended ≡ 1 =
      ap (λ y. y.scheduler_suspended) w.same ∙ ap (λ v. add_word v 1) h.suspended in
    let pended : w.k'.pended_ticks ≡ 0 = ap (λ y. y.pended_ticks) w.same ∙ h.pended in
    let tasks : w.k'.current_number_of_tasks ≡ k.current_number_of_tasks =
      ap (λ y. y.current_number_of_tasks) w.same in
    let some_tasks = h.tasks in
    let (k', resumed, running, none_left, e) =
      resume_all_lem a places w.k' w.lists w.kernel h.ready up (omega arith)
        (Slept-none a places k c ticks run h w) in
    let e : Elapsed a w.k' 0 k' = subst (λ n. Elapsed a w.k' n k') pended e in
    let sleeps : (t n : ℕ) → a.live t → Sleeps a w.k' t (suc n) → Sleeps a k' t (suc n) =
      λ t n alive s.
        (e.waits t n alive).0
          (subst (Sleeps a w.k' t) {x = suc n} {y = 0 + suc n} (omega arith) s) in
    let one : suc (ticks - 1) ≡ ticks = omega arith in
    (
      k',
      resumed,
      record {
        lists = e.lists;
        kernel = e.kernel;
        suspended = running;
        pended = none_left;
        count =
            let count = e.count in
            let same = ap (λ y. y.tick_count) w.same in
            let fits = h.kernel.scheduled.tick in omega arith;
        sleeps = subst (Sleeps a k' k.current_tcb) one (
            sleeps k.current_tcb (ticks - 1) h.kernel.scheduled.current
              (subst (Sleeps a w.k' k.current_tcb) (sym one) w.sleeps));
        awake = λ t alive n s. e.awake t alive (still_awake t alive n s);
        waits = λ t n alive off s. sleeps t n alive (still_asleep t n alive off s);
      },
    )
  where
    far :
        (t : ℕ)
        → a.live t
        → t ≢ k.current_tcb
        → (state_item a t ≢ state_item a k.current_tcb)
          × (event_item a t ≢ state_item a k.current_tcb)
    far t alive n =
        let tidy = h.kernel.scheduled.tidy in
        let (n1, _, n2, _) =
          apart_tasks a k.delayed_task_list k.overflow_delayed_task_list k.store.items t
            k.current_tcb (tidy.tasks t alive) (tidy.tasks k.current_tcb h.kernel.scheduled.current)
            n in
        (n1, n2)

    still_awake : (t : ℕ) → a.live t → t ≢ k.current_tcb → Awake a k t → Awake a w.k' t
    still_awake t alive n s =
        let (n1, n2) = far t alive n in
        ((w.stay (state_item a t) n1).0 ∙ s.0, (w.stay (event_item a t) n2).0 ∙ s.1)

    still_asleep :
        (t n : ℕ) → a.live t → t ≢ k.current_tcb → Sleeps a k t (suc n) → Sleeps a w.k' t (suc n)
    still_asleep t n alive off s =
        let (n1, _) = far t alive off in
        let (at, v) = w.stay (state_item a t) n1 in
        let tick = ap (λ y. y.tick_count) w.same in
        elim s [
          | inl (e, f) ↦ inl (at ∙ e ∙ sym (ap (λ y. y.delayed_task_list) w.same), omega arith)
          | inr (e, f) ↦
              inr (at ∙ e ∙ sym (ap (λ y. y.overflow_delayed_task_list) w.same), omega arith)
        ]

-- `vTaskDelay` for 1 to 2^32 - 1 ticks, in a running scheduler with no pended tick and an empty pending ready
-- list: the call ends, no assertion fails, and the current task sleeps for the ticks that it asks for,
-- while the others that are ready or asleep stay so. After any number of ticks from
-- then on the task is still asleep if they are fewer, with the rest of the time to sleep, and otherwise
-- it is in the ready list of its priority, wherever the tick count overflows. The invariant is kept.
pub task_delay_lem :
    (a : Setting) (places : Places) (suspension : Bool) (ticks n : ℕ) (k : Kernel) (c : ℕ → List ℕ)
    → IsRunning a places k c
    → 0 < ticks
    → ticks < word_mod
    → (k1 : Kernel) × (k2 : Kernel) × (task_delay places suspension ticks k ≡ ok (some k1))
      × Delayed a k ticks k1
      × (run_ticks a.ready n k1 ≡ ok (some k2))
      × (n < ticks → Sleeps a k2 k.current_tcb (ticks - n))
      × (ticks ≤ n → Awake a k2 k.current_tcb)
      × (k2.tick_count ≡ (k.tick_count + n) % word_mod)
task_delay_lem a places suspension ticks n k c h l fits =
    let up : add_word k.scheduler_suspended 1 ≡ 1 = ap (λ v. add_word v 1) h.suspended in
    let slept =
      add_current_task_to_delayed_list_lem a (suspend_all k) c ticks
        (IsKernel-with a k c (add_word k.scheduler_suspended 1) k.pended_ticks k.yield_pending
          h.kernel)
        h.running l fits places suspension false (ground arith) in
    let (k1, resumed, d) =
      sleep-resume a places k c ticks
        (add_current_task_to_delayed_list places suspension ticks false (suspend_all k)) h l
        slept in
    let (k2, run, e) = run_ticks_lem a n k1 d.lists d.kernel d.suspended in
    let (on, off) =
      Elapsed-sleeper a k1 n k2 k.current_tcb ticks e h.kernel.scheduled.current l d.sleeps in
    (
      k1,
      k2,
      delay_runs places suspension ticks k slept.k' k1 k1.yield_pending l h.suspended slept.runs
          resumed,
      d,
      run,
      on,
      off,
      (let e1 = e.count in let e2 = d.count in omega arith),
    )
