-- ===== src/Tasks/Delays/Ticks.antt =====
-- A tick wakes the tasks whose time has come.
use mathlib.Core.Path.{subst}
use freertos_in_rust.Prelude.{
  ℕ, suc, ◌+◌, ◌≡◌, refl, sym, ap, ◌∙◌, ◌≢◌, ◌↔◌, inl, inr, Bool, true, false, ◌||◌, some, List,
  arith, ltb, ◌==◌, if◌then◌else◌, ok, ◌>>=◌, word_mod, add_word,
}
use freertos_in_rust.Lists.{Store}
use freertos_in_rust.Lists.Members.{Within}
use freertos_in_rust.Tasks.Ready.{Kernel}
use freertos_in_rust.Tasks.Delays.{switch_delayed_lists, check_delayed, increment_tick}
use freertos_in_rust.Tasks.Delays.Tidy.{Setting, state_item, event_item}
use freertos_in_rust.Tasks.Delays.Unblocking.{Woken}
use freertos_in_rust.Tasks.Delays.Waking.{preempting, apart_tasks}
use freertos_in_rust.Tasks.Delays.Clock.{IsScheduled, IsKernel, Sleeps, Awake, check_delayed_lem}
use freertos_in_rust.Tasks.Delays.Start.{ticked, restarted, start_lem}

-- What a tick comes to: `due` are the items of the tasks that it wakes.
pub record Ticked (a : Setting) (k : Kernel) : Type 0 where
  pub k' : Kernel
  pub lists : ℕ → List ℕ
  pub due : List ℕ
  pub switch : Bool
  pub run : increment_tick a.ready k ≡ ok (some (k', switch))
  pub kernel : IsKernel a k' lists
  pub count : k'.tick_count ≡ add_word k.tick_count 1
  pub overflows :
      k'.num_of_overflows
      ≡ (if add_word k.tick_count 1 == 0 then add_word k.num_of_overflows 1 else k.num_of_overflows)
  pub current : k'.current_tcb ≡ k.current_tcb
  pub suspended : k'.scheduler_suspended ≡ k.scheduler_suspended
  pub pended : k'.pended_ticks ≡ k.pended_ticks
  pub yields : k'.yield_pending ≡ k.yield_pending
  pub wakes : (t : ℕ) → a.live t → Sleeps a k t 1 → Awake a k' t
  pub waits : (t n : ℕ) → a.live t → Sleeps a k t (suc (suc n)) ↔ Sleeps a k' t (suc n)
  pub others :
      (r : ℕ)
      → ((t : ℕ) → a.live t → Sleeps a k t 1 → (r ≢ state_item a t) × (r ≢ event_item a t))
      → (k'.store.items r).container ≡ (k.store.items r).container
  pub members : (t : ℕ) → a.live t → Within (state_item a t) due ↔ Sleeps a k t 1
  pub switches : switch ≡ (
      preempting a.tcbs k.current_tcb k.store.items due
      || ltb 1 (k'.store.lists (a.ready (k'.tcbs k.current_tcb).priority)).number_of_items
      || k.yield_pending)

increment_running :
    (ready : ℕ → ℕ) (k k1 : Kernel)
    → k.scheduler_suspended ≡ 0
    → (if add_word k.tick_count 1 == 0 then switch_delayed_lists (ticked k) else ok (ticked k))
      ≡ ok k1
    → increment_tick ready k ≡ ok (check_delayed ready k1)
unfolding increment_tick
increment_running ready k k1 e s =
    ap
      (λ (b : Bool).
        if b
        then (if add_word k.tick_count 1 == 0
            then switch_delayed_lists (ticked k)
            else ok (ticked k))
          >>= (λ k. ok (check_delayed ready k))
        else ok (some (record k { pended_ticks = add_word k.pended_ticks 1 }, false)))
      {x = k.scheduler_suspended == 0} {y = true} (ground arith)
    ∙ ap (λ q. q >>= (λ k. ok (check_delayed ready k))) s

-- a task sleeps for one time only
Sleeps-once :
    (a : Setting) (k : Kernel) (t n : ℕ)
    → k.delayed_task_list ≢ k.overflow_delayed_task_list
    → Sleeps a k t 0
    → Sleeps a k t (suc n)
    → ⊥
Sleeps-once a k t n apart (inl (e, v)) (inl (f, w)) = absurd (omega arith)
Sleeps-once a k t n apart (inl (e, v)) (inr (f, w)) = apart (sym e ∙ f)
Sleeps-once a k t n apart (inr (e, v)) (inl (f, w)) = apart (sym f ∙ e)
Sleeps-once a k t n apart (inr (e, v)) (inr (f, w)) = absurd (omega arith)

module _ (a : Setting) (k : Kernel) (c : ℕ → List ℕ) (s : Store) (top next : ℕ) (due : List ℕ)
    (h : IsScheduled a k c) (woken : Woken a k.store s due)
    (exactly : (t : ℕ) → a.live t → Within (state_item a t) due ↔ Sleeps a k t 0) where
  -- a task that is not due stays in its lists
  stays :
      (t : ℕ)
      → a.live t
      → ¬ Within (state_item a t) due
      → (s.items (state_item a t)).container ≡ (k.store.items (state_item a t)).container
  stays t l n = woken.stay (state_item a t) (λ u lu w.
      let off : t ≢ u = λ e. absurd (n (subst (λ v. Within (state_item a v) due) (sym e) w)) in
      let (n1, n2, _, _) =
        apart_tasks a k.delayed_task_list k.overflow_delayed_task_list k.store.items t u
          (h.tidy.tasks t l) (h.tidy.tasks u lu) off in
      (n1, n2))

  abbrev after_wakes : Kernel
  after_wakes = record k { store = s; top_ready_priority = top; next_task_unblock_time = next }

  pub waits_on : (t n : ℕ) → a.live t → Sleeps a k t (suc n) ↔ Sleeps a after_wakes t (suc n)
  waits_on t n l = ((λ w. there w), (λ w. back w))
    where
      there : Sleeps a k t (suc n) → Sleeps a after_wakes t (suc n)
      there w =
          let same = stays t l (λ i. Sleeps-once a k t n h.tidy.apart ((exactly t l).0 i) w) in
          elim w [
            | inl (e, v) ↦ inl (same ∙ e, woken.values (state_item a t) ∙ v)
            | inr (e, v) ↦
                inr (same ∙ e, ap (λ v. word_mod + v) (woken.values (state_item a t)) ∙ v)
          ]

      back : Sleeps a after_wakes t (suc n) → Sleeps a k t (suc n)
      back (inl (e, v)) =
          let same =
            stays t l
              (λ i. absurd ((h.tidy.tasks t l).ready_first (sym (woken.ready t l i).0 ∙ e))) in
          inl (sym same ∙ e, sym (woken.values (state_item a t)) ∙ v)
      back (inr (e, v)) =
          let same =
            stays t l
              (λ i. absurd ((h.tidy.tasks t l).ready_second (sym (woken.ready t l i).0 ∙ e))) in
          inr (sym same ∙ e, sym (ap (λ v. word_mod + v) (woken.values (state_item a t))) ∙ v)

-- `xTaskIncrementTick` while the scheduler runs: no assertion fails and the loop ends. The tick count goes
-- on by one, through its overflow, which is counted in a 32-bit word and at which the two delayed lists change their roles.
-- The tasks with one tick left to sleep, and no others, go to the ready list of their priority and stop
-- to wait for their event; each other sleeper has one tick less to sleep, and no task gets to sleep. A
-- switch is asked for if a task woken has a higher priority than the current one, if the ready list of its
-- priority then holds more than one task, or if a yield is pending. The invariant is kept.
pub increment_tick_lem :
    (a : Setting) (k : Kernel) (c : ℕ → List ℕ)
    → IsKernel a k c
    → k.scheduler_suspended ≡ 0
    → Ticked a k
increment_tick_lem a k c h e =
    let st = start_lem a k c h in
    let k1 = restarted k st.first st.second st.overflows st.next in
    let ch = check_delayed_lem a k1 c st.scheduled in
    let k2 : Kernel = record k1 {
      store = ch.s;
      top_ready_priority = ch.top;
      next_task_unblock_time = ch.next;
    } in
    let wakes : (t : ℕ) → a.live t → Sleeps a k t 1 → Within (state_item a t) ch.due =
      λ t l w. (ch.exactly t l).1 ((st.sleeps t 0 l).0 w) in
    let asleep : (t : ℕ) → a.live t → Within (state_item a t) ch.due → Sleeps a k t 1 =
      λ t l w. (st.sleeps t 0 l).1 ((ch.exactly t l).0 w) in
    let on = waits_on a k1 c ch.s ch.top ch.next ch.due st.scheduled ch.woken ch.exactly in
    record {
      k' = k2;
      lists = ch.lists;
      due = ch.due;
      switch =
          preempting a.tcbs k.current_tcb k.store.items ch.due
          || ltb 1 (ch.s.lists (a.ready (k.tcbs k.current_tcb).priority)).number_of_items
          || k.yield_pending;
      run = increment_running a.ready k k1 e st.run ∙ ap (λ q. ok q) ch.run;
      kernel = ch.kernel;
      count = refl;
      overflows = st.counted;
      current = refl;
      suspended = refl;
      pended = refl;
      yields = refl;
      wakes = λ t l w. ch.woken.ready t l (wakes t l w);
      waits = λ t n l.
          let (there, back) = on t n l in
          let (down, up) = st.sleeps t (suc n) l in ((λ w. there (down w)), (λ w. up (back w)));
      others = λ r n. ch.woken.stay r (λ t l w. n t l (asleep t l w));
      members = λ t l. ((λ w. asleep t l w), (λ w. wakes t l w));
      switches = refl;
    }
