-- ===== src/Tasks/Delays/Sleeping.antt =====
-- The current task goes to sleep.
use mathlib.Core.Path.{subst}
use freertos_in_rust.Prelude.{
  ℕ, ◌≤◌, ◌<◌, ◌≡◌, refl, sym, ap, ◌∙◌, ◌≢◌, inl, inr, Bool, false, ◌&&◌, Option, some, List, ◌∷◌,
  ◌++◌, arith, ltb, ◌==◌, if◌then◌else◌, Bool-cases, word_mod, word_max, add_word,
}
use freertos_in_rust.Lists.{Store, insert, remove}
use freertos_in_rust.Lists.Members.{Within}
use freertos_in_rust.Lists.Ordered.{before, after}
use freertos_in_rust.Lists.World.{with_list, Held-Within}
use freertos_in_rust.Tasks.Ready.{Tcb, Kernel}
use freertos_in_rust.Tasks.Delays.{
  Places, set_item_value, delay_until_time, add_current_task_to_delayed_list,
}
use freertos_in_rust.Tasks.Delays.Tidy.{Setting, state_item, IsTidy}
use freertos_in_rust.Tasks.Delays.Moves.{remove-IsTidy, value-IsTidy, insert-IsTidy}
use freertos_in_rust.Tasks.Delays.Clock.{IsKernel, Sleeps}

module _ (a : Setting) (k : Kernel) (c : ℕ → List ℕ) (h : IsKernel a k c) where
  -- A change of the store that moves the item `x` only.
  pub IsKernel-change :
      (s : Store) (c' : ℕ → List ℕ) (top next x : ℕ)
      → IsTidy a k.delayed_task_list k.overflow_delayed_task_list s c'
      → ((r : ℕ)
          → r ≢ x
          → (s.items r).container ≡ k.delayed_task_list
          → ((k.store.items r).container ≡ k.delayed_task_list)
            × ((s.items r).item_value ≡ (k.store.items r).item_value))
      → ((s.items x).container ≡ k.delayed_task_list
          → (k.tick_count < (s.items x).item_value) × (next ≤ (s.items x).item_value))
      → next ≤ k.next_task_unblock_time
      → IsKernel a
          (record k { store = s; top_ready_priority = top; next_task_unblock_time = next })
          c'
  IsKernel-change s c' top next x tidy others own sooner = record {
    scheduled = record {
      setting = h.scheduled.setting;
      tidy = tidy;
      current = h.scheduled.current;
      tick = h.scheduled.tick;
      reach = λ r w. let l = (both r w).0 in omega arith;
      next = λ r w. (both r w).1;
    };
    later = λ r w. (both r w).0;
  }
    where
      both :
          (r : ℕ)
          → Within r (c' k.delayed_task_list)
          → (k.tick_count < (s.items r).item_value) × (next ≤ (s.items r).item_value)
      both r w =
          let at : (s.items r).container ≡ k.delayed_task_list =
            Held-Within s.items k.delayed_task_list r (c' k.delayed_task_list)
              (tidy.world.lists k.delayed_task_list tidy.first_known).held w in
          elim (Bool-cases (r == x)) [
            | inl same ↦
                let e : r ≡ x = ground arith in
                subst
                  (λ y. (k.tick_count < (s.items y).item_value) × (next ≤ (s.items y).item_value))
                  (sym e) (own (subst (λ y. (s.items y).container ≡ k.delayed_task_list) e at))
            | inr other ↦
                let (before, v) = others r (λ e. absurd (ground arith)) at in
                let first = h.scheduled.tidy.first_known in
                let i : Within r (c k.delayed_task_list) =
                  subst (λ q. Within r (c q)) before
                    (h.scheduled.tidy.world.complete r (subst a.known (sym before) first)) in
                let l = h.later r i in let n = h.scheduled.next r i in (omega arith, omega arith)
          ]

delay_over :
    (x wake : ℕ) (k : Kernel) (s : Store)
    → wake < k.tick_count
    → insert k.overflow_delayed_task_list x (set_item_value x wake k.store) ≡ some s
    → delay_until_time x wake k ≡ some (record k { store = s })
unfolding delay_until_time
delay_over x wake k s l e = ground arith

delay_on :
    (x wake : ℕ) (k : Kernel) (s : Store)
    → k.tick_count ≤ wake
    → insert k.delayed_task_list x (set_item_value x wake k.store) ≡ some s
    → delay_until_time x wake k
      ≡ some (record k {
        store = s;
        next_task_unblock_time =
            if ltb wake k.next_task_unblock_time then wake else k.next_task_unblock_time;
      })
unfolding delay_until_time
delay_on x wake k s l e = ground arith

add_delayed :
    (places : Places) (suspension indefinitely : Bool) (ticks : ℕ) (k : Kernel)
    → (suspension && ticks == word_max && indefinitely) ≡ false
    → add_current_task_to_delayed_list places suspension ticks indefinitely k
      ≡ delay_until_time
          (k.tcbs k.current_tcb).state_list_item
          (add_word k.tick_count ticks)
          (record k { store = (remove (k.tcbs k.current_tcb).state_list_item k.store).1 })
unfolding add_current_task_to_delayed_list
add_delayed places suspension indefinitely ticks k e = ground arith

-- What it comes to that the current task goes to sleep.
pub record Slept (a : Setting) (k : Kernel) (ticks : ℕ) (run : Option Kernel) : Type 0 where
  pub k' : Kernel
  pub lists : ℕ → List ℕ
  pub runs : run ≡ some k'
  pub kernel : IsKernel a k' lists
  pub sleeps : Sleeps a k' k.current_tcb ticks
  pub same : k' ≡ record k { store = k'.store; next_task_unblock_time = k'.next_task_unblock_time }
  pub stay :
      (r : ℕ)
      → r ≢ state_item a k.current_tcb
      → ((k'.store.items r).container ≡ (k.store.items r).container)
        × ((k'.store.items r).item_value ≡ (k.store.items r).item_value)

module _ (a : Setting) (k : Kernel) (c : ℕ → List ℕ) (ticks : ℕ) (h : IsKernel a k c)
    (running : a.known (k.store.items (state_item a k.current_tcb)).container)
    (some_time : 0 < ticks) (fits : ticks < word_mod) where
  abbrev x : ℕ
  x = state_item a k.current_tcb

  abbrev wake : ℕ
  wake = add_word k.tick_count ticks

  abbrev timed : Store
  timed = set_item_value x wake (remove x k.store).1

  -- the item out of its list and with its time
  timed-IsTidy :
      (c' : ℕ → List ℕ) × IsTidy a k.delayed_task_list k.overflow_delayed_task_list timed c'
      × ((timed.items x).container ≡ 0)
      × ((timed.items x).item_value ≡ wake)
      × ((r : ℕ)
          → r ≢ x
          → ((timed.items r).container ≡ (k.store.items r).container)
            × ((timed.items r).item_value ≡ (k.store.items r).item_value))
  timed-IsTidy =
      let d = k.delayed_task_list in
      let o = k.overflow_delayed_task_list in
      let l = (k.store.items x).container in
      let (ys, zs, _, tidy, moved) =
        remove-IsTidy a d o k.store c h.scheduled.tidy x l running refl in
      (
        with_list c l (ys ++ zs),
        value-IsTidy a d o (remove x k.store).1 (with_list c l (ys ++ zs)) tidy k.current_tcb wake
            h.scheduled.current moved.to (omega arith),
        ground (arith, moved.to),
        ground arith,
        (λ r n. let e = moved.stay r n in let f = moved.values r in (ground arith, ground arith)),
      )

  Slept-of :
      (l : ℕ) (next : ℕ)
      → a.known l
      → next ≤ k.next_task_unblock_time
      → (l ≡ k.delayed_task_list → (k.tick_count < wake) × (next ≤ wake))
      → ((s : Store)
          → insert l x timed ≡ some s
          → delay_until_time x wake (record k { store = (remove x k.store).1 })
            ≡ some (record k { store = s; next_task_unblock_time = next }))
      → ((s : Store)
          → (s.items x).container ≡ l
          → (s.items x).item_value ≡ wake
          → Sleeps a (record k { store = s; next_task_unblock_time = next }) k.current_tcb ticks)
      → Slept a k ticks (delay_until_time x wake (record k { store = (remove x k.store).1 }))
  Slept-of l next kl sooner first run sleep =
      let (c1, tidy, out, value, others) = timed-IsTidy in
      let (s, done, tidy', moved) =
        insert-IsTidy a k.delayed_task_list k.overflow_delayed_task_list timed c1 tidy k.current_tcb
          l h.scheduled.current kl out in
      let time : (s.items x).item_value ≡ wake = moved.values x ∙ value in
      let stay : (r : ℕ)
          → r ≢ x
          → ((s.items r).container ≡ (k.store.items r).container)
            × ((s.items r).item_value ≡ (k.store.items r).item_value) =
        λ r n. (moved.stay r n ∙ (others r n).0, moved.values r ∙ (others r n).1) in
      record {
        k' = record k { store = s; next_task_unblock_time = next };
        lists = with_list c1 l (
            before timed.items (timed.items x).item_value (c1 l)
            ++ x ∷ after timed.items (timed.items x).item_value (c1 l));
        runs = run s done;
        kernel =
            IsKernel-change a k c h s
              (with_list c1 l (
                before timed.items (timed.items x).item_value (c1 l)
                ++ x ∷ after timed.items (timed.items x).item_value (c1 l)))
              k.top_ready_priority next x tidy' (λ r n e. let (f, v) = stay r n in (sym f ∙ e, v))
              (λ e. let (l1, l2) = first (sym moved.to ∙ e) in (omega arith, omega arith)) sooner;
        sleeps = sleep s moved.to time;
        same = refl;
        stay = stay;
      }

  delay_until_time_lem :
      Slept a k ticks (delay_until_time x wake (record k { store = (remove x k.store).1 }))
  delay_until_time_lem =
      let tick = h.scheduled.tick in
      let tidy = h.scheduled.tidy in
      elim (Bool-cases (ltb wake k.tick_count)) [
        | inl over ↦
            let l : wake < k.tick_count = ground arith in
            Slept-of k.overflow_delayed_task_list k.next_task_unblock_time tidy.second_known
              (omega arith) (λ e. absurd (tidy.apart (sym e)))
              (λ s e. delay_over x wake (record k { store = (remove x k.store).1 }) s l e)
              (λ s e v. inr (e, omega arith))
        | inr on ↦
            let l : k.tick_count ≤ wake = ground arith in
            Slept-of k.delayed_task_list
              (if ltb wake k.next_task_unblock_time then wake else k.next_task_unblock_time)
              tidy.first_known (ground arith) (λ e. (omega arith, ground arith))
              (λ s e. delay_on x wake (record k { store = (remove x k.store).1 }) s l e)
              (λ s e v. inl (e, omega arith))
      ]

  -- The current task goes to sleep for as long as it asks: its item gets into the delayed list of its time, for
  -- each count of ticks so far, and every other item stays where it is.
  pub add_current_task_to_delayed_list_lem :
      (places : Places) (suspension indefinitely : Bool)
      → (suspension && ticks == word_max && indefinitely) ≡ false
      → Slept a k ticks (add_current_task_to_delayed_list places suspension ticks indefinitely k)
  add_current_task_to_delayed_list_lem places suspension indefinitely e =
      subst (Slept a k ticks)
        (sym (
          add_delayed places suspension indefinitely ticks k e
          ∙ ap
              (λ (f : ℕ → Tcb).
                delay_until_time (f k.current_tcb).state_list_item wake
                  (record k { store = (remove (f k.current_tcb).state_list_item k.store).1 }))
              h.scheduled.setting))
        delay_until_time_lem
