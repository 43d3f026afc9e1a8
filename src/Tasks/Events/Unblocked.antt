-- ===== src/Tasks/Events/Unblocked.antt =====
-- A task is taken from the list of an event.
use mathlib.Core.Path.{subst}
use freertos_in_rust.Prelude.{
  ℕ, ◌+◌, ◌≤◌, ◌≡◌, refl, sym, ap, ◌∙◌, ◌≢◌, inl, inr, ◌||◌, List, ◌∷◌, ◌++◌, arith, ltb, ◌==◌,
  if◌then◌else◌, Bool-cases, ok,
}
use freertos_in_rust.Lists.{Store, list_end, insert_end, remove}
use freertos_in_rust.Lists.Segments.{Seg}
use freertos_in_rust.Lists.Members.{Within}
use freertos_in_rust.Lists.Ordered.{Ascending}
use freertos_in_rust.Lists.World.{with_list, Held-Within}
use freertos_in_rust.Tasks.Ready.{Tcb, Kernel, add_task_to_ready_list}
use freertos_in_rust.Tasks.Delays.{Places, owner_of_head_entry}
use freertos_in_rust.Tasks.Delays.Tidy.{Setting, state_item, event_item, ready_list, IsTidy}
use freertos_in_rust.Tasks.Delays.Moves.{remove-IsTidy}
use freertos_in_rust.Tasks.Delays.Unblocking.{ready-IsTidy}
use freertos_in_rust.Tasks.Delays.Loop.{Bounded-Within}
use freertos_in_rust.Tasks.Delays.Clock.{IsKernel, Awake}
use freertos_in_rust.Tasks.Delays.Sleeping.{IsKernel-change}
use freertos_in_rust.Tasks.Suspension.Resuming.{IsKernel-with}
use freertos_in_rust.Tasks.Events.{remove_from_event_list}

-- The tasks that wait in the list `l`, by their event items, in the order of their priorities below `most`.
pub record Waiters (a : Setting) (most l : ℕ) (k : Kernel) (c : ℕ → List ℕ) : Type 0 where
  pub list : a.known l
  pub first : l ≢ k.delayed_task_list
  pub second : l ≢ k.overflow_delayed_task_list
  pub ascending : Ascending k.store.items (c l)
  pub alive : (x : ℕ) → Within x (c l) → a.live (k.store.items x).owner
  pub own : (x : ℕ) → Within x (c l) → x ≡ event_item a (k.store.items x).owner
  pub ranks :
      (x : ℕ)
      → Within x (c l)
      → (k.store.items x).item_value + (a.tcbs (k.store.items x).owner).priority ≡ most
  pub blocked :
      (x : ℕ)
      → Within x (c l)
      → a.known (k.store.items (state_item a (k.store.items x).owner)).container

-- What it comes to that the first waiter is unblocked.
pub record Unblocked (a : Setting) (places : Places) (l t : ℕ) (k : Kernel) : Type 0 where
  pub k' : Kernel
  pub lists : ℕ → List ℕ
  pub run :
      remove_from_event_list places l k
      ≡ ok (k', ltb (a.tcbs k.current_tcb).priority (a.tcbs t).priority)
  pub kernel : IsKernel a k' lists
  pub awake : Awake a k' t
  pub yields :
      k'.yield_pending
      ≡ (ltb (a.tcbs k.current_tcb).priority (a.tcbs t).priority || k.yield_pending)
  pub stay :
      (r : ℕ)
      → r ≢ state_item a t
      → r ≢ event_item a t
      → (k'.store.items r).container ≡ (k.store.items r).container

-- the store of the call
abbrev awoken : Setting → ℕ → Store → Store
awoken a t s =
    insert_end (ready_list a t) (state_item a t)
      (remove (state_item a t) (remove (event_item a t) s).1).1

-- the scheduler of the call, with the bound on the ready priorities and the yield
abbrev awoken_kernel : (ℕ → Tcb) → (ℕ → ℕ) → ℕ → Kernel → Kernel
awoken_kernel tcbs ready t k = record k {
  store =
      insert_end (ready (tcbs t).priority) (tcbs t).state_list_item
        (remove (tcbs t).state_list_item (remove (tcbs t).event_list_item k.store).1).1;
  top_ready_priority =
      if ltb k.top_ready_priority (tcbs t).priority
      then (tcbs t).priority
      else k.top_ready_priority;
  yield_pending = ltb (tcbs k.current_tcb).priority (tcbs t).priority || k.yield_pending;
}

remove_running :
    (places : Places) (l t : ℕ) (k : Kernel)
    → owner_of_head_entry l k.store ≡ t
    → t ≢ 0
    → k.scheduler_suspended ≡ 0
    → remove_from_event_list places l k
      ≡ ok (
        awoken_kernel k.tcbs places.ready t k,
        ltb (k.tcbs k.current_tcb).priority (k.tcbs t).priority,
      )
unfolding remove_from_event_list add_task_to_ready_list
remove_running places l t k e n s = ground arith

module _ (a : Setting) (places : Places) (most l x : ℕ) (xs : List ℕ) (k : Kernel) (c : ℕ → List ℕ)
    (h : IsKernel a k c) (w : Waiters a most l k c) (ready : places.ready ≡ a.ready)
    (waiting : c l ≡ x ∷ xs) where
  abbrev t : ℕ
  t = (k.store.items x).owner

  abbrev s' : Store
  s' = awoken a t k.store

  there : Within x (c l)
  there = subst (Within x) (sym waiting) (inl refl)

  awoken-IsTidy :
      (c' : ℕ → List ℕ) × IsTidy a k.delayed_task_list k.overflow_delayed_task_list s' c'
      × ((s'.items (state_item a t)).container ≡ ready_list a t)
      × ((s'.items (event_item a t)).container ≡ 0)
      × ((r : ℕ)
          → r ≢ state_item a t
          → r ≢ event_item a t
          → (s'.items r).container ≡ (k.store.items r).container)
      × ((r : ℕ) → (s'.items r).item_value ≡ (k.store.items r).item_value)
  awoken-IsTidy =
      let d = k.delayed_task_list in
      let o = k.overflow_delayed_task_list in
      let e = event_item a t in
      let y = state_item a t in
      let tidy = h.scheduled.tidy in
      let alive = w.alive x there in
      let task = tidy.tasks t alive in
      let at : (k.store.items e).container ≡ l =
        ap (λ r. (k.store.items r).container) (sym (w.own x there))
        ∙ Held-Within k.store.items l x (c l) (tidy.world.lists l w.list).held there in
      let (ys, zs, _, tidy1, m1) = remove-IsTidy a d o k.store c tidy e l w.list at in
      let s1 = (remove e k.store).1 in
      let blocked : a.known (s1.items y).container =
        subst a.known (sym (m1.stay y task.differ)) (w.blocked x there) in
      let c1 = with_list c l (ys ++ zs) in
      let (ys2, zs2, _, tidy2, m2) =
        remove-IsTidy a d o s1 c1 tidy1 y (s1.items y).container blocked refl in
      let (c3, _, _, tidy3, m3) =
        ready-IsTidy a d o (remove y s1).1 (with_list c1 (s1.items y).container (ys2 ++ zs2)) tidy2
          t alive m2.to in
      let differ : e ≢ y = λ f. absurd (task.differ (sym f)) in
      (
        c3,
        tidy3,
        m3.to,
        m3.stay e differ ∙ m2.stay e differ ∙ m1.to,
        (λ r n1 n2. m3.stay r n1 ∙ m2.stay r n1 ∙ m1.stay r n2),
        (λ r. m3.values r ∙ m2.values r ∙ m1.values r),
      )

  -- `xTaskRemoveFromEventList` in a running scheduler, on a list of waiters in the order of their priorities,
  -- each of which is in another list as well, asleep or suspended: the first task of the list gets ready and stops to wait and
  -- to sleep, all other items stay where they are, and no assertion fails. It has the highest priority of
  -- the tasks that wait there. The call answers whether this is higher than the current task's, which asks
  -- for a switch. The invariant is kept.
  pub remove_from_event_list_lem :
      k.scheduler_suspended ≡ 0
      → t ≢ 0
      → Unblocked a places l t k
        × ((r : ℕ)
            → Within r (c l)
            → (a.tcbs (k.store.items r).owner).priority ≤ (a.tcbs t).priority)
  remove_from_event_list_lem running real =
      let tidy = h.scheduled.tidy in
      let (c', tidy', y_at, e_at, stay, values) = awoken-IsTidy in
      let task = tidy.tasks t (w.alive x there) in
      let ring =
        subst (λ ys. Seg k.store.items (list_end l) ys (list_end l)) waiting
          (tidy.world.lists l w.list).ring in
      let head : owner_of_head_entry l k.store ≡ t = ap (λ q. (k.store.items q).owner) ring.0 in
      let yields = ltb (a.tcbs k.current_tcb).priority (a.tcbs t).priority || k.yield_pending in
      let k1 : Kernel = awoken_kernel a.tcbs a.ready t k in
      let kernel =
        IsKernel-change a k c h s' c' k1.top_ready_priority k.next_task_unblock_time
          (state_item a t) tidy'
          (λ r n f. elim (Bool-cases (r == event_item a t)) [
            | inl same ↦
                let g : (s'.items r).container ≡ 0 =
                  ap (λ q. (s'.items q).container) {x = r} {y = event_item a t} (ground arith)
                  ∙ e_at in
                absurd (tidy.world.null (subst a.known (sym f ∙ g) tidy.first_known))
            | inr other ↦ (sym (stay r n (λ g. absurd (ground arith))) ∙ f, values r)
          ])
          (λ f. absurd (task.ready_first (sym y_at ∙ f))) (omega arith) in
      (
        record {
          k' = k1;
          lists = c';
          run =
              remove_running places l t k head real running
              ∙ ap
                  (λ (f : ℕ → Tcb). ok (
                    awoken_kernel f places.ready t k,
                    ltb (f k.current_tcb).priority (f t).priority,
                  ))
                  h.scheduled.setting
              ∙ ap
                  (λ (g : ℕ → ℕ). ok (
                    awoken_kernel a.tcbs g t k,
                    ltb (a.tcbs k.current_tcb).priority (a.tcbs t).priority,
                  ))
                  ready;
          kernel =
              IsKernel-with a (record k { store = s'; top_ready_priority = k1.top_ready_priority })
                c' k.scheduler_suspended k.pended_ticks yields kernel;
          awake = (y_at, e_at);
          yields = refl;
          stay = stay;
        },
        (λ r i. elim (subst (Within r) waiting i) [
          | inl same ↦
              subst (λ q. (a.tcbs (k.store.items q).owner).priority ≤ (a.tcbs t).priority)
                (sym same) (omega arith)
          | inr later ↦
              let bound =
                Bounded-Within k.store.items (k.store.items x).item_value r xs
                  (subst (Ascending k.store.items) waiting w.ascending).0 later in
              let r1 = w.ranks r i in let r2 = w.ranks x there in omega arith
        ]),
      )
