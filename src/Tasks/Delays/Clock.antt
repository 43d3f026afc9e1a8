-- ===== src/Tasks/Delays/Clock.antt =====
-- The invariant of the clock, the time that a task has to sleep, and what the tick does when it has been
-- counted.
use mathlib.Core.Path.{subst}
use freertos_in_rust.Prelude.{
  ℕ, suc, ◌+◌, ◌≤◌, ◌<◌, ◌≡◌, refl, sym, ap, ◌∙◌, ◌↔◌, ◌⊎◌, inl, inr, true, false, some, List, [],
  ◌∷◌, arith, leb, if◌then◌else◌, Bool-cases, word_mod,
}
use freertos_in_rust.Lists.{Items, Store}
use freertos_in_rust.Lists.Members.{Within}
use freertos_in_rust.Lists.Ordered.{before, after, Ascending}
use freertos_in_rust.Lists.World.{Held-Within}
use freertos_in_rust.Tasks.Ready.{Kernel}
use freertos_in_rust.Tasks.Delays.{wake_tasks, slice, check_delayed}
use freertos_in_rust.Tasks.Delays.Tidy.{Setting, state_item, event_item, ready_list, IsTidy}
use freertos_in_rust.Tasks.Delays.Unblocking.{Woken}
use freertos_in_rust.Tasks.Delays.Waking.{preempting, Woken-none}
use freertos_in_rust.Tasks.Delays.Loop.{Wakes, Bounded-Within, wake_tasks_lem}

-- The delayed lists are tidy, and no sleeper's time is past or before the time to look for the next one.
pub record IsScheduled (a : Setting) (k : Kernel) (c : ℕ → List ℕ) : Type 0 where
  pub setting : k.tcbs ≡ a.tcbs
  pub tidy : IsTidy a k.delayed_task_list k.overflow_delayed_task_list k.store c
  pub current : a.live k.current_tcb
  pub tick : k.tick_count < word_mod
  pub reach :
      (x : ℕ) → Within x (c k.delayed_task_list) → k.tick_count ≤ (k.store.items x).item_value
  pub next :
      (x : ℕ)
      → Within x (c k.delayed_task_list)
      → k.next_task_unblock_time ≤ (k.store.items x).item_value

-- The state between two ticks: the time of each sleeper is still to come.
pub record IsKernel (a : Setting) (k : Kernel) (c : ℕ → List ℕ) : Type 0 where
  pub scheduled : IsScheduled a k c
  pub later :
      (x : ℕ) → Within x (c k.delayed_task_list) → k.tick_count < (k.store.items x).item_value

-- The task has `n` ticks to sleep: the time of a task in the second list is behind the overflow.
abbrev pub Sleeps : Setting → Kernel → ℕ → ℕ → Type 0
Sleeps a k t n =
    (((k.store.items (state_item a t)).container ≡ k.delayed_task_list)
      × ((k.store.items (state_item a t)).item_value ≡ k.tick_count + n))
    ⊎ (((k.store.items (state_item a t)).container ≡ k.overflow_delayed_task_list)
        × (word_mod + (k.store.items (state_item a t)).item_value ≡ k.tick_count + n))

-- The task is in the ready list of its priority, and waits for no event.
abbrev pub Awake : Setting → Kernel → ℕ → Type 0
Awake a k t =
    ((k.store.items (state_item a t)).container ≡ ready_list a t)
    × ((k.store.items (event_item a t)).container ≡ 0)

pub before-small :
    (m : Items) (v x : ℕ) (xs : List ℕ)
    → Within x (before m v xs)
    → ((m x).item_value ≤ v) × Within x xs
before-small m v x [] w = absurd w
before-small m v x (y ∷ xs) w = elim (Bool-cases (leb (m y).item_value v)) [
  | inl small ↦ elim (subst (Within x) {y = y ∷ before m v xs} (ground arith) w) [
    | inl e ↦ (subst (λ z. (m z).item_value ≤ v) (sym e) (ground arith), inl e)
    | inr k ↦ let (l, i) = before-small m v x xs k in (l, inr i)
  ]
  | inr large ↦ absurd (subst (Within x) {y = []} (ground arith) w)
]

pub after-large :
    (m : Items) (v x : ℕ) (xs : List ℕ)
    → Ascending m xs
    → Within x (after m v xs)
    → (v < (m x).item_value) × Within x xs
after-large m v x [] h w = absurd w
after-large m v x (y ∷ xs) h w = elim (Bool-cases (leb (m y).item_value v)) [
  | inl small ↦
      let (l, i) =
        after-large m v x xs h.1 (subst (Within x) {y = after m v xs} (ground arith) w) in
      (l, inr i)
  | inr large ↦ elim (subst (Within x) {y = y ∷ xs} (ground arith) w) [
    | inl e ↦ (subst (λ z. v < (m z).item_value) (sym e) (ground arith), inl e)
    | inr k ↦ let bound = Bounded-Within m (m y).item_value x xs h.0 k in ((ground arith), inr k)
  ]
]

pub small-before :
    (m : Items) (v x : ℕ) (xs : List ℕ)
    → Ascending m xs
    → Within x xs
    → (m x).item_value ≤ v
    → Within x (before m v xs)
small-before m v x [] h w l = absurd w
small-before m v x (y ∷ xs) h w l = elim (Bool-cases (leb (m y).item_value v)) [
  | inl small ↦
      subst (Within x) {x = y ∷ before m v xs} (ground arith)
        (elim w [ inl e ↦ inl e | inr k ↦ inr (small-before m v x xs h.1 k l) ])
  | inr large ↦ absurd (elim w [
    | inl e ↦ let same = ap (λ z. (m z).item_value) e in ground arith
    | inr k ↦ let bound = Bounded-Within m (m y).item_value x xs h.0 k in ground arith
  ])
]

-- What a tick that has been counted comes to.
pub record Checked (a : Setting) (k : Kernel) (c : ℕ → List ℕ) : Type 0 where
  pub s : Store
  pub lists : ℕ → List ℕ
  pub top : ℕ
  pub next : ℕ
  pub due : List ℕ
  pub run :
      check_delayed a.ready k
      ≡ slice a.ready (
          some (
            record k { store = s; top_ready_priority = top; next_task_unblock_time = next },
            preempting a.tcbs k.current_tcb k.store.items due,
          ))
  pub kernel :
      IsKernel a
        (record k { store = s; top_ready_priority = top; next_task_unblock_time = next })
        lists
  pub woken : Woken a k.store s due
  pub exactly : (t : ℕ) → a.live t → Within (state_item a t) due ↔ Sleeps a k t 0
  pub above : k.top_ready_priority ≤ top
  pub reached : (x : ℕ) → Within x due → (a.tcbs (k.store.items x).owner).priority ≤ top

module _ (a : Setting) (k : Kernel) (c : ℕ → List ℕ) (h : IsScheduled a k c) where
  abbrev now : ℕ
  now = k.tick_count

  abbrev d : ℕ
  d = k.delayed_task_list

  abbrev m : Items
  m = k.store.items

  in-delayed : (x : ℕ) → (m x).container ≡ d → Within x (c d)
  in-delayed x e =
      subst (λ q. Within x (c q)) e
        (h.tidy.world.complete x (subst a.known (sym e) h.tidy.first_known))

  due-Sleeps : (t : ℕ) → a.live t → Within (state_item a t) (before m now (c d)) ↔ Sleeps a k t 0
  due-Sleeps t l = (there, back)
    where
      there : Within (state_item a t) (before m now (c d)) → Sleeps a k t 0
      there w =
          let (small, i) = before-small m now (state_item a t) (c d) w in
          let reach = h.reach (state_item a t) i in
          inl (
            Held-Within m d (state_item a t) (c d) (h.tidy.world.lists d h.tidy.first_known).held i,
            omega arith,
          )

      back : Sleeps a k t 0 → Within (state_item a t) (before m now (c d))
      back (inl s) =
          small-before m now (state_item a t) (c d) h.tidy.first.ascending
            (in-delayed (state_item a t) s.0) (let e = s.1 in omega arith)
      back (inr s) = absurd (let e = s.1 in let l = h.tick in omega arith)

  Checked-woken :
      Wakes a d k.overflow_delayed_task_list now m
        (c d)
        k
        c
        (suc (k.store.lists k.delayed_task_list).number_of_items)
        false
      → k.next_task_unblock_time ≤ now
      → Checked a k c
  Checked-woken w l = record {
    s = w.s;
    lists = w.lists;
    top = w.top;
    next = w.next;
    due = before m now (c d);
    run =
        let test : leb k.next_task_unblock_time k.tick_count ≡ true = ground arith in
        ap
          (λ b. slice a.ready (
            if b
            then wake_tasks a.ready (suc (k.store.lists k.delayed_task_list).number_of_items)
                k.tick_count k false
            else some (k, false)))
          test
        ∙ ap (slice a.ready) w.run;
    kernel = record {
      scheduled = record {
        setting = h.setting;
        tidy = w.tidy;
        current = h.current;
        tick = h.tick;
        reach = λ x i. let l = late x i in omega arith;
        next = λ x i.
            let l = w.bound x (subst (Within x) w.rest i) in
            let e = w.woken.values x in omega arith;
      };
      later = late;
    };
    woken = w.woken;
    exactly = due-Sleeps;
    above = w.above;
    reached = w.reached;
  }
    where
      late : (x : ℕ) → Within x (w.lists d) → now < (w.s.items x).item_value
      late x i =
          let (l, _) =
            after-large m now x (c d) h.tidy.first.ascending (subst (Within x) w.rest i) in
          let e = w.woken.values x in omega arith

  Checked-early : now < k.next_task_unblock_time → Checked a k c
  Checked-early l = record {
    s = k.store;
    lists = c;
    top = k.top_ready_priority;
    next = k.next_task_unblock_time;
    due = [];
    run =
        let test : leb k.next_task_unblock_time k.tick_count ≡ false = ground arith in
        ap
          (λ b. slice a.ready (
            if b
            then wake_tasks a.ready (suc (k.store.lists k.delayed_task_list).number_of_items)
                k.tick_count k false
            else some (k, false)))
          test;
    kernel = record { scheduled = h; later = λ x i. let n = h.next x i in omega arith };
    woken = Woken-none a k.store;
    exactly = λ t l'. ((λ w. absurd w), none_due t);
    above = omega arith;
    reached = λ x w. absurd w;
  }
    where
      none_due : (t : ℕ) → Sleeps a k t 0 → ⊥
      none_due t (inl s) =
          let n = h.next (state_item a t) (in-delayed (state_item a t) s.0) in
          let e = s.1 in absurd (omega arith)
      none_due t (inr s) = absurd (let e = s.1 in let l = h.tick in omega arith)

  pub check_delayed_lem : Checked a k c
  check_delayed_lem = elim (Bool-cases (leb k.next_task_unblock_time now)) [
    | inl here ↦
        let count = (h.tidy.world.lists d h.tidy.first_known).count in
        Checked-woken
          (wake_tasks_lem a d k.overflow_delayed_task_list now m
            (suc (k.store.lists k.delayed_task_list).number_of_items) (c d) k c false (omega arith)
            h.tidy.first.ascending h.tidy h.setting refl (λ r. refl) (λ r. refl) refl)
          (ground arith)
    | inr early ↦ Checked-early (ground arith)
  ]
