-- ===== src/Tasks/Tests.antt =====
-- A scheduler at the last tick count, with a current task and one that waits for an event until the count 0.
use mathlib.Core.Path.{subst}
use freertos_in_rust.Prelude.{
  ℕ, ◌+◌, ◌-◌, ◌*◌, ◌%◌, ◌≤◌, ◌<◌, ◌≡◌, refl, sym, ap, ◌∙◌, ◌≢◌, ◌⊎◌, inl, inr, Bool, false, some,
  List, [], ◌∷◌, arith, ltb, ◌==◌, if◌then◌else◌, Bool-cases, ok, word_mod, word_max,
}
use freertos_in_rust.Lists.{ListItem, Items, Store, list_end}
use freertos_in_rust.Lists.Shape.{IsList}
use freertos_in_rust.Lists.Members.{Within}
use freertos_in_rust.Lists.World.{World}
use freertos_in_rust.Lists.World.Inserting.{IsItem}
use freertos_in_rust.Tasks.Ready.{Kernel}
use freertos_in_rust.Tasks.Delays.{Places}
use freertos_in_rust.Tasks.Delays.Tidy.{Setting, state_item, event_item, IsTask, IsTidy}
use freertos_in_rust.Tasks.Delays.Clock.{IsKernel, Sleeps, Awake}
use freertos_in_rust.Tasks.Delays.Ticks.{Ticked, increment_tick_lem}
use freertos_in_rust.Tasks.Suspension.{suspend_all, resume_all, task_delay, delay_until}
use freertos_in_rust.Tasks.Suspension.Elapsed.{Elapsed}
use freertos_in_rust.Tasks.Suspension.Resuming.{IsKernel-with, resume_all_lem}
use freertos_in_rust.Tasks.Suspension.Delaying.{run_ticks, IsRunning, Delayed, task_delay_lem}
use freertos_in_rust.Tasks.Suspension.Periods.{delay_until_lem}
use freertos_in_rust.Tasks.Events.{place_on_event_list}
use freertos_in_rust.Tasks.Events.Unblocked.{Waiters, Unblocked, remove_from_event_list_lem}
use freertos_in_rust.Tasks.Events.Waiting.{place_on_event_list_lem}
use freertos_in_rust.Tasks.Priorities.{
  priority_inherit, priority_disinherit, priority_disinherit_after_timeout,
}
use freertos_in_rust.Tasks.Priorities.Inheritance.{Inherits, Apart}
use freertos_in_rust.Tasks.Priorities.Returning.{Inherited, Returned, TimedOut, inheritance_lem}

-- the ready list of priority 0, the delayed lists, the pending ready list and the list of an event
abbrev SampleKnown : ℕ → Type 0
SampleKnown l = (l ≡ 1000) ⊎ ((l ≡ 2000) ⊎ ((l ≡ 2100) ⊎ ((l ≡ 2200) ⊎ (l ≡ 2300))))

abbrev sample : Setting
sample = record {
  known = SampleKnown;
  live = λ t. (t ≡ 1) ⊎ (t ≡ 2);
  ready = λ p. 1000 + p;
  tcbs = λ t. record {
    priority = 0;
    base_priority = 0;
    mutexes_held = 0;
    state_list_item = 98 + 2 * t;
    event_list_item = 99 + 2 * t;
  };
}

-- an item that is the only one of its list
abbrev alone : ℕ → ℕ → ℕ → ListItem
alone value owner l = record {
  item_value = value;
  next = l + 8;
  previous = l + 8;
  owner = owner;
  container = l;
}

-- the end of a list with one item
abbrev end_of : ℕ → ListItem
end_of x = record { item_value = word_max; next = x; previous = x; owner = 0; container = 0 }

abbrev sample_ends : Items
sample_ends q =
    if q == 1008
    then end_of 100
    else if q == 2108
    then end_of 102
    else if q == 2308
    then end_of 103
    else end_of q

sample_ends_out : (q : ℕ) → (sample_ends q).container ≡ 0
sample_ends_out q = ground arith

abbrev sample_items : Items
sample_items q =
    if q == 100
    then alone 5 1 1000
    else if q == 101
    then record { item_value = 31; next = 0; previous = 0; owner = 1; container = 0 }
    else if q == 102
    then alone 0 2 2100
    else if q == 103
    then alone 5 2 2300
    else sample_ends q

abbrev sample_store : Store
sample_store = record {
  items = sample_items;
  lists = λ l. record {
    number_of_items = if l == 1000 then 1 else if l == 2100 then 1 else if l == 2300 then 1 else 0;
    index = list_end l;
  };
}

abbrev sample_lists : ℕ → List ℕ
sample_lists l =
    if l == 1000
    then 100 ∷ []
    else if l == 2100
    then 102 ∷ []
    else if l == 2300
    then 103 ∷ []
    else []

abbrev sample_kernel : Kernel
sample_kernel = record {
  store = sample_store;
  tcbs = sample.tcbs;
  top_ready_priority = 0;
  current_tcb = 1;
  delayed_task_list = 2000;
  overflow_delayed_task_list = 2100;
  tick_count = word_max;
  next_task_unblock_time = word_max;
  num_of_overflows = 0;
  scheduler_suspended = 0;
  pended_ticks = 0;
  yield_pending = false;
  current_number_of_tasks = 2;
}

sample_list : (l : ℕ) → SampleKnown l → IsList sample_store l (sample_lists l)
sample_list l k = elim k [
  | inl e ↦
      subst (λ l. IsList sample_store l (sample_lists l)) (sym e)
        (record {
          ring = (refl, refl, (refl, refl));
          distinct = ((λ e. absurd (omega arith), tt), (tt, tt));
          marker = refl;
          held = (refl, omega arith, tt);
          count = refl;
          fits = omega arith;
        })
  | inr k ↦ elim k [
    | inl e ↦
        subst (λ l. IsList sample_store l (sample_lists l)) (sym e)
          (record {
            ring = (refl, refl);
            distinct = (tt, tt);
            marker = refl;
            held = tt;
            count = refl;
            fits = omega arith;
          })
    | inr k ↦ elim k [
      | inl e ↦
          subst (λ l. IsList sample_store l (sample_lists l)) (sym e)
            (record {
              ring = (refl, refl, (refl, refl));
              distinct = ((λ e. absurd (omega arith), tt), (tt, tt));
              marker = refl;
              held = (refl, omega arith, tt);
              count = refl;
              fits = omega arith;
            })
      | inr k ↦ elim k [
        | inl e ↦
            subst (λ l. IsList sample_store l (sample_lists l)) (sym e)
              (record {
                ring = (refl, refl);
                distinct = (tt, tt);
                marker = refl;
                held = tt;
                count = refl;
                fits = omega arith;
              })
        | inr e ↦
            subst (λ l. IsList sample_store l (sample_lists l)) (sym e)
              (record {
                ring = (refl, refl, (refl, refl));
                distinct = ((λ e. absurd (omega arith), tt), (tt, tt));
                marker = refl;
                held = (refl, omega arith, tt);
                count = refl;
                fits = omega arith;
              })
      ]
    ]
  ]
]

sample_end : (l : ℕ) → SampleKnown l → (sample_items (list_end l)).container ≡ 0
sample_end l k = ground arith

sample_null : ¬ SampleKnown 0
sample_null k = ground arith

items_end :
    (x : ℕ)
    → (x == 100) ≡ false
    → (x == 101) ≡ false
    → (x == 102) ≡ false
    → (x == 103) ≡ false
    → sample_items x ≡ sample_ends x
items_end x e1 e2 e3 e4 = rw (e1, e2, e3, e4) refl

-- the items in lists
sample_containers :
    (x : ℕ) → (x ≡ 100) ⊎ ((x ≡ 102) ⊎ ((x ≡ 103) ⊎ ((sample_items x).container ≡ 0)))
sample_containers x = elim (Bool-cases (x == 100)) [
  | inl first ↦ inl (ground arith)
  | inr other1 ↦ elim (Bool-cases (x == 102)) [
    | inl second ↦ inr (inl (ground arith))
    | inr other2 ↦ elim (Bool-cases (x == 103)) [
      | inl third ↦ inr (inr (inl (ground arith)))
      | inr none_there ↦
          let out = sample_ends_out x in
          elim (Bool-cases (x == 101)) [
            | inl event ↦
                inr (
                  inr (inr (ap (λ q. (sample_items q).container) {x = x} {y = 101} (ground arith))))
            | inr end ↦ inr (
                inr (
                  inr (
                    ap (λ (i : ListItem). i.container) (items_end x other1 end other2 none_there)
                    ∙ out)))
          ]
    ]
  ]
]

sample-World : World SampleKnown sample_store sample_lists
sample-World = record {
  lists = sample_list;
  index = λ l k. inl refl;
  ends = sample_end;
  null = sample_null;
  complete = λ x k. elim (sample_containers x) [
    | inl e ↦ subst (λ x. Within x (sample_lists (sample_items x).container)) (sym e) (inl refl)
    | inr other ↦ elim other [
      | inl e ↦ subst (λ x. Within x (sample_lists (sample_items x).container)) (sym e) (inl refl)
      | inr other ↦ elim other [
        | inl e ↦ subst (λ x. Within x (sample_lists (sample_items x).container)) (sym e) (inl refl)
        | inr e ↦ absurd (sample_null (subst SampleKnown e k))
      ]
    ]
  ];
  real = λ x k. elim (sample_containers x) [
    | inl e ↦ (omega arith, omega arith)
    | inr other ↦ elim other [
      | inl e ↦ (omega arith, omega arith)
      | inr other ↦ elim other [
        | inl e ↦ (omega arith, omega arith)
        | inr e ↦ absurd (sample_null (subst SampleKnown e k))
      ]
    ]
  ];
}

sample-IsItem : (x : ℕ) → 100 ≤ x → x < 104 → IsItem SampleKnown x
sample-IsItem x l1 l2 = (omega arith, omega arith, λ q k e. absurd (ground arith))

sample-IsTask : (t : ℕ) → sample.live t → IsTask sample 2000 2100 sample_items t
sample-IsTask t alive = elim alive [
  | inl e ↦ subst (IsTask sample 2000 2100 sample_items) (sym e) (record {
    state = sample-IsItem 100 (omega arith) (omega arith);
    event = sample-IsItem 101 (omega arith) (omega arith);
    differ = λ e. absurd (omega arith);
    state_owner = refl;
    event_owner = refl;
    value = omega arith;
    event_value = omega arith;
    waits = inl refl;
    ready_known = inl refl;
    ready_first = λ e. absurd (omega arith);
    ready_second = λ e. absurd (omega arith);
  })
  | inr e ↦ subst (IsTask sample 2000 2100 sample_items) (sym e) (record {
    state = sample-IsItem 102 (omega arith) (omega arith);
    event = sample-IsItem 103 (omega arith) (omega arith);
    differ = λ e. absurd (omega arith);
    state_owner = refl;
    event_owner = refl;
    value = omega arith;
    event_value = omega arith;
    waits = inr (inr (inr (inr (inr refl))));
    ready_known = inl refl;
    ready_first = λ e. absurd (omega arith);
    ready_second = λ e. absurd (omega arith);
  })
]

-- a list with the second task alone
sample_sleeper : (x : ℕ) → Within x (102 ∷ []) → x ≡ 102
sample_sleeper x (inl e) = e
sample_sleeper x (inr w) = absurd w

sample-IsTidy : IsTidy sample 2000 2100 sample_store sample_lists
sample-IsTidy = record {
  world = sample-World;
  apart = λ e. absurd (omega arith);
  first_known = inr (inl refl);
  second_known = inr (inr (inl refl));
  first = record { ascending = tt; alive = λ x w. absurd w; own = λ x w. absurd w };
  second = record {
    ascending = (tt, tt);
    alive = λ x w.
        subst (λ x. sample.live (sample_items x).owner) (sym (sample_sleeper x w)) (inr refl);
    own = λ x w.
        subst (λ x. x ≡ state_item sample (sample_items x).owner) (sym (sample_sleeper x w)) refl;
  };
  tasks = sample-IsTask;
}

sample-IsKernel : IsKernel sample sample_kernel sample_lists
sample-IsKernel = record {
  scheduled = record {
    setting = refl;
    tidy = sample-IsTidy;
    current = inl refl;
    tick = omega arith;
    reach = λ x w. absurd w;
    next = λ x w. absurd w;
  };
  later = λ x w. absurd w;
}

abbrev sample_places : Places
sample_places = record { ready = sample.ready; pending_ready = 2200; suspended = 2400 }

-- The tick wakes the task.
increment_tick_lem_example : Ticked sample sample_kernel
increment_tick_lem_example =
    increment_tick_lem sample sample_kernel sample_lists sample-IsKernel refl

sample-Sleeps : Sleeps sample sample_kernel 2 1
sample-Sleeps = inr (refl, omega arith)

sample-Awake :
    Awake sample (increment_tick_lem sample sample_kernel sample_lists sample-IsKernel refl).k' 2
sample-Awake =
    (increment_tick_lem sample sample_kernel sample_lists sample-IsKernel refl).wakes 2 (inr refl)
      sample-Sleeps

sample-IsRunning : IsRunning sample sample_places sample_kernel sample_lists
sample-IsRunning = record {
  kernel = sample-IsKernel;
  ready = refl;
  pending_known = inr (inr (inr (inl refl)));
  pending_first = λ e. absurd (omega arith);
  pending_second = λ e. absurd (omega arith);
  pending_none = refl;
  suspended = refl;
  pended = refl;
  tasks = omega arith;
  running = inl refl;
}

-- The current task sleeps for five ticks.
task_delay_lem_example :
    (k1 : Kernel) × (k2 : Kernel) × (task_delay sample_places false 5 sample_kernel ≡ ok (some k1))
    × Delayed sample sample_kernel 5 k1
    × (run_ticks sample.ready 3 k1 ≡ ok (some k2))
    × (3 < 5 → Sleeps sample k2 sample_kernel.current_tcb (5 - 3))
    × (5 ≤ 3 → Awake sample k2 sample_kernel.current_tcb)
    × (k2.tick_count ≡ (sample_kernel.tick_count + 3) % word_mod)
task_delay_lem_example =
    task_delay_lem sample sample_places false 5 3 sample_kernel sample_lists sample-IsRunning
      (omega arith) (omega arith)

-- The period of ten ticks began three ticks ago.
delay_until_lem_example :
    (k' : Kernel) × (delay_until sample_places false (word_max - 3) 10 sample_kernel
      ≡ ((word_max - 3 + 10) % word_mod, ltb 3 10, ok (some k')))
    × (3 < 10 → Delayed sample sample_kernel (10 - 3) k')
    × (10 ≤ 3 → (k'.scheduler_suspended ≡ 0) × Elapsed sample sample_kernel 0 k')
delay_until_lem_example =
    delay_until_lem sample sample_places false (word_max - 3) 3 10 sample_kernel sample_lists
      sample-IsRunning (omega arith) (omega arith) (omega arith) (omega arith) (omega arith)

-- the scheduler was suspended while two ticks came
abbrev sample_suspended : Kernel
sample_suspended = record sample_kernel { scheduler_suspended = 1; pended_ticks = 2 }

resume_all_lem_example :
    (k' : Kernel) × (resume_all sample_places sample_suspended ≡ ok (some (k', k'.yield_pending)))
    × (k'.scheduler_suspended ≡ 0)
    × (k'.pended_ticks ≡ 0)
    × Elapsed sample sample_suspended sample_suspended.pended_ticks k'
resume_all_lem_example =
    resume_all_lem sample sample_places sample_suspended sample_lists
      (IsKernel-with sample sample_kernel sample_lists 1 2 false sample-IsKernel) refl refl
      (omega arith) refl

-- The second task is the only one that waits for the event.
sample_waiter : (x : ℕ) → Within x (103 ∷ []) → x ≡ 103
sample_waiter x (inl e) = e
sample_waiter x (inr w) = absurd w

sample-Waiters : Waiters sample 5 2300 sample_kernel sample_lists
sample-Waiters = record {
  list = inr (inr (inr (inr refl)));
  first = λ e. absurd (omega arith);
  second = λ e. absurd (omega arith);
  ascending = (tt, tt);
  alive =
      λ x w. subst (λ x. sample.live (sample_items x).owner) (sym (sample_waiter x w)) (inr refl);
  own = λ x w.
      subst (λ x. x ≡ event_item sample (sample_items x).owner) (sym (sample_waiter x w)) refl;
  ranks = λ x w.
      subst (λ x. (sample_items x).item_value + (sample.tcbs (sample_items x).owner).priority ≡ 5)
        (sym (sample_waiter x w)) (omega arith);
  blocked = λ x w.
      subst (λ x. SampleKnown (sample_items (state_item sample (sample_items x).owner)).container)
        (sym (sample_waiter x w)) (inr (inr (inl refl)));
}

-- The event comes.
remove_from_event_list_lem_example :
    Unblocked sample sample_places 2300 2 sample_kernel
    × ((r : ℕ)
        → Within r (103 ∷ [])
        → (sample.tcbs (sample_kernel.store.items r).owner).priority ≤ 0)
remove_from_event_list_lem_example =
    remove_from_event_list_lem sample sample_places 5 2300 103 [] sample_kernel sample_lists
      sample-IsKernel sample-Waiters refl refl refl (λ e. absurd (omega arith))

-- The current task waits for the event as well, with a timeout of five ticks.
place_on_event_list_lem_example :
    (k1 : Kernel) × (k2 : Kernel) × (k3 : Kernel) × (c' : ℕ → List ℕ) × (place_on_event_list
        sample_places false 2300 5
        (suspend_all sample_kernel)
      ≡ ok (some k1))
    × ((k1.store.items 101).container ≡ 2300)
    × (resume_all sample_places k1 ≡ ok (some (k2, k2.yield_pending)))
    × (run_ticks sample.ready 7 k2 ≡ ok (some k3))
    × IsKernel sample k3 c'
    × (7 < 5 → Sleeps sample k3 sample_kernel.current_tcb (5 - 7))
    × (5 ≤ 7 → Awake sample k3 sample_kernel.current_tcb)
place_on_event_list_lem_example =
    place_on_event_list_lem sample sample_places false 2300 5 7 sample_kernel sample_lists
      sample-IsRunning (inr (inr (inr (inr refl)))) (λ e. absurd (omega arith))
      (λ e. absurd (omega arith)) (λ e. absurd (omega arith)) refl (omega arith) (omega arith)

-- The first task holds a mutex, and the second one with a higher priority comes to wait for it.
abbrev mutex_kernel : Kernel
mutex_kernel = record sample_kernel {
  current_tcb = 2;
  tcbs = λ t. record {
    priority = if t == 1 then 0 else 3;
    base_priority = if t == 1 then 0 else 3;
    mutexes_held = 1;
    state_list_item = 98 + 2 * t;
    event_list_item = 99 + 2 * t;
  };
}

abbrev mutex_lists : ℕ → ℕ
mutex_lists p = 1000 * (p + 1)

mutex-Apart : Apart mutex_lists sample.live mutex_kernel
mutex-Apart = record { items = λ t u l k n e. n (omega arith); lists = λ p q e. omega arith }

mutex-Inherits : (u : ℕ) → sample.live u → Inherits mutex_lists mutex_kernel u
mutex-Inherits u live = elim live [
  | inl e ↦
      subst (Inherits mutex_lists mutex_kernel) (sym e)
        (record { above = omega arith; owes = λ n. absurd (n refl); placed = λ p e. omega arith })
  | inr e ↦ subst (Inherits mutex_lists mutex_kernel) (sym e) (record {
    above = omega arith;
    owes = λ n. absurd (n refl);
    placed = λ p e. absurd (omega arith);
  })
]

some_mutex : 0 < (mutex_kernel.tcbs 1).mutexes_held
some_mutex = omega arith

real_task : ◌≢◌ {A = ℕ} 1 0
real_task e = absurd (omega arith)

inheritance_lem_example :
    Inherited mutex_lists sample.live 5 1 mutex_kernel mutex-Apart
      (inl refl)
      real_task
      some_mutex
      mutex-Inherits
      (priority_inherit mutex_lists 5 1 mutex_kernel)
    × (1 ≡ mutex_kernel.current_tcb
        → (k' : Kernel) × (switch : Bool) × (priority_disinherit mutex_lists 5 1 mutex_kernel
            ≡ ok (k', switch))
          × Returned mutex_lists sample.live 5 1 mutex_kernel mutex-Apart
              (inl refl)
              real_task
              some_mutex
              mutex-Inherits
              (k', switch))
    × ((highest : ℕ)
        → 1 ≢ mutex_kernel.current_tcb
        → (k' : Kernel) × (priority_disinherit_after_timeout mutex_lists 5 1 highest mutex_kernel
            ≡ ok k')
          × TimedOut mutex_lists sample.live 5 1 mutex_kernel mutex-Apart
              (inl refl)
              real_task
              some_mutex
              mutex-Inherits
              highest
              k')
inheritance_lem_example =
    inheritance_lem mutex_lists sample.live 5 1 mutex_kernel mutex-Apart (inl refl) real_task
      some_mutex mutex-Inherits
