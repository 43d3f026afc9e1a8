-- ===== src/Tasks/Delays/Start.antt =====
-- The start of a tick: the count goes on, and the delayed lists change their roles when it overflows.
use mathlib.Core.Path.{subst}
use freertos_in_rust.Prelude.{
  ℕ, suc, ◌≤◌, ◌<◌, ◌≡◌, refl, sym, ap, ◌∙◌, ◌≢◌, ◌↔◌, inl, inr, true, List, [], ◌∷◌, arith, ◌==◌,
  if◌then◌else◌, Bool-cases, length, ok, word_max, add_word,
}
use freertos_in_rust.Lists.{Items, list_end}
use freertos_in_rust.Lists.Segments.{Seg}
use freertos_in_rust.Lists.Members.{Within}
use freertos_in_rust.Lists.Ordered.{Ascending}
use freertos_in_rust.Tasks.Ready.{Tcb, Kernel}
use freertos_in_rust.Tasks.Delays.{
  owner_of_head_entry, reset_next_task_unblock_time, switch_delayed_lists,
}
use freertos_in_rust.Tasks.Delays.Tidy.{Setting, state_item, IsTidy}
use freertos_in_rust.Tasks.Delays.Loop.{Bounded-Within}
use freertos_in_rust.Tasks.Delays.Clock.{IsScheduled, IsKernel, Sleeps}

reset_empty :
    (k : Kernel)
    → (k.store.lists k.delayed_task_list).number_of_items ≡ 0
    → reset_next_task_unblock_time k ≡ record k { next_task_unblock_time = word_max }
unfolding reset_next_task_unblock_time
reset_empty k e = ground arith

reset_first :
    (k : Kernel) (t : ℕ)
    → (k.store.lists k.delayed_task_list).number_of_items ≢ 0
    → owner_of_head_entry k.delayed_task_list k.store ≡ t
    → reset_next_task_unblock_time k
      ≡ record k { next_task_unblock_time = (k.store.items (k.tcbs t).state_list_item).item_value }
unfolding reset_next_task_unblock_time
reset_first k t e h = ground arith

-- The time to look for the next sleeper is not behind any of their times.
pub reset_next_task_unblock_time_lem :
    (a : Setting) (k : Kernel) (c : ℕ → List ℕ) (xs : List ℕ)
    → k.tcbs ≡ a.tcbs
    → IsTidy a k.delayed_task_list k.overflow_delayed_task_list k.store c
    → c k.delayed_task_list ≡ xs
    → (v : ℕ) × (reset_next_task_unblock_time k ≡ record k { next_task_unblock_time = v })
      × ((x : ℕ) → Within x (c k.delayed_task_list) → v ≤ (k.store.items x).item_value)
reset_next_task_unblock_time_lem a k c [] tcbs h e = (
  word_max,
  reset_empty k ((h.world.lists k.delayed_task_list h.first_known).count ∙ ap length e),
  (λ x w. absurd (subst (Within x) e w)),
)
reset_next_task_unblock_time_lem a k c (x ∷ xs) tcbs h e =
    let m = k.store.items in
    let list = h.world.lists k.delayed_task_list h.first_known in
    let ring =
      subst (λ ys. Seg m (list_end k.delayed_task_list) ys (list_end k.delayed_task_list)) e
        list.ring in
    let head : owner_of_head_entry k.delayed_task_list k.store ≡ (m x).owner =
      ap (λ q. (m q).owner) ring.0 in
    let full : (k.store.lists k.delayed_task_list).number_of_items ≢ 0 =
      λ z. absurd (let count = list.count ∙ ap length e in omega arith) in
    let value : (m (k.tcbs (m x).owner).state_list_item).item_value ≡ (m x).item_value =
      ap (λ (f : ℕ → Tcb). (m (f (m x).owner).state_list_item).item_value) tcbs
      ∙ ap (λ y. (m y).item_value) (sym (h.first.own x (subst (Within x) (sym e) (inl refl)))) in
    let ascending = subst (Ascending m) e h.first.ascending in
    (
      (m x).item_value,
      reset_first k (m x).owner full head ∙ ap (λ v. record k { next_task_unblock_time = v }) value,
      (λ y w. elim (subst (Within y) e w) [
        | inl same ↦ let v = ap (λ z. (m z).item_value) same in omega arith
        | inr later ↦ Bounded-Within m (m x).item_value y xs ascending.0 later
      ]),
    )

abbrev pub ticked : Kernel → Kernel
ticked k = record k { tick_count = add_word k.tick_count 1 }

abbrev pub switched : Kernel → Kernel
switched k = record k {
  delayed_task_list = k.overflow_delayed_task_list;
  overflow_delayed_task_list = k.delayed_task_list;
  num_of_overflows = add_word k.num_of_overflows 1;
}

switch_empty :
    (k : Kernel)
    → (k.store.lists k.delayed_task_list).number_of_items ≡ 0
    → switch_delayed_lists k ≡ ok (reset_next_task_unblock_time (switched k))
unfolding switch_delayed_lists
switch_empty k e = ground arith

abbrev pub restarted : Kernel → ℕ → ℕ → ℕ → ℕ → Kernel
restarted k first second overflows next = record (ticked k) {
  delayed_task_list = first;
  overflow_delayed_task_list = second;
  num_of_overflows = overflows;
  next_task_unblock_time = next;
}

-- What the start of a tick comes to.
pub record Started (a : Setting) (k : Kernel) (c : ℕ → List ℕ) : Type 0 where
  pub first : ℕ
  pub second : ℕ
  pub overflows : ℕ
  pub next : ℕ
  pub run :
      (if add_word k.tick_count 1 == 0 then switch_delayed_lists (ticked k) else ok (ticked k))
      ≡ ok (restarted k first second overflows next)
  pub scheduled : IsScheduled a (restarted k first second overflows next) c
  pub counted :
      overflows
      ≡ (if add_word k.tick_count 1 == 0 then add_word k.num_of_overflows 1 else k.num_of_overflows)
  pub sleeps :
      (t n : ℕ)
      → a.live t
      → Sleeps a k t (suc n) ↔ Sleeps a (restarted k first second overflows next) t n

module _ (a : Setting) (k : Kernel) (c : ℕ → List ℕ) (h : IsKernel a k c) where
  abbrev d : ℕ
  d = k.delayed_task_list

  abbrev m : Items
  m = k.store.items

  -- before the overflow
  Started-on : k.tick_count < word_max → Started a k c
  Started-on l = record {
    first = k.delayed_task_list;
    second = k.overflow_delayed_task_list;
    overflows = k.num_of_overflows;
    next = k.next_task_unblock_time;
    run = ground arith;
    scheduled = record {
      setting = h.scheduled.setting;
      tidy = h.scheduled.tidy;
      current = h.scheduled.current;
      tick = omega arith;
      reach = λ x w. let v = h.later x w in omega arith;
      next = h.scheduled.next;
    };
    counted = ground arith;
    sleeps = λ t n _. ((λ s. there t n s), (λ s. back t n s));
  }
    where
      there :
          (t n : ℕ)
          → Sleeps a k t (suc n)
          → Sleeps a
              (restarted k k.delayed_task_list k.overflow_delayed_task_list k.num_of_overflows
                k.next_task_unblock_time)
              t
              n
      there t n (inl (e, v)) = inl (e, omega arith)
      there t n (inr (e, v)) = inr (e, omega arith)

      back :
          (t n : ℕ)
          → Sleeps a
              (restarted k k.delayed_task_list k.overflow_delayed_task_list k.num_of_overflows
                k.next_task_unblock_time)
              t
              n
          → Sleeps a k t (suc n)
      back t n (inl (e, v)) = inl (e, omega arith)
      back t n (inr (e, v)) = inr (e, omega arith)

  -- the first list is empty when the count overflows
  none_late : k.tick_count ≡ word_max → (xs : List ℕ) → c d ≡ xs → c d ≡ []
  none_late e [] f = f
  none_late e (x ∷ xs) f = absurd (
      let w : Within x (c d) = subst (Within x) (sym f) (inl refl) in
      let t = h.scheduled.tidy.first in
      let v = h.later x w in
      let task = h.scheduled.tidy.tasks (m x).owner (t.alive x w) in
      let fits : (m x).item_value ≤ word_max =
        subst (λ y. (m y).item_value ≤ word_max) (sym (t.own x w)) task.value in
      omega arith)

  -- at the overflow
  Started-over : k.tick_count ≡ word_max → Started a k c
  Started-over l =
      let tidy = h.scheduled.tidy in
      let turned : IsTidy a k.overflow_delayed_task_list k.delayed_task_list k.store c = record {
        world = tidy.world;
        apart = λ e. tidy.apart (sym e);
        first_known = tidy.second_known;
        second_known = tidy.first_known;
        first = tidy.second;
        second = tidy.first;
        tasks = λ t alive.
            let task = tidy.tasks t alive in
            record {
              state = task.state;
              event = task.event;
              differ = task.differ;
              state_owner = task.state_owner;
              event_owner = task.event_owner;
              value = task.value;
              event_value = task.event_value;
              waits = task.waits;
              ready_known = task.ready_known;
              ready_first = task.ready_second;
              ready_second = task.ready_first;
            };
      } in
      let count =
        (tidy.world.lists d tidy.first_known).count ∙ ap length (none_late l (c d) refl) in
      let (next, reset, bound) =
        reset_next_task_unblock_time_lem a (switched (ticked k)) c (c k.overflow_delayed_task_list)
          h.scheduled.setting turned refl in
      let zero_now : add_word k.tick_count 1 ≡ 0 = omega arith in
      let new : Kernel =
        restarted k k.overflow_delayed_task_list k.delayed_task_list (add_word k.num_of_overflows 1)
          next in
      record {
        first = k.overflow_delayed_task_list;
        second = k.delayed_task_list;
        overflows = add_word k.num_of_overflows 1;
        next = next;
        run =
            let test : (add_word k.tick_count 1 == 0) ≡ true = ground arith in
            ap (λ b. if b then switch_delayed_lists (ticked k) else ok (ticked k)) test
            ∙ switch_empty (ticked k) count
            ∙ ap (λ q. ok q) reset;
        scheduled = record {
          setting = h.scheduled.setting;
          tidy = turned;
          current = h.scheduled.current;
          tick = omega arith;
          reach = λ x w. omega arith;
          next = bound;
        };
        counted = ground arith;
        sleeps = λ t n alive. ((λ s. there t n alive next s), (λ s. back t n alive next s));
      }
    where
      there :
          (t n : ℕ)
          → a.live t
          → (next : ℕ) → Sleeps a k t (suc n)
          → Sleeps a
              (restarted k k.overflow_delayed_task_list k.delayed_task_list
                (add_word k.num_of_overflows 1)
                next)
              t
              n
      there t n alive next (inl (e, v)) = absurd (
          subst (Within (state_item a t)) (none_late l (c d) refl) (
            subst (λ q. Within (state_item a t) (c q)) e
              (h.scheduled.tidy.world.complete (state_item a t)
                (subst a.known (sym e) h.scheduled.tidy.first_known))))
      there t n alive next (inr (e, v)) = inl (e, omega arith)

      back :
          (t n : ℕ)
          → a.live t
          → (next : ℕ)
          → Sleeps a
              (restarted k k.overflow_delayed_task_list k.delayed_task_list
                (add_word k.num_of_overflows 1)
                next)
              t
              n
          → Sleeps a k t (suc n)
      back t n alive next (inl (e, v)) = inr (e, omega arith)
      back t n alive next (inr (e, v)) = absurd (
          subst (Within (state_item a t)) (none_late l (c d) refl) (
            subst (λ q. Within (state_item a t) (c q)) e
              (h.scheduled.tidy.world.complete (state_item a t)
                (subst a.known (sym e) h.scheduled.tidy.first_known))))

  pub start_lem : Started a k c
  start_lem = elim (Bool-cases (k.tick_count == word_max)) [
    | inl last_tick ↦ Started-over (ground arith)
    | inr other ↦ let t = h.scheduled.tick in Started-on (ground arith)
  ]
