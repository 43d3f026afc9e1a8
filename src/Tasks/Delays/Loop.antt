-- ===== src/Tasks/Delays/Loop.antt =====
-- The loop of the tick ends, and wakes the tasks in front whose time has come.
use mathlib.Core.Path.{subst}
use freertos_in_rust.Prelude.{
  ℕ, zero, suc, ◌≤◌, ◌<◌, ◌≡◌, refl, sym, ap, ◌∙◌, ◌≢◌, inl, inr, Bool, true, false, ◌||◌, some,
  List, [], ◌∷◌, arith, ltb, leb, if◌then◌else◌, Bool-cases, length, word_max,
}
use freertos_in_rust.Lists.{Items, Store, list_end, insert_end, remove}
use freertos_in_rust.Lists.Segments.{Seg, Fresh, Distinct, first, Fresh-append}
use freertos_in_rust.Lists.Members.{Within}
use freertos_in_rust.Lists.Ordered.{before, after, Bounded, Ascending, before-after}
use freertos_in_rust.Tasks.Ready.{Tcb, Kernel, add_task_to_ready_list}
use freertos_in_rust.Tasks.Delays.{owner_of_head_entry, leave_event_list, unblock, wake_tasks}
use freertos_in_rust.Tasks.Delays.Tidy.{Setting, state_item, IsTidy}
use freertos_in_rust.Tasks.Delays.Unblocking.{unblocked, Woken, unblocked-IsTidy}
use freertos_in_rust.Tasks.Delays.Waking.{preempting, Woken-none, Woken-append}

-- What the loop comes to at the time `now`, where the sleepers `xs` have the items `m`.
pub record Wakes (a : Setting) (d o now : ℕ) (m : Items) (xs : List ℕ) (k : Kernel) (c : ℕ → List ℕ)
    (rounds : ℕ) (switch : Bool) : Type 0 where
  pub s : Store
  pub lists : ℕ → List ℕ
  pub top : ℕ
  pub next : ℕ
  pub run :
      wake_tasks a.ready rounds now k switch
      ≡ some (
        record k { store = s; top_ready_priority = top; next_task_unblock_time = next },
        switch || preempting a.tcbs k.current_tcb m (before m now xs),
      )
  pub tidy : IsTidy a d o s lists
  pub rest : lists d ≡ after m now xs
  pub second : lists o ≡ c o
  pub woken : Woken a k.store s (before m now xs)
  pub bound : (r : ℕ) → Within r (after m now xs) → next ≤ (m r).item_value
  pub above : k.top_ready_priority ≤ top
  pub reached : (x : ℕ) → Within x (before m now xs) → (a.tcbs (m x).owner).priority ≤ top

wake_empty :
    (ready : ℕ → ℕ) (n now : ℕ) (k : Kernel) (b : Bool)
    → (k.store.lists k.delayed_task_list).number_of_items ≡ 0
    → wake_tasks ready (suc n) now k b ≡ some (record k { next_task_unblock_time = word_max }, b)
unfolding wake_tasks
wake_empty ready n now k b e = ground arith

wake_later :
    (ready : ℕ → ℕ) (n now t : ℕ) (k : Kernel) (b : Bool)
    → (k.store.lists k.delayed_task_list).number_of_items ≢ 0
    → owner_of_head_entry k.delayed_task_list k.store ≡ t
    → now < (k.store.items (k.tcbs t).state_list_item).item_value
    → wake_tasks ready (suc n) now k b
      ≡ some (
        record k { next_task_unblock_time = (k.store.items (k.tcbs t).state_list_item).item_value },
        b,
      )
unfolding wake_tasks
wake_later ready n now t k b e head l = ground arith

wake_due :
    (ready : ℕ → ℕ) (n now t : ℕ) (k : Kernel) (b : Bool)
    → (k.store.lists k.delayed_task_list).number_of_items ≢ 0
    → owner_of_head_entry k.delayed_task_list k.store ≡ t
    → (k.store.items (k.tcbs t).state_list_item).item_value ≤ now
    → wake_tasks ready (suc n) now k b
      ≡ wake_tasks ready n now
          (unblock ready t k)
          (b || ltb (k.tcbs k.current_tcb).priority (k.tcbs t).priority)
unfolding wake_tasks
wake_due ready n now t k b e head l = ground arith

-- the bound on the ready priorities when a task of the priority `p` gets ready
abbrev raised : ℕ → ℕ → ℕ
raised p top = if ltb top p then p else top

unblock_parts :
    (ready : ℕ → ℕ) (t : ℕ) (k : Kernel)
    → unblock ready t k ≡ record k {
      store = insert_end (ready (k.tcbs t).priority) (k.tcbs t).state_list_item (
          leave_event_list
            (k.tcbs t).event_list_item
            (remove (k.tcbs t).state_list_item k.store).1);
      top_ready_priority = raised (k.tcbs t).priority k.top_ready_priority;
    }
unfolding unblock add_task_to_ready_list
unblock_parts ready t k = ground arith

or_assoc : (a b c : Bool) → (a || b) || c ≡ a || (b || c)
or_assoc true b c = refl
or_assoc false b c = refl

pub Bounded-Within :
    (m : Items) (b r : ℕ) (xs : List ℕ) → Bounded m b xs → Within r xs → b ≤ (m r).item_value
Bounded-Within m b r [] h w = absurd w
Bounded-Within m b r (x ∷ xs) h (inl e) = subst (λ y. b ≤ (m y).item_value) (sym e) h.0
Bounded-Within m b r (x ∷ xs) h (inr w) = Bounded-Within m b r xs h.1 w

unblock_lem :
    (a : Setting) (t : ℕ) (k : Kernel)
    → k.tcbs ≡ a.tcbs
    → unblock a.ready t k ≡ record k {
      store = unblocked a t k.store;
      top_ready_priority = raised (a.tcbs t).priority k.top_ready_priority;
    }
unblock_lem a t k e =
    unblock_parts a.ready t k
    ∙ ap
        (λ (f : ℕ → Tcb). record k {
          store =
              insert_end (a.ready (f t).priority) (f t).state_list_item
                (leave_event_list (f t).event_list_item (remove (f t).state_list_item k.store).1);
          top_ready_priority = raised (f t).priority k.top_ready_priority;
        })
        e

module _ (a : Setting) (d o now : ℕ) (m : Items) where
  Wakes-empty :
      (k : Kernel) (c : ℕ → List ℕ) (n : ℕ) (b : Bool)
      → IsTidy a d o k.store c
      → k.delayed_task_list ≡ d
      → c d ≡ []
      → Wakes a d o now m [] k c (suc n) b
  Wakes-empty k c n b h e none_there = record {
    s = k.store;
    lists = c;
    top = k.top_ready_priority;
    next = word_max;
    run =
        wake_empty a.ready n now k b (
          ap (λ q. (k.store.lists q).number_of_items) e
          ∙ (h.world.lists d h.first_known).count
          ∙ ap length none_there)
        ∙ ap (λ v. some (record k { next_task_unblock_time = word_max }, v)) {x = b}
            {y = b || false} (ground arith);
    tidy = h;
    rest = none_there;
    second = refl;
    woken = Woken-none a k.store;
    bound = λ r w. absurd w;
    above = omega arith;
    reached = λ x w. absurd w;
  }

  module _ (k : Kernel) (c : ℕ → List ℕ) (n : ℕ) (b : Bool) (x : ℕ) (xs : List ℕ)
      (h : IsTidy a d o k.store c) (tcbs : k.tcbs ≡ a.tcbs) (first : k.delayed_task_list ≡ d)
      (values : (r : ℕ) → (k.store.items r).item_value ≡ (m r).item_value)
      (owners : (r : ℕ) → (k.store.items r).owner ≡ (m r).owner) (sleeping : c d ≡ x ∷ xs) where
    abbrev sleeper : ℕ
    sleeper = (m x).owner

    alive : a.live sleeper
    alive = subst a.live (owners x) (h.first.alive x (subst (Within x) (sym sleeping) (inl refl)))

    own : x ≡ state_item a sleeper
    own = h.first.own x (subst (Within x) (sym sleeping) (inl refl)) ∙ ap (state_item a) (owners x)

    some_there : (k.store.lists k.delayed_task_list).number_of_items ≢ 0
    some_there e =
        let count =
          ap (λ q. (k.store.lists q).number_of_items) first
          ∙ (h.world.lists d h.first_known).count
          ∙ ap length sleeping in
        absurd (omega arith)

    head_owner : owner_of_head_entry k.delayed_task_list k.store ≡ sleeper
    head_owner =
        let ring =
          subst (λ ys. Seg k.store.items (list_end d) ys (list_end d)) sleeping
            (h.world.lists d h.first_known).ring in
        ap (λ q. owner_of_head_entry q k.store) first
        ∙ ap (λ q. (k.store.items q).owner) ring.0
        ∙ owners x

    head_value : (k.store.items (k.tcbs sleeper).state_list_item).item_value ≡ (m x).item_value
    head_value =
        ap (λ (f : ℕ → Tcb). (k.store.items (f sleeper).state_list_item).item_value) tcbs
        ∙ ap (λ y. (k.store.items y).item_value) (sym own)
        ∙ values x

    Fresh-front : Fresh x (before m now xs)
    Fresh-front =
        let distinct =
          subst (λ ys. Distinct ys) sleeping (h.world.lists d h.first_known).distinct.1 in
        (Fresh-append x (before m now xs) (after m now xs)
          (subst (Fresh x) (sym (before-after m now xs)) distinct.0)).0

    Wakes-later :
        now < (m x).item_value → Ascending m (x ∷ xs) → Wakes a d o now m (x ∷ xs) k c (suc n) b
    Wakes-later late order =
        let front : before m now (x ∷ xs) ≡ [] = ground arith in
        let whole : after m now (x ∷ xs) ≡ x ∷ xs = ground arith in
        record {
          s = k.store;
          lists = c;
          top = k.top_ready_priority;
          next = (m x).item_value;
          run =
              wake_later a.ready n now sleeper k b some_there head_owner
                (subst (λ v. now < v) (sym head_value) late)
              ∙ ap (λ v. some (record k { next_task_unblock_time = v }, b)) head_value
              ∙ ap (λ v. some (record k { next_task_unblock_time = (m x).item_value }, v)) {x = b}
                  {y = b || preempting a.tcbs k.current_tcb m (before m now (x ∷ xs))}
                  (ground arith);
          tidy = h;
          rest = sleeping ∙ sym whole;
          second = refl;
          woken = subst (Woken a k.store k.store) (sym front) (Woken-none a k.store);
          bound = λ r w. elim (subst (Within r) whole w) [
            | inl e ↦ let same = ap (λ y. (m y).item_value) e in omega arith
            | inr later ↦ Bounded-Within m (m x).item_value r xs order.0 later
          ];
          above = omega arith;
          reached = λ r w. absurd (subst (Within r) front w);
        }

    Wakes-due :
        (c1 : ℕ → List ℕ)
        → (m x).item_value ≤ now
        → c1 o ≡ c o
        → Woken a k.store (unblocked a sleeper k.store) (state_item a sleeper ∷ [])
        → Wakes a d o now m xs
            (record k {
              store = unblocked a sleeper k.store;
              top_ready_priority = raised (a.tcbs sleeper).priority k.top_ready_priority;
            })
            c1
            n
            (b || ltb (a.tcbs k.current_tcb).priority (a.tcbs sleeper).priority)
        → Wakes a d o now m (x ∷ xs) k c (suc n) b
    Wakes-due c1 due second woken w =
        let front : before m now (x ∷ xs) ≡ x ∷ before m now xs = ground arith in
        let whole : after m now (x ∷ xs) ≡ after m now xs = ground arith in
        record {
          s = w.s;
          lists = w.lists;
          top = w.top;
          next = w.next;
          run =
              wake_due a.ready n now sleeper k b some_there head_owner
                (subst (λ v. v ≤ now) (sym head_value) due)
              ∙ ap
                  (λ (f : ℕ → Tcb).
                    wake_tasks a.ready n now (unblock a.ready sleeper k)
                      (b || ltb (f k.current_tcb).priority (f sleeper).priority))
                  tcbs
              ∙ ap
                  (λ q.
                    wake_tasks a.ready n now q
                      (b || ltb (a.tcbs k.current_tcb).priority (a.tcbs sleeper).priority))
                  (unblock_lem a sleeper k tcbs)
              ∙ w.run
              ∙ ap
                  (λ v. some (
                    record k {
                      store = w.s;
                      top_ready_priority = w.top;
                      next_task_unblock_time = w.next;
                    },
                    v,
                  ))
                  (or_assoc b (ltb (a.tcbs k.current_tcb).priority (a.tcbs sleeper).priority)
                      (preempting a.tcbs k.current_tcb m (before m now xs))
                    ∙ ap (λ ys. b || preempting a.tcbs k.current_tcb m ys) (sym front));
          tidy = w.tidy;
          rest = w.rest ∙ sym whole;
          second = w.second ∙ second;
          woken =
              subst (Woken a k.store w.s) (ap (λ y. y ∷ before m now xs) (sym own) ∙ sym front) (
                Woken-append a d o k.store (unblocked a sleeper k.store) w.s c sleeper
                  (before m now xs) h alive (subst (λ y. Fresh y (before m now xs)) own Fresh-front)
                  woken w.woken);
          bound = λ r i. w.bound r (subst (Within r) whole i);
          above = let up = w.above in ground arith;
          reached = λ r i. elim (subst (Within r) front i) [
            | inl e ↦
                let up = w.above in
                subst (λ y. (a.tcbs (m y).owner).priority ≤ w.top) (sym e) (ground arith)
            | inr later ↦ w.reached r later
          ];
        }

    -- a round of the loop
    Wakes-next :
        Ascending m (x ∷ xs)
        → ((k' : Kernel) (c' : ℕ → List ℕ) (b' : Bool)
            → IsTidy a d o k'.store c'
            → k'.tcbs ≡ a.tcbs
            → k'.delayed_task_list ≡ d
            → ((r : ℕ) → (k'.store.items r).item_value ≡ (m r).item_value)
            → ((r : ℕ) → (k'.store.items r).owner ≡ (m r).owner)
            → c' d ≡ xs
            → Wakes a d o now m xs k' c' n b')
        → Wakes a d o now m (x ∷ xs) k c (suc n) b
    Wakes-next order ih = elim (Bool-cases (leb (m x).item_value now)) [
      | inl due ↦
          let (c1, d1, o1, tidy, woken) =
            unblocked-IsTidy a d o k.store c h sleeper xs alive (sleeping ∙ ap (λ y. y ∷ xs) own) in
          Wakes-due c1 (ground arith) o1 woken (
            ih
              (record k {
                store = unblocked a sleeper k.store;
                top_ready_priority = raised (a.tcbs sleeper).priority k.top_ready_priority;
              })
              c1 (b || ltb (a.tcbs k.current_tcb).priority (a.tcbs sleeper).priority) tidy tcbs
              first (λ r. woken.values r ∙ values r) (λ r. woken.owners r ∙ owners r) d1)
      | inr late ↦ Wakes-later (ground arith) order
    ]

  -- Enough rounds are one more than there are sleepers.
  pub wake_tasks_lem :
      (rounds : ℕ) (xs : List ℕ) (k : Kernel) (c : ℕ → List ℕ) (b : Bool)
      → length xs < rounds
      → Ascending m xs
      → IsTidy a d o k.store c
      → k.tcbs ≡ a.tcbs
      → k.delayed_task_list ≡ d
      → ((r : ℕ) → (k.store.items r).item_value ≡ (m r).item_value)
      → ((r : ℕ) → (k.store.items r).owner ≡ (m r).owner)
      → c d ≡ xs
      → Wakes a d o now m xs k c rounds b
  wake_tasks_lem zero xs k c b l order h tcbs first values owners e = absurd (omega arith)
  wake_tasks_lem (suc n) [] k c b l order h tcbs first values owners e =
      Wakes-empty k c n b h first e
  wake_tasks_lem (suc n) (x ∷ xs) k c b l order h tcbs first values owners e =
      Wakes-next k c n b x xs h tcbs first values owners e order (λ k' c' b' h' t' f' v' w' e'.
        wake_tasks_lem n xs k' c' b' (omega arith) order.1 h' t' f' v' w' e')
