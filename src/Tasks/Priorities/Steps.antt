-- ===== src/Tasks/Priorities/Steps.antt =====
-- What the three operations of the inheritance change.
use mathlib.Core.Path.{subst}
use freertos_in_rust.Prelude.{
  ℕ, ◌-◌, ◌≤◌, ◌<◌, ◌≡◌, refl, sym, ap, ◌∙◌, ◌≢◌, ◌⊎◌, inl, inr, true, false, not, ◌&&◌, arith, ltb,
  ◌==◌, if◌then◌else◌, Bool-cases, ok,
}
use freertos_in_rust.Lists.{Store, remove}
use freertos_in_rust.Tasks.Ready.{Tcb, Kernel}
use freertos_in_rust.Tasks.Delays.{set_item_value}
use freertos_in_rust.Tasks.Priorities.{
  set_tcb, rank, change_priority, priority_inherit, restore_priority, priority_disinherit,
  priority_disinherit_after_timeout,
}
use freertos_in_rust.Tasks.Priorities.Inheritance.{
  insert_container, insert_others, remove_others, rank_containers, Changed, raised_kernel,
  add_raised, tcb_at, tcb_off,
}

-- the place in the lists of an event changes nothing else
pub Changed-rank :
    (ready : ℕ → ℕ) (most e v t priority : ℕ) (k k' : Kernel)
    → Changed ready (record k { store = rank most e v k.store }) k' t priority
    → Changed ready k k' t priority
Changed-rank ready most e v t priority k k' c = record {
  tcb = c.tcb;
  tcbs = c.tcbs;
  stay = λ r n. c.stay r n ∙ rank_containers most e v r k.store;
  moved = elim c.moved [
    | inl new ↦ inl new
    | inr (same, off) ↦ inr (
      same ∙ rank_containers most e v (k.tcbs t).state_list_item k.store,
      λ f. absurd (off (rank_containers most e v (k.tcbs t).state_list_item k.store ∙ f)),
    )
  ];
}

pub inherit_raises :
    (ready : ℕ → ℕ) (most t : ℕ) (k : Kernel)
    → t ≢ 0
    → (k.tcbs t).priority < (k.tcbs k.current_tcb).priority
    → priority_inherit ready most t k ≡ (
      change_priority ready t (k.tcbs k.current_tcb).priority (record k {
        store = rank most (k.tcbs t).event_list_item (k.tcbs k.current_tcb).priority k.store;
      }),
      true,
    )
unfolding priority_inherit
inherit_raises ready most t k n l =
    let test : (t == 0) ≡ false = ground arith in
    let lower : ltb (k.tcbs t).priority (k.tcbs k.current_tcb).priority ≡ true = ground arith in
    rw (test, lower) refl

pub inherit_keeps :
    (ready : ℕ → ℕ) (most t : ℕ) (k : Kernel)
    → t ≢ 0
    → (k.tcbs k.current_tcb).priority ≤ (k.tcbs t).priority
    → priority_inherit ready most t k
      ≡ (k, ltb (k.tcbs t).base_priority (k.tcbs k.current_tcb).priority)
unfolding priority_inherit
inherit_keeps ready most t k n l =
    let test : (t == 0) ≡ false = ground arith in
    let lower : ltb (k.tcbs t).priority (k.tcbs k.current_tcb).priority ≡ false = ground arith in
    rw (test, lower) refl

-- a mutex less
abbrev pub given_back : ℕ → Kernel → Kernel
given_back t k = set_tcb t (record (k.tcbs t) { mutexes_held = (k.tcbs t).mutexes_held - 1 }) k

pub given_tcb :
    (t : ℕ) (k : Kernel)
    → (given_back t k).tcbs t ≡ record (k.tcbs t) { mutexes_held = (k.tcbs t).mutexes_held - 1 }
given_tcb t k = tcb_at t (record (k.tcbs t) { mutexes_held = (k.tcbs t).mutexes_held - 1 }) k.tcbs

pub given-Changed :
    (ready : ℕ → ℕ) (t priority : ℕ) (k k' : Kernel)
    → Changed ready (given_back t k) k' t priority
    → Changed ready k k' t priority
given-Changed ready t priority k k' c =
    let e = given_tcb t k in
    let item = ap (λ y. y.state_list_item) e in
    record {
      tcb =
          let f : Tcb → Tcb =
            λ y. record y { priority = priority; mutexes_held = (k'.tcbs t).mutexes_held } in
          c.tcb ∙ ap f e;
      tcbs = λ r n.
          c.tcbs r n
          ∙ tcb_off r t (record (k.tcbs t) { mutexes_held = (k.tcbs t).mutexes_held - 1 }) k.tcbs n;
      stay = λ r n. c.stay r (λ f. absurd (n (f ∙ item)));
      moved =
          subst
            (λ y.
              ((k'.store.items y.state_list_item).container ≡ ready priority)
              ⊎ (((k'.store.items y.state_list_item).container
                    ≡ (k.store.items y.state_list_item).container)
                  × ((k.store.items y.state_list_item).container ≢ ready y.priority)))
            e c.moved;
    }

pub restore_priority_lem :
    (ready : ℕ → ℕ) (most t : ℕ) (k : Kernel)
    → restore_priority ready most t k
      ≡ raised_kernel ready t
          (k.tcbs t).base_priority
          (set_item_value
            (k.tcbs t).event_list_item
            (most - (k.tcbs t).base_priority)
            (remove (k.tcbs t).state_list_item k.store).1)
          k
unfolding restore_priority
restore_priority_lem ready most t k =
    add_raised ready t (k.tcbs t).base_priority
      (set_item_value (k.tcbs t).event_list_item (most - (k.tcbs t).base_priority)
        (remove (k.tcbs t).state_list_item k.store).1)
      k

pub restore_held :
    (ready : ℕ → ℕ) (most t : ℕ) (k : Kernel)
    → ((restore_priority ready most t k).tcbs t).mutexes_held ≡ (k.tcbs t).mutexes_held
restore_held ready most t k =
    ap (λ y. (y.tcbs t).mutexes_held) (restore_priority_lem ready most t k)
    ∙ ap (λ y. y.mutexes_held)
        (tcb_at t (record (k.tcbs t) { priority = (k.tcbs t).base_priority }) k.tcbs)

pub value_containers :
    (x v r : ℕ) (s : Store) → ((set_item_value x v s).items r).container ≡ (s.items r).container
value_containers x v r s = ground arith

pub restore-Changed :
    (ready : ℕ → ℕ) (most t : ℕ) (k : Kernel)
    → Changed ready k (restore_priority ready most t k) t (k.tcbs t).base_priority
restore-Changed ready most t k =
    let base = (k.tcbs t).base_priority in
    let x = (k.tcbs t).state_list_item in
    let e = (k.tcbs t).event_list_item in
    let s = set_item_value e (most - base) (remove x k.store).1 in
    let at = tcb_at t (record (k.tcbs t) { priority = base }) k.tcbs in
    subst (λ q. Changed ready k q t base) (sym (restore_priority_lem ready most t k))
      (record {
        tcb =
            at
            ∙ ap (λ h. record (k.tcbs t) { priority = base; mutexes_held = h })
                (sym (ap (λ y. y.mutexes_held) at));
        tcbs = λ r n. tcb_off r t (record (k.tcbs t) { priority = base }) k.tcbs n;
        stay = λ r n.
            insert_others (ready base) x r s n
            ∙ value_containers e (most - base) r (remove x k.store).1
            ∙ remove_others x r k.store n;
        moved = inl (insert_container (ready base) x s);
      })

pub disinherit_run :
    (ready : ℕ → ℕ) (most t : ℕ) (k : Kernel)
    → t ≢ 0
    → t ≡ k.current_tcb
    → 0 < (k.tcbs t).mutexes_held
    → priority_disinherit ready most t k
      ≡ ok (
          if not ((k.tcbs t).priority == (k.tcbs t).base_priority)
            && (k.tcbs t).mutexes_held - 1 == 0
          then (restore_priority ready most t (given_back t k), true)
          else (given_back t k, false))
unfolding priority_disinherit
disinherit_run ready most t k n e l =
    let real : (t == 0) ≡ false = ground arith in
    let current : (t == k.current_tcb) ≡ true = ground arith in
    let holds : ltb 0 (k.tcbs t).mutexes_held ≡ true = ground arith in
    rw (real, current, holds) refl

-- the priority that is left to a task by those that still wait for it
abbrev pub left_priority : ℕ → Tcb → ℕ
left_priority highest_waiting tcb =
    if ltb highest_waiting tcb.base_priority then tcb.base_priority else highest_waiting

pub timeout_run :
    (ready : ℕ → ℕ) (most t highest : ℕ) (k : Kernel)
    → t ≢ 0
    → t ≢ k.current_tcb
    → 0 < (k.tcbs t).mutexes_held
    → priority_disinherit_after_timeout ready most t highest k
      ≡ ok (
          if not (left_priority highest (k.tcbs t) == (k.tcbs t).priority)
            && (k.tcbs t).mutexes_held == 1
          then change_priority ready t (left_priority highest (k.tcbs t)) (record k {
            store = rank most (k.tcbs t).event_list_item (left_priority highest (k.tcbs t)) k.store;
          })
          else k)
unfolding priority_disinherit_after_timeout
timeout_run ready most t highest k n m l =
    let real : (t == 0) ≡ false = ground arith in
    let current : (t == k.current_tcb) ≡ false = ground arith in
    let holds : ltb 0 (k.tcbs t).mutexes_held ≡ true = ground arith in
    elim (Bool-cases (
      not (left_priority highest (k.tcbs t) == (k.tcbs t).priority)
      && (k.tcbs t).mutexes_held == 1)) [
        | inl change ↦ rw (real, current, holds, change) refl
        | inr keep ↦ rw (real, current, holds, keep) refl
      ]
