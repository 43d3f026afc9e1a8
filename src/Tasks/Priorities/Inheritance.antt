-- ===== src/Tasks/Priorities/Inheritance.antt =====
-- No task keeps an inherited priority without a mutex, and each ready task is in the list of its priority.
use Prim.Native.Nat.{bit_and}
use mathlib.Core.Path.{subst}
use freertos_in_rust.Prelude.{
  ℕ, ◌≤◌, ◌<◌, ◌≡◌, refl, sym, ap, ◌∙◌, ◌≢◌, ◌⊎◌, inl, inr, true, arith, ltb, ◌==◌, if◌then◌else◌,
  Bool-cases,
}
use freertos_in_rust.Lists.{Store, insert_end, remove}
use freertos_in_rust.Tasks.Ready.{Tcb, Kernel, add_task_to_ready_list}
use freertos_in_rust.Tasks.Events.{event_list_item_value_in_use}
use freertos_in_rust.Tasks.Priorities.{set_tcb, rank, change_priority}

-- A task has its own priority or a higher one that it has inherited, for which it holds a mutex. If it is in a
-- ready list, then in that of its priority.
pub record Inherits (ready : ℕ → ℕ) (k : Kernel) (t : ℕ) : Type 0 where
  pub above : (k.tcbs t).base_priority ≤ (k.tcbs t).priority
  pub owes : (k.tcbs t).priority ≢ (k.tcbs t).base_priority → 0 < (k.tcbs t).mutexes_held
  pub placed :
      (p : ℕ)
      → (k.store.items (k.tcbs t).state_list_item).container ≡ ready p
      → p ≡ (k.tcbs t).priority

-- the items of the tasks are apart, and so are the ready lists
pub record Apart (ready : ℕ → ℕ) (live : ℕ → Type 0) (k : Kernel) : Type 0 where
  pub items :
      (t u : ℕ) → live t → live u → t ≢ u → (k.tcbs t).state_list_item ≢ (k.tcbs u).state_list_item
  pub lists : (p q : ℕ) → ready p ≡ ready q → p ≡ q

pub insert_container : (l x : ℕ) (s : Store) → ((insert_end l x s).items x).container ≡ l
unfolding insert_end
insert_container l x s = ground arith

pub insert_others :
    (l x r : ℕ) (s : Store) → r ≢ x → ((insert_end l x s).items r).container ≡ (s.items r).container
unfolding insert_end
insert_others l x r s n = ground arith

pub remove_others :
    (x r : ℕ) (s : Store) → r ≢ x → ((remove x s).1.items r).container ≡ (s.items r).container
unfolding remove
remove_others x r s n = ground arith

pub rank_containers :
    (most e p r : ℕ) (s : Store) → ((rank most e p s).items r).container ≡ (s.items r).container
rank_containers most e p r s =
    elim (Bool-cases (bit_and (s.items e).item_value event_list_item_value_in_use == 0)) [
      | inl free ↦ rw free (ground arith)
      | inr used ↦ rw used refl
    ]

-- What changes of a scheduler in which one task has another priority.
pub record Changed (ready : ℕ → ℕ) (k k' : Kernel) (t priority : ℕ) : Type 0 where
  pub tcb :
      k'.tcbs t ≡ record (k.tcbs t) { priority = priority; mutexes_held = (k'.tcbs t).mutexes_held }
  pub tcbs : (r : ℕ) → r ≢ t → k'.tcbs r ≡ k.tcbs r
  pub stay :
      (r : ℕ)
      → r ≢ (k.tcbs t).state_list_item
      → (k'.store.items r).container ≡ (k.store.items r).container
  pub moved :
      ((k'.store.items (k.tcbs t).state_list_item).container ≡ ready priority)
      ⊎ (((k'.store.items (k.tcbs t).state_list_item).container
            ≡ (k.store.items (k.tcbs t).state_list_item).container)
          × ((k.store.items (k.tcbs t).state_list_item).container ≢ ready (k.tcbs t).priority))

-- The others keep what they inherit.
pub Changed-Inherits :
    (ready : ℕ → ℕ) (live : ℕ → Type 0) (k k' : Kernel) (t priority u : ℕ)
    → Apart ready live k
    → live t
    → live u
    → Changed ready k k' t priority
    → (k.tcbs t).base_priority ≤ priority
    → (priority ≢ (k.tcbs t).base_priority → 0 < (k'.tcbs t).mutexes_held)
    → Inherits ready k t
    → Inherits ready k u
    → Inherits ready k' u
Changed-Inherits ready live k k' t priority u apart lt lu c l owes it iu =
    elim (Bool-cases (u == t)) [
      | inl same ↦ subst (Inherits ready k') {x = t} (ground arith) (record {
        above =
            let e1 = ap (λ y. y.base_priority) c.tcb in
            let e2 = ap (λ y. y.priority) c.tcb in omega arith;
        owes = λ n. owes (λ e.
            absurd (n (ap (λ y. y.priority) c.tcb ∙ e ∙ sym (ap (λ y. y.base_priority) c.tcb))));
        placed = λ p e.
            let item = ap (λ y. y.state_list_item) c.tcb in
            let at : (k'.store.items (k.tcbs t).state_list_item).container ≡ ready p =
              ap (λ x. (k'.store.items x).container) (sym item) ∙ e in
            let goal : p ≡ priority = elim c.moved [
              | inl new ↦ apart.lists p priority (sym at ∙ new)
              | inr (same, off) ↦
                  let old : p ≡ (k.tcbs t).priority = it.placed p (sym same ∙ at) in
                  absurd (off (sym same ∙ at ∙ ap ready old))
            ] in
            goal ∙ sym (ap (λ y. y.priority) c.tcb);
      })
      | inr other ↦
          let n : u ≢ t = λ e. absurd (ground arith) in
          let e = c.tcbs u n in
          let off = apart.items u t lu lt n in
          record {
            above = subst (λ y. y.base_priority ≤ y.priority) (sym e) iu.above;
            owes = subst (λ y. y.priority ≢ y.base_priority → 0 < y.mutexes_held) (sym e) iu.owes;
            placed = λ p at.
                iu.placed p (
                  sym (c.stay (k.tcbs u).state_list_item off)
                  ∙ ap (λ y. (k'.store.items y.state_list_item).container) (sym e)
                  ∙ at)
                ∙ sym (ap (λ y. y.priority) e);
          }
    ]

-- the scheduler with a task in the ready list of its new priority
abbrev pub raised_kernel : (ℕ → ℕ) → ℕ → ℕ → Store → Kernel → Kernel
raised_kernel ready t priority s k = record k {
  tcbs = λ r. if r == t then record (k.tcbs t) { priority = priority } else k.tcbs r;
  store = insert_end (ready priority) (k.tcbs t).state_list_item s;
  top_ready_priority = if ltb k.top_ready_priority priority then priority else k.top_ready_priority;
}

pub add_raised :
    (ready : ℕ → ℕ) (t priority : ℕ) (s : Store) (k : Kernel)
    → add_task_to_ready_list ready t
        (record (set_tcb t (record (k.tcbs t) { priority = priority }) k) { store = s })
      ≡ raised_kernel ready t priority s k
unfolding add_task_to_ready_list
add_raised ready t priority s k =
    let same : (t == t) ≡ true = ground arith in rw same (ground arith)

change_priority_lem :
    (ready : ℕ → ℕ) (t priority : ℕ) (k : Kernel)
    → change_priority ready t priority k ≡ (
        if (k.store.items (k.tcbs t).state_list_item).container == ready (k.tcbs t).priority
        then raised_kernel ready t priority (remove (k.tcbs t).state_list_item k.store).1 k
        else set_tcb t (record (k.tcbs t) { priority = priority }) k)
unfolding change_priority
change_priority_lem ready t priority k =
    ap
      (λ q.
        if (k.store.items (k.tcbs t).state_list_item).container == ready (k.tcbs t).priority
        then q
        else set_tcb t (record (k.tcbs t) { priority = priority }) k)
      (add_raised ready t priority (remove (k.tcbs t).state_list_item k.store).1 k)

pub tcb_at : (t : ℕ) (tcb : Tcb) (f : ℕ → Tcb) → (if t == t then tcb else f t) ≡ tcb
tcb_at t tcb f = ground arith

pub tcb_off : (r t : ℕ) (tcb : Tcb) (f : ℕ → Tcb) → r ≢ t → (if r == t then tcb else f r) ≡ f r
tcb_off r t tcb f n = ground arith

raised-Changed :
    (ready : ℕ → ℕ) (t priority : ℕ) (k : Kernel)
    → Changed ready k
        (raised_kernel ready t priority (remove (k.tcbs t).state_list_item k.store).1 k)
        t
        priority
raised-Changed ready t priority k =
    let at = tcb_at t (record (k.tcbs t) { priority = priority }) k.tcbs in
    record {
      tcb =
          at
          ∙ ap (λ h. record (k.tcbs t) { priority = priority; mutexes_held = h })
              (sym (ap (λ y. y.mutexes_held) at));
      tcbs = λ r n. tcb_off r t (record (k.tcbs t) { priority = priority }) k.tcbs n;
      stay = λ r n.
          insert_others (ready priority) (k.tcbs t).state_list_item r
            (remove (k.tcbs t).state_list_item k.store).1 n
          ∙ remove_others (k.tcbs t).state_list_item r k.store n;
      moved = inl (
          insert_container (ready priority) (k.tcbs t).state_list_item
            (remove (k.tcbs t).state_list_item k.store).1);
    }

pub change_priority-Changed :
    (ready : ℕ → ℕ) (t priority : ℕ) (k : Kernel)
    → Changed ready k (change_priority ready t priority k) t priority
change_priority-Changed ready t priority k =
    elim (Bool-cases
      ((k.store.items (k.tcbs t).state_list_item).container == ready (k.tcbs t).priority)) [
        | inl here ↦
            subst (λ q. Changed ready k q t priority)
              (sym (
                change_priority_lem ready t priority k
                ∙ ap
                    (λ b.
                      if b
                      then raised_kernel ready t priority
                          (remove (k.tcbs t).state_list_item k.store).1 k
                      else set_tcb t (record (k.tcbs t) { priority = priority }) k)
                    here))
              (raised-Changed ready t priority k)
        | inr off ↦
            let at = tcb_at t (record (k.tcbs t) { priority = priority }) k.tcbs in
            subst (λ q. Changed ready k q t priority)
              (sym (
                change_priority_lem ready t priority k
                ∙ ap
                    (λ b.
                      if b
                      then raised_kernel ready t priority
                          (remove (k.tcbs t).state_list_item k.store).1 k
                      else set_tcb t (record (k.tcbs t) { priority = priority }) k)
                    off))
              (record {
                tcb =
                    at
                    ∙ ap (λ h. record (k.tcbs t) { priority = priority; mutexes_held = h })
                        (sym (ap (λ y. y.mutexes_held) at));
                tcbs = λ r n. tcb_off r t (record (k.tcbs t) { priority = priority }) k.tcbs n;
                stay = λ r n. refl;
                moved = inr (refl, λ e. absurd (ground arith));
              })
      ]

pub change_priority_held :
    (ready : ℕ → ℕ) (t priority : ℕ) (k : Kernel)
    → ((change_priority ready t priority k).tcbs t).mutexes_held ≡ (k.tcbs t).mutexes_held
change_priority_held ready t priority k =
    ap (λ y. (y.tcbs t).mutexes_held) (change_priority_lem ready t priority k) ∙ ground arith
