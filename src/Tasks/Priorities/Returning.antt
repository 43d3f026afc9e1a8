-- ===== src/Tasks/Priorities/Returning.antt =====
-- The three operations of the inheritance keep to its rules.
use mathlib.Core.Path.{subst}
use freertos_in_rust.Prelude.{
  ℕ, ◌-◌, ◌≤◌, ◌<◌, ◌≡◌, refl, sym, ap, ◌∙◌, ◌≢◌, inl, inr, Bool, true, false, not, ◌&&◌, arith,
  ltb, ◌==◌, if◌then◌else◌, Bool-cases, ok,
}
use freertos_in_rust.Tasks.Ready.{Tcb, Kernel}
use freertos_in_rust.Tasks.Priorities.{
  rank, change_priority, priority_inherit, restore_priority, priority_disinherit,
  priority_disinherit_after_timeout,
}
use freertos_in_rust.Tasks.Priorities.Inheritance.{
  Inherits, Apart, Changed, Changed-Inherits, tcb_off, change_priority-Changed,
  change_priority_held,
}
use freertos_in_rust.Tasks.Priorities.Steps.{
  Changed-rank, inherit_raises, inherit_keeps, given_back, given_tcb, given-Changed, restore_held,
  restore-Changed, disinherit_run, left_priority, timeout_run,
}

module _ (ready : ℕ → ℕ) (live : ℕ → Type 0) (most t : ℕ) (k : Kernel) (apart : Apart ready live k)
    (lt : live t) (real : t ≢ 0) (holds : 0 < (k.tcbs t).mutexes_held)
    (all : (u : ℕ) → live u → Inherits ready k u) where
  -- what a priority that is not below the task's own keeps
  all_kept :
      (k' : Kernel) (priority : ℕ)
      → Changed ready k k' t priority
      → (k.tcbs t).base_priority ≤ priority
      → (priority ≢ (k.tcbs t).base_priority → 0 < (k'.tcbs t).mutexes_held)
      → (u : ℕ) → live u
      → Inherits ready k' u
  all_kept k' priority c l owes u lu =
      Changed-Inherits ready live k k' t priority u apart lt lu c l owes (all t lt) (all u lu)

  -- the outcome of a wait for a mutex that the task holds
  abbrev pub Inherited : Kernel × Bool → Type 0
  Inherited (k', inherits) =
      ((k'.tcbs t).priority ≡ (
        if ltb (k.tcbs t).priority (k.tcbs k.current_tcb).priority
        then (k.tcbs k.current_tcb).priority
        else (k.tcbs t).priority))
      × (inherits ≡ ltb (k.tcbs t).base_priority (k.tcbs k.current_tcb).priority)
      × ((u : ℕ) → live u → Inherits ready k' u)

  priority_inherit_lem : Inherited (priority_inherit ready most t k)
  priority_inherit_lem =
      let p = (k.tcbs k.current_tcb).priority in
      let own = (all t lt).above in
      elim (Bool-cases (ltb (k.tcbs t).priority p)) [
        | inl lower ↦
            let l : (k.tcbs t).priority < p = ground arith in
            let k1 : Kernel = record k { store = rank most (k.tcbs t).event_list_item p k.store } in
            let c =
              Changed-rank ready most (k.tcbs t).event_list_item p t p k
                (change_priority ready t p k1) (change_priority-Changed ready t p k1) in
            let held = change_priority_held ready t p k1 in
            subst Inherited (sym (inherit_raises ready most t k real l)) (
              ap (λ y. y.priority) c.tcb
                  ∙ ap (λ b. if b then p else (k.tcbs t).priority) (sym lower),
              ground arith,
              all_kept (change_priority ready t p k1) p c (omega arith) (λ _. omega arith),
            )
        | inr higher ↦
            let l : p ≤ (k.tcbs t).priority = ground arith in
            subst Inherited (sym (inherit_keeps ready most t k real l))
              (ap (λ b. if b then p else (k.tcbs t).priority) (sym higher), refl, all)
      ]

  Changed-given : Changed ready k (given_back t k) t (k.tcbs t).priority
  Changed-given =
      let e = given_tcb t k in
      let x = (k.tcbs t).state_list_item in
      record {
        tcb =
            let f : ℕ → Tcb = λ n. record (k.tcbs t) { mutexes_held = n } in
            e ∙ ap f (sym (ap (λ y. y.mutexes_held) e));
        tcbs = λ r n.
            tcb_off r t (record (k.tcbs t) { mutexes_held = (k.tcbs t).mutexes_held - 1 }) k.tcbs n;
        stay = λ r n. refl;
        moved = elim (Bool-cases ((k.store.items x).container == ready (k.tcbs t).priority)) [
          | inl here ↦ inl (ground arith)
          | inr off ↦ inr (refl, λ e. absurd (ground arith))
        ];
      }

  -- the outcome of giving a mutex back
  abbrev pub Returned : Kernel × Bool → Type 0
  Returned (k', switch) =
      ((k'.tcbs t).mutexes_held ≡ (k.tcbs t).mutexes_held - 1)
      × ((k.tcbs t).mutexes_held ≡ 1 → (k'.tcbs t).priority ≡ (k.tcbs t).base_priority)
      × ((k.tcbs t).mutexes_held ≢ 1 → (k'.tcbs t).priority ≡ (k.tcbs t).priority)
      × ((u : ℕ) → live u → Inherits ready k' u)

  Returned-restored :
      (k.tcbs t).mutexes_held ≡ 1 → Returned (restore_priority ready most t (given_back t k), true)
  Returned-restored last_one =
      let k' = restore_priority ready most t (given_back t k) in
      let g = given_tcb t k in
      let base : ((given_back t k).tcbs t).base_priority ≡ (k.tcbs t).base_priority =
        ap (λ y. y.base_priority) g in
      let c = given-Changed ready t (k.tcbs t).base_priority k k' (
        subst (λ p. Changed ready (given_back t k) k' t p) base
          (restore-Changed ready most t (given_back t k))) in
      (
        restore_held ready most t (given_back t k) ∙ ap (λ y. y.mutexes_held) g,
        (λ _. ap (λ y. y.priority) c.tcb),
        (λ n. absurd (n last_one)),
        all_kept k' (k.tcbs t).base_priority c (omega arith) (λ n. absurd (n refl)),
      )

  Returned-given :
      not ((k.tcbs t).priority == (k.tcbs t).base_priority) && (k.tcbs t).mutexes_held - 1 == 0
        ≡ false
      → Returned (given_back t k, false)
  Returned-given test =
      let g = given_tcb t k in
      let held = ap (λ y. y.mutexes_held) g in
      let same = ap (λ y. y.priority) g in
      let own = (all t lt).above in
      (
        held,
        (λ one. ground arith),
        (λ _. same),
        all_kept (given_back t k) (k.tcbs t).priority Changed-given own (λ n. ground arith),
      )

  priority_disinherit_lem :
      t ≡ k.current_tcb
      → (k' : Kernel) × (switch : Bool) × (priority_disinherit ready most t k ≡ ok (k', switch))
        × Returned (k', switch)
  priority_disinherit_lem current =
      let run = disinherit_run ready most t k real current holds in
      elim (Bool-cases (
        not ((k.tcbs t).priority == (k.tcbs t).base_priority)
        && (k.tcbs t).mutexes_held - 1 == 0)) [
          | inl back ↦ (
            restore_priority ready most t (given_back t k),
            true,
            run
                ∙ ap
                    (λ b. ok (
                      if b
                      then (restore_priority ready most t (given_back t k), true)
                      else (given_back t k, false)))
                    back,
            Returned-restored (ground arith),
          )
          | inr not_yet ↦ (
            given_back t k,
            false,
            run
                ∙ ap
                    (λ b. ok (
                      if b
                      then (restore_priority ready most t (given_back t k), true)
                      else (given_back t k, false)))
                    not_yet,
            Returned-given not_yet,
          )
        ]

  -- the outcome of a wait for a mutex of the task that has timed out
  abbrev pub TimedOut : ℕ → Kernel → Type 0
  TimedOut highest k' =
      ((k.tcbs t).mutexes_held ≡ 1 → (k'.tcbs t).priority ≡ left_priority highest (k.tcbs t))
      × ((k.tcbs t).mutexes_held ≢ 1 → (k'.tcbs t).priority ≡ (k.tcbs t).priority)
      × ((u : ℕ) → live u → Inherits ready k' u)

  priority_disinherit_after_timeout_lem :
      (highest : ℕ)
      → t ≢ k.current_tcb
      → (k' : Kernel) × (priority_disinherit_after_timeout ready most t highest k ≡ ok k')
        × TimedOut highest k'
  priority_disinherit_after_timeout_lem highest other =
      let p = left_priority highest (k.tcbs t) in
      let k1 : Kernel = record k { store = rank most (k.tcbs t).event_list_item p k.store } in
      let run = timeout_run ready most t highest k real other holds in
      elim (Bool-cases (not (p == (k.tcbs t).priority) && (k.tcbs t).mutexes_held == 1)) [
        | inl change ↦
            let c =
              Changed-rank ready most (k.tcbs t).event_list_item p t p k
                (change_priority ready t p k1) (change_priority-Changed ready t p k1) in
            let held = change_priority_held ready t p k1 in
            (
              change_priority ready t p k1,
              run ∙ ap (λ b. ok (if b then change_priority ready t p k1 else k)) change,
              (
                (λ _. ap (λ y. y.priority) c.tcb),
                (λ n. absurd (n (ground arith))),
                all_kept (change_priority ready t p k1) p c (ground arith) (λ _. omega arith),
              ),
            )
        | inr keep ↦ (
          k,
          run ∙ ap (λ b. ok (if b then change_priority ready t p k1 else k)) keep,
          ((λ one. sym (same_priority p one keep)), (λ _. refl), all),
        )
      ]
    where
      same_priority :
          (p : ℕ)
          → (k.tcbs t).mutexes_held ≡ 1
          → not (p == (k.tcbs t).priority) && (k.tcbs t).mutexes_held == 1 ≡ false
          → p ≡ (k.tcbs t).priority
      same_priority p one keep = ground arith

  -- The priority inheritance of a task `t` that holds mutexes, where the items of the tasks and the ready lists are
  -- apart and every task keeps to the rule at the end. A current task that waits for one of them raises its
  -- priority to its own, if that is higher, and is told whether it is higher than the base priority of `t`. A
  -- mutex that `t` gives back is counted; with the last one its base priority is restored, before that its
  -- priority stays. When a wait has timed out, `t` keeps of the inherited priority what the highest of the
  -- others that wait asks for, if it holds that mutex alone, and all of it otherwise. No assertion fails.
  -- After each operation every task has its base priority or, holding a mutex, a higher one, and if it is in
  -- a ready list, then in that of its priority.
  pub inheritance_lem :
      Inherited (priority_inherit ready most t k)
      × (t ≡ k.current_tcb
          → (k' : Kernel) × (switch : Bool) × (priority_disinherit ready most t k ≡ ok (k', switch))
            × Returned (k', switch))
      × ((highest : ℕ)
          → t ≢ k.current_tcb
          → (k' : Kernel) × (priority_disinherit_after_timeout ready most t highest k ≡ ok k')
            × TimedOut highest k')
  inheritance_lem = (
    priority_inherit_lem,
    (λ e. priority_disinherit_lem e),
    priority_disinherit_after_timeout_lem,
  )
