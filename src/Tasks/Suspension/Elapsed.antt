-- ===== src/Tasks/Suspension/Elapsed.antt =====
-- Ticks one after the other, those that came while the scheduler was suspended included.
use mathlib.Core.Path.{subst}
use freertos_in_rust.Prelude.{
  ℕ, zero, suc, ◌+◌, ◌-◌, ◌%◌, ◌≤◌, ◌<◌, ◌≡◌, refl, sym, ap, ◌∙◌, ◌≢◌, ◌↔◌, inl, inr, List, arith,
  word_mod,
}
use freertos_in_rust.Tasks.Ready.{Kernel}
use freertos_in_rust.Tasks.Delays.Tidy.{Setting, state_item, event_item}
use freertos_in_rust.Tasks.Delays.Waking.{apart_tasks}
use freertos_in_rust.Tasks.Delays.Clock.{IsKernel, Sleeps, Awake}
use freertos_in_rust.Tasks.Delays.Ticks.{Ticked}

-- What has happened to the tasks after `n` ticks.
pub record Elapsed (a : Setting) (k : Kernel) (n : ℕ) (k' : Kernel) : Type 0 where
  pub lists : ℕ → List ℕ
  pub kernel : IsKernel a k' lists
  pub count : k'.tick_count ≡ (k.tick_count + n) % word_mod
  pub current : k'.current_tcb ≡ k.current_tcb
  pub wakes : (t j : ℕ) → a.live t → j < n → Sleeps a k t (suc j) → Awake a k' t
  pub waits : (t j : ℕ) → a.live t → Sleeps a k t (n + suc j) ↔ Sleeps a k' t (suc j)
  pub awake : (t : ℕ) → a.live t → Awake a k t → Awake a k' t

pub Elapsed-none :
    (a : Setting) (k k' : Kernel) (c : ℕ → List ℕ) → k' ≡ k → IsKernel a k c → Elapsed a k 0 k'
Elapsed-none a k k' c e h = subst (Elapsed a k 0) (sym e) (record {
  lists = c;
  kernel = h;
  count = let l = h.scheduled.tick in omega arith;
  current = refl;
  wakes = λ t j l i s. absurd (omega arith);
  waits = λ t j l.
      let e : 0 + suc j ≡ suc j = omega arith in
      ((λ s. subst (Sleeps a k t) e s), (λ s. subst (Sleeps a k t) (sym e) s));
  awake = λ t l s. s;
})

-- A task that is ready does not sleep.
Awake-Sleeps :
    (a : Setting) (k : Kernel) (c : ℕ → List ℕ) (t n : ℕ)
    → IsKernel a k c
    → a.live t
    → Awake a k t
    → Sleeps a k t n
    → ⊥
Awake-Sleeps a k c t n h l w (inl (e, v)) = (h.scheduled.tidy.tasks t l).ready_first (sym w.0 ∙ e)
Awake-Sleeps a k c t n h l w (inr (e, v)) = (h.scheduled.tidy.tasks t l).ready_second (sym w.0 ∙ e)

-- A tick leaves the tasks that are ready as they are.
Ticked-Awake :
    (a : Setting) (k : Kernel) (c : ℕ → List ℕ) (t : ℕ) (q : Ticked a k)
    → IsKernel a k c
    → a.live t
    → Awake a k t
    → Awake a q.k' t
Ticked-Awake a k c t q h l w = (
  q.others (state_item a t) (λ u lu s. let (n1, n2, _, _) = far u lu s in (n1, n2)) ∙ w.0,
  q.others (event_item a t) (λ u lu s. let (_, _, n1, n2) = far u lu s in (n1, n2)) ∙ w.1,
)
  where
    far :
        (u : ℕ)
        → a.live u
        → Sleeps a k u 1
        → (state_item a t ≢ state_item a u)
          × (state_item a t ≢ event_item a u)
          × (event_item a t ≢ state_item a u)
          × (event_item a t ≢ event_item a u)
    far u lu s =
        apart_tasks a k.delayed_task_list k.overflow_delayed_task_list k.store.items t u
          (h.scheduled.tidy.tasks t l) (h.scheduled.tidy.tasks u lu)
          (λ e. absurd (Awake-Sleeps a k c u 1 h lu (subst (Awake a k) e w) s))

-- a tick and the ones behind it
pub Elapsed-suc :
    (a : Setting) (k k1 k' : Kernel) (c : ℕ → List ℕ) (n : ℕ) (q : Ticked a k)
    → IsKernel a k c
    → k1 ≡ record q.k' { yield_pending = k1.yield_pending; pended_ticks = k1.pended_ticks }
    → Elapsed a k1 n k'
    → Elapsed a k (suc n) k'
Elapsed-suc a k k1 k' c n q h e w = record {
  lists = w.lists;
  kernel = w.kernel;
  count = let e1 = w.count in let e2 = ap (λ y. y.tick_count) e in let e3 = q.count in omega arith;
  current = w.current ∙ ap (λ y. y.current_tcb) e ∙ q.current;
  wakes = λ t j l i s. wake t l j i s;
  waits = λ t j l.
      let (there, back) = q.waits t (n + j) l in
      let (on, off) = w.waits t j l in
      (
        (λ s. on (
            subst (Sleeps a k1 t) (sym (add_suc j))
              (same t (suc (n + j)) (there (subst (Sleeps a k t) (add_suc2 j) s))))),
        (λ s.
            subst (Sleeps a k t) (sym (add_suc2 j))
              (back (same_back t (suc (n + j)) (subst (Sleeps a k1 t) (add_suc j) (off s))))),
      );
  awake = λ t l s. w.awake t l (stay t (Ticked-Awake a k c t q h l s));
}
  where
    add_suc : (j : ℕ) → n + suc j ≡ suc (n + j)
    add_suc j = omega arith

    add_suc2 : (j : ℕ) → suc n + suc j ≡ suc (suc (n + j))
    add_suc2 j = omega arith

    same : (t m : ℕ) → Sleeps a q.k' t m → Sleeps a k1 t m
    same t m s = subst (λ y. Sleeps a y t m) (sym e) s

    same_back : (t m : ℕ) → Sleeps a k1 t m → Sleeps a q.k' t m
    same_back t m s = subst (λ y. Sleeps a y t m) e s

    stay : (t : ℕ) → Awake a q.k' t → Awake a k1 t
    stay t s = subst (λ y. Awake a y t) (sym e) s

    wake : (t : ℕ) → a.live t → (j : ℕ) → j < suc n → Sleeps a k t (suc j) → Awake a k' t
    wake t l zero i s = w.awake t l (stay t (q.wakes t l s))
    wake t l (suc j) i s = w.wakes t j l (omega arith) (same t (suc j) ((q.waits t j l).0 s))

-- one sleeper after `n` ticks
pub Elapsed-sleeper :
    (a : Setting) (k : Kernel) (n : ℕ) (k' : Kernel) (t ticks : ℕ)
    → Elapsed a k n k'
    → a.live t
    → 0 < ticks
    → Sleeps a k t ticks
    → (n < ticks → Sleeps a k' t (ticks - n)) × (ticks ≤ n → Awake a k' t)
Elapsed-sleeper a k n k' t ticks e live some_time sleeps = (
  (λ few.
      let left : n + suc (ticks - n - 1) ≡ ticks = omega arith in
      subst (Sleeps a k' t) {x = suc (ticks - n - 1)} {y = ticks - n} (omega arith)
        ((e.waits t (ticks - n - 1) live).0 (subst (Sleeps a k t) (sym left) sleeps))),
  (λ enough.
      let one : ticks ≡ suc (ticks - 1) = omega arith in
      e.wakes t (ticks - 1) live (omega arith) (subst (Sleeps a k t) one sleeps)),
)
