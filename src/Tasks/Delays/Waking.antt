-- ===== src/Tasks/Delays/Waking.antt =====
-- The loop of the tick makes ready each task whose time has come, in the order of their times, and ends.
use mathlib.Core.Path.{subst}
use freertos_in_rust.Prelude.{
  ℕ, ◌≡◌, refl, sym, ap, ◌∙◌, ◌≢◌, inl, inr, Bool, false, ◌||◌, List, [], ◌∷◌, ltb,
}
use freertos_in_rust.Lists.{Items, Store}
use freertos_in_rust.Lists.Segments.{Fresh}
use freertos_in_rust.Lists.Members.{Within, Fresh-Within}
use freertos_in_rust.Tasks.Ready.{Tcb}
use freertos_in_rust.Tasks.Delays.Tidy.{Setting, state_item, event_item, ready_list, IsTask, IsTidy}
use freertos_in_rust.Tasks.Delays.Unblocking.{Woken}

-- whether one of the tasks in `xs` has a higher priority than the current one
abbrev pub preempting : (ℕ → Tcb) → ℕ → Items → List ℕ → Bool
preempting tcbs current m [] = false
preempting tcbs current m (x ∷ xs) =
    ltb (tcbs current).priority (tcbs (m x).owner).priority || preempting tcbs current m xs

pub Woken-none : (a : Setting) (s : Store) → Woken a s s []
Woken-none a s = record {
  ready = λ t l w. absurd w;
  stay = λ r n. refl;
  values = λ r. refl;
  owners = λ r. refl;
}

module _ (a : Setting) (d o : ℕ) where
  -- the items of two tasks are apart
  pub apart_tasks :
      (m : Items) (t u : ℕ)
      → IsTask a d o m t
      → IsTask a d o m u
      → t ≢ u
      → (state_item a t ≢ state_item a u)
        × (state_item a t ≢ event_item a u)
        × (event_item a t ≢ state_item a u)
        × (event_item a t ≢ event_item a u)
  apart_tasks m t u h k n = (
    (λ e. absurd (n (sym h.state_owner ∙ ap (λ r. (m r).owner) e ∙ k.state_owner))),
    (λ e. absurd (n (sym h.state_owner ∙ ap (λ r. (m r).owner) e ∙ k.event_owner))),
    (λ e. absurd (n (sym h.event_owner ∙ ap (λ r. (m r).owner) e ∙ k.state_owner))),
    (λ e. absurd (n (sym h.event_owner ∙ ap (λ r. (m r).owner) e ∙ k.event_owner))),
  )

  -- Tasks woken one after the other.
  pub Woken-append :
      (s s1 s2 : Store) (c : ℕ → List ℕ) (t : ℕ) (xs : List ℕ)
      → IsTidy a d o s c
      → a.live t
      → Fresh (state_item a t) xs
      → Woken a s s1 (state_item a t ∷ [])
      → Woken a s1 s2 xs
      → Woken a s s2 (state_item a t ∷ xs)
  Woken-append s s1 s2 c t xs h k fresh w w' = record {
    ready = λ u l i. elim i [
      | inl same ↦
          let e : u ≡ t =
            sym (h.tasks u l).state_owner
            ∙ ap (λ y. (s.items y).owner) same
            ∙ (h.tasks t k).state_owner in
          let (ready, event) = w.ready t k (inl refl) in
          subst
            (λ v.
              ((s2.items (state_item a v)).container ≡ ready_list a v)
              × ((s2.items (event_item a v)).container ≡ 0))
            (sym e)
            (
              w'.stay (state_item a t) (λ v l' i'. (other v l' i').0) ∙ ready,
              w'.stay (event_item a t) (λ v l' i'. (other v l' i').1) ∙ event,
            )
      | inr later ↦ w'.ready u l later
    ];
    stay = λ r n. w'.stay r (λ v l i. n v l (inr i)) ∙ w.stay r (λ v l i. n v l (inl (single v i)));
    values = λ r. w'.values r ∙ w.values r;
    owners = λ r. w'.owners r ∙ w.owners r;
  }
    where
      single :
          (v : ℕ) → Within (state_item a v) (state_item a t ∷ []) → state_item a v ≡ state_item a t
      single v (inl e) = e
      single v (inr w) = absurd w

      other :
          (v : ℕ)
          → a.live v
          → Within (state_item a v) xs
          → ((state_item a t ≢ state_item a v) × (state_item a t ≢ event_item a v))
            × ((event_item a t ≢ state_item a v) × (event_item a t ≢ event_item a v))
      other v l i =
          let n : t ≢ v = λ e.
            absurd
              (Fresh-Within (state_item a t) (state_item a v) xs fresh i (ap (state_item a) e)) in
          let (n1, n2, n3, n4) = apart_tasks s.items t v (h.tasks t k) (h.tasks v l) n in
          ((n1, n2), (n3, n4))
