-- ===== src/Tasks/Delays/Unblocking.antt =====
-- One task is made ready: out of the delayed list and of the list of its event, into its ready list.
use mathlib.Core.Path.{subst}
use freertos_in_rust.Prelude.{
  ℕ, ◌≡◌, refl, sym, ap, ◌∙◌, ◌≢◌, inl, inr, List, [], ◌∷◌, ◌++◌, arith, drop,
}
use freertos_in_rust.Lists.{Store, insert_end, remove}
use freertos_in_rust.Lists.Segments.{Distinct}
use freertos_in_rust.Lists.Members.{Within, Within-middle, Fresh-Within}
use freertos_in_rust.Lists.World.{with_list, Moved, Held-Within, with_self, with_other}
use freertos_in_rust.Tasks.Delays.{leave_event_list}
use freertos_in_rust.Tasks.Delays.Tidy.{
  Setting, state_item, event_item, ready_list, Sleepers, IsTidy,
}
use freertos_in_rust.Tasks.Delays.Moves.{remove-IsTidy, insert_end-IsTidy}

-- the store of `unblock`
abbrev pub unblocked : Setting → ℕ → Store → Store
unblocked a t s =
    insert_end (ready_list a t) (state_item a t)
      (leave_event_list (event_item a t) (remove (state_item a t) s).1)

-- The items of the tasks in `xs` have gone to their ready lists, and those tasks wait for no event. All
-- others are where they were.
pub record Woken (a : Setting) (s s' : Store) (xs : List ℕ) : Type 0 where
  pub ready :
      (t : ℕ)
      → a.live t
      → Within (state_item a t) xs
      → ((s'.items (state_item a t)).container ≡ ready_list a t)
        × ((s'.items (event_item a t)).container ≡ 0)
  pub stay :
      (r : ℕ)
      → ((t : ℕ)
          → a.live t
          → Within (state_item a t) xs
          → (r ≢ state_item a t) × (r ≢ event_item a t))
      → (s'.items r).container ≡ (s.items r).container
  pub values : (r : ℕ) → (s'.items r).item_value ≡ (s.items r).item_value
  pub owners : (r : ℕ) → (s'.items r).owner ≡ (s.items r).owner

head_removed :
    (x : ℕ) (xs ys zs : List ℕ) → Distinct (x ∷ xs) → ys ++ x ∷ zs ≡ x ∷ xs → ys ++ zs ≡ xs
head_removed x xs [] zs h e = ap (drop 1) e
head_removed x xs (y ∷ ys) zs h e =
    let within : Within x xs = subst (Within x) (ap (drop 1) e) (Within-middle x ys zs) in
    absurd (Fresh-Within x x xs h.0 within refl)

module _ (a : Setting) (d o : ℕ) where
  event_aside :
      (s : Store) (c : ℕ → List ℕ) (h : IsTidy a d o s c) (t q : ℕ)
      → a.live t
      → a.known q
      → Sleepers a s.items (c q)
      → (s.items (event_item a t)).container ≢ q
  event_aside s c h t q k kq sleepers e =
      let task = h.tasks t k in
      let within =
        subst (λ y. Within (event_item a t) (c y)) e
          (h.world.complete (event_item a t) (subst a.known (sym e) kq)) in
      task.differ
        (ap (state_item a) (sym task.event_owner) ∙ sym (sleepers.own (event_item a t) within))

  -- A task stops to wait for an event.
  pub leave-IsTidy :
      (s : Store) (c : ℕ → List ℕ) (h : IsTidy a d o s c) (t : ℕ)
      → a.live t
      → (c' : ℕ → List ℕ) × (c' d ≡ c d)
        × (c' o ≡ c o)
        × IsTidy a d o (leave_event_list (event_item a t) s) c'
        × Moved s (leave_event_list (event_item a t) s) (event_item a t) 0
  leave-IsTidy s c h t k = elim (h.tasks t k).waits [
    | inl out ↦
        let same : s ≡ leave_event_list (event_item a t) s = ground arith in
        let moved : Moved s s (event_item a t) 0 = record {
          to = out;
          stay = λ r n. refl;
          values = λ r. refl;
          owners = λ r. refl;
        } in
        (
          c,
          refl,
          refl,
          subst (λ y. IsTidy a d o y c) same h,
          subst (λ y. Moved s y (event_item a t) 0) same moved,
        )
    | inr kl ↦
        let l = (s.items (event_item a t)).container in
        let n : l ≢ 0 = λ e. absurd (h.world.null (subst a.known e kl)) in
        let same : (remove (event_item a t) s).1 ≡ leave_event_list (event_item a t) s =
          ground arith in
        let (ys, zs, e, tidy, moved) = remove-IsTidy a d o s c h (event_item a t) l kl refl in
        (
          with_list c l (ys ++ zs),
          with_other c l (ys ++ zs) d
              (λ e. absurd (event_aside s c h t d k h.first_known h.first (sym e))),
          with_other c l (ys ++ zs) o
              (λ e. absurd (event_aside s c h t o k h.second_known h.second (sym e))),
          subst (λ y. IsTidy a d o y (with_list c l (ys ++ zs))) same tidy,
          subst (λ y. Moved s y (event_item a t) 0) same moved,
        )
  ]

  -- A task out of its list gets ready.
  pub ready-IsTidy :
      (s : Store) (c : ℕ → List ℕ) (h : IsTidy a d o s c) (t : ℕ)
      → a.live t
      → (s.items (state_item a t)).container ≡ 0
      → (c' : ℕ → List ℕ) × (c' d ≡ c d)
        × (c' o ≡ c o)
        × IsTidy a d o (insert_end (ready_list a t) (state_item a t) s) c'
        × Moved s (insert_end (ready_list a t) (state_item a t) s) (state_item a t) (ready_list a t)
  ready-IsTidy s c h t k out =
      let task = h.tasks t k in
      let l = ready_list a t in
      let (ys, zs, e, tidy, moved) =
        insert_end-IsTidy a d o s c h (state_item a t) l task.ready_known task.ready_first
          task.ready_second task.state out task.value in
      (
        with_list c l (ys ++ state_item a t ∷ zs),
        with_other c l (ys ++ state_item a t ∷ zs) d (λ e. absurd (task.ready_first (sym e))),
        with_other c l (ys ++ state_item a t ∷ zs) o (λ e. absurd (task.ready_second (sym e))),
        tidy,
        moved,
      )

  -- The first sleeper is made ready.
  pub unblocked-IsTidy :
      (s : Store) (c : ℕ → List ℕ) (h : IsTidy a d o s c) (t : ℕ) (xs : List ℕ)
      → a.live t
      → c d ≡ state_item a t ∷ xs
      → (c' : ℕ → List ℕ) × (c' d ≡ xs)
        × (c' o ≡ c o)
        × IsTidy a d o (unblocked a t s) c'
        × Woken a s (unblocked a t s) (state_item a t ∷ [])
  unblocked-IsTidy s c h t xs k e =
      let x = state_item a t in
      let z = event_item a t in
      let task = h.tasks t k in
      let list = h.world.lists d h.first_known in
      let at : (s.items x).container ≡ d =
        Held-Within s.items d x (c d) list.held (subst (Within x) (sym e) (inl refl)) in
      let (ys, zs, split, tidy1, m1) = remove-IsTidy a d o s c h x d h.first_known at in
      let c1 = with_list c d (ys ++ zs) in
      let rest : ys ++ zs ≡ xs =
        head_removed x xs ys zs (subst (λ v. Distinct v) e list.distinct.1) (split ∙ e) in
      let (c2, d2, o2, tidy2, m2) = leave-IsTidy (remove x s).1 c1 tidy1 t k in
      let s2 = leave_event_list z (remove x s).1 in
      let out : (s2.items x).container ≡ 0 = m2.stay x task.differ ∙ m1.to in
      let (c3, d3, o3, tidy3, m3) = ready-IsTidy s2 c2 tidy2 t k out in
      let woken : Woken a s (unblocked a t s) (x ∷ []) = record {
        ready = λ u l w. elim w [
          | inl same ↦
              let e : u ≡ t =
                sym (h.tasks u l).state_owner
                ∙ ap (λ y. (s.items y).owner) same
                ∙ task.state_owner in
              subst
                (λ v.
                  (((unblocked a t s).items (state_item a v)).container ≡ ready_list a v)
                  × (((unblocked a t s).items (event_item a v)).container ≡ 0))
                (sym e) (m3.to, m3.stay z (λ e. absurd (task.differ (sym e))) ∙ m2.to)
          | inr none_more ↦ absurd none_more
        ];
        stay = λ r n. let (n1, n2) = n t k (inl refl) in m3.stay r n1 ∙ m2.stay r n2 ∙ m1.stay r n1;
        values = λ r. m3.values r ∙ m2.values r ∙ m1.values r;
        owners = λ r. m3.owners r ∙ m2.owners r ∙ m1.owners r;
      } in
      (
        c3,
        d3 ∙ d2 ∙ with_self c d (ys ++ zs) ∙ rest,
        o3 ∙ o2 ∙ with_other c d (ys ++ zs) o (λ e. absurd (h.apart (sym e))),
        tidy3,
        woken,
      )
