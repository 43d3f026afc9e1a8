-- ===== src/Tasks/Delays/Moves.antt =====
-- The moves of single items that the delayed lists are changed by.
use mathlib.Core.Path.{subst}
use freertos_in_rust.Prelude.{
  ℕ, ◌≤◌, ◌≡◌, refl, sym, ap, ◌∙◌, ◌≢◌, ◌⊎◌, inl, inr, some, List, [], ◌∷◌, ◌++◌, arith, ◌==◌,
  Bool-cases, word_max,
}
use freertos_in_rust.Lists.{Items, Store, list_end, insert_end, insert, remove}
use freertos_in_rust.Lists.Members.{Within, Within-remove}
use freertos_in_rust.Lists.Ordered.{
  before, after, Bounded, Ascending, before-after, Ascending-insert,
}
use freertos_in_rust.Lists.World.{World, with_list, Moved, Held-Within, IsList-same}
use freertos_in_rust.Lists.World.Inserting.{IsItem, insert_end-World, insert-World}
use freertos_in_rust.Lists.World.Removing.{remove-World}
use freertos_in_rust.Tasks.Delays.{set_item_value}
use freertos_in_rust.Tasks.Delays.Tidy.{
  Setting, state_item, event_item, Sleepers, IsTidy, Sleepers-kept, Sleepers-remove, IsTask-Moved,
  either_list,
}

-- The value of an item in no list may change.
value-World :
    (known : ℕ → Type 0) (s : Store) (c : ℕ → List ℕ) (x v : ℕ)
    → World known s c
    → IsItem known x
    → (s.items x).container ≡ 0
    → World known (set_item_value x v s) c
value-World known s c x v w item out = record {
  lists = λ q k.
      IsList-same s (set_item_value x v s) q (c q) refl
        (same (list_end q) (λ e. absurd (item.2 q k (sym e))))
        (λ r m. same r (λ e. absurd (
          w.null (
            subst known
              (sym (Held-Within s.items q r (c q) (w.lists q k).held m)
                ∙ ap (λ y. (s.items y).container) e
                ∙ out)
              k))))
        (w.lists q k);
  index = w.index;
  ends = λ q k. containers (list_end q) ∙ w.ends q k;
  null = w.null;
  complete = λ r k.
      subst (λ q. Within r (c q)) (sym (containers r))
        (w.complete r (subst known (containers r) k));
  real = λ r k. w.real r (subst known (containers r) k);
}
  where
    same : (r : ℕ) → r ≢ x → (set_item_value x v s).items r ≡ s.items r
    same r n = ground arith

    containers : (r : ℕ) → ((set_item_value x v s).items r).container ≡ (s.items r).container
    containers r = ground arith

-- the order when the items of the list keep their values
Bounded-same :
    (m m' : Items) (b : ℕ) (xs : List ℕ)
    → ((r : ℕ) → Within r xs → m' r ≡ m r)
    → Bounded m b xs
    → Bounded m' b xs
Bounded-same m m' b [] same h = tt
Bounded-same m m' b (x ∷ xs) same h = (
  subst (λ i. b ≤ i.item_value) (sym (same x (inl refl))) h.0,
  Bounded-same m m' b xs (λ r w. same r (inr w)) h.1,
)

Ascending-same :
    (m m' : Items) (xs : List ℕ)
    → ((r : ℕ) → Within r xs → m' r ≡ m r)
    → Ascending m xs
    → Ascending m' xs
Ascending-same m m' [] same h = tt
Ascending-same m m' (x ∷ xs) same h = (
  subst (λ i. Bounded m' i.item_value xs) (sym (same x (inl refl)))
      (Bounded-same m m' (m x).item_value xs (λ r w. same r (inr w)) h.0),
  Ascending-same m m' xs (λ r w. same r (inr w)) h.1,
)

Sleepers-same :
    (a : Setting) (m m' : Items) (xs : List ℕ)
    → ((r : ℕ) → Within r xs → m' r ≡ m r)
    → Sleepers a m xs
    → Sleepers a m' xs
Sleepers-same a m m' xs same h = record {
  ascending = Ascending-same m m' xs same h.ascending;
  alive = λ x w. subst (λ i. a.live i.owner) (sym (same x w)) (h.alive x w);
  own = λ x w. h.own x w ∙ ap (λ i. state_item a i.owner) (sym (same x w));
}

-- The state item of a task stands in order among the sleepers.
Sleepers-insert :
    (a : Setting) (m : Items) (t : ℕ) (xs : List ℕ)
    → a.live t
    → (m (state_item a t)).owner ≡ t
    → Sleepers a m xs
    → Sleepers a m (
        before m (m (state_item a t)).item_value xs
        ++ state_item a t ∷ after m (m (state_item a t)).item_value xs)
Sleepers-insert a m t xs alive owner h = record {
  ascending =
      Ascending-insert m (m (state_item a t)).item_value (state_item a t) xs refl h.ascending;
  alive = λ x w. elim (place x w) [
    | inl e ↦ subst a.live (sym owner ∙ ap (λ y. (m y).owner) (sym e)) alive
    | inr k ↦ h.alive x k
  ];
  own = λ x w. elim (place x w) [
    | inl e ↦ e ∙ ap (state_item a) (sym owner ∙ ap (λ y. (m y).owner) (sym e))
    | inr k ↦ h.own x k
  ];
}
  where
    place :
        (x : ℕ)
        → Within x (
            before m (m (state_item a t)).item_value xs
            ++ state_item a t ∷ after m (m (state_item a t)).item_value xs)
        → (x ≡ state_item a t) ⊎ Within x xs
    place x w = elim (Bool-cases (x == state_item a t)) [
      | inl same ↦ inl (ground arith)
      | inr other ↦ inr (
          subst (Within x) (before-after m (m (state_item a t)).item_value xs) (
            Within-remove x (state_item a t) (before m (m (state_item a t)).item_value xs)
              (after m (m (state_item a t)).item_value xs) (λ e. absurd (ground arith)) w))
    ]

module _ (a : Setting) (d o : ℕ) (s : Store) (c : ℕ → List ℕ) (h : IsTidy a d o s c) where
  -- An item leaves its list.
  pub remove-IsTidy :
      (x l : ℕ)
      → a.known l
      → (s.items x).container ≡ l
      → (ys : List ℕ) × (zs : List ℕ) × (ys ++ x ∷ zs ≡ c l)
        × IsTidy a d o (remove x s).1 (with_list c l (ys ++ zs))
        × Moved s (remove x s).1 x 0
  remove-IsTidy x l kl at =
      let (ys, zs, e, world, moved, _) = remove-World a.known s c h.world x l kl at in
      let both : (q : ℕ)
          → Sleepers a s.items (c q)
          → Sleepers a (remove x s).1.items (with_list c l (ys ++ zs) q) =
        λ q k.
          Sleepers-kept a s.items (remove x s).1.items (with_list c l (ys ++ zs) q) moved.values
            moved.owners
            (either_list c l q (ys ++ zs) (Sleepers a s.items)
              (λ same.
                Sleepers-remove a s.items x ys zs
                  (subst (Sleepers a s.items) (ap c same ∙ sym e) k))
              (λ n. k)) in
      (
        ys,
        zs,
        e,
        record {
          world = world;
          apart = h.apart;
          first_known = h.first_known;
          second_known = h.second_known;
          first = both d h.first;
          second = both o h.second;
          tasks = λ t k. IsTask-Moved a d o s (remove x s).1 x 0 t moved (inl refl) (h.tasks t k);
        },
        moved,
      )

  -- An item goes to a list without order.
  pub insert_end-IsTidy :
      (x l : ℕ)
      → a.known l
      → l ≢ d
      → l ≢ o
      → IsItem a.known x
      → (s.items x).container ≡ 0
      → (s.items x).item_value ≤ word_max
      → (ys : List ℕ) × (zs : List ℕ) × (ys ++ zs ≡ c l)
        × IsTidy a d o (insert_end l x s) (with_list c l (ys ++ x ∷ zs))
        × Moved s (insert_end l x s) x l
  insert_end-IsTidy x l kl n1 n2 item out v =
      let (ys, zs, e, world, moved) = insert_end-World a.known s c h.world l x kl item out v in
      let both : (q : ℕ)
          → l ≢ q
          → Sleepers a s.items (c q)
          → Sleepers a (insert_end l x s).items (with_list c l (ys ++ x ∷ zs) q) =
        λ q n k.
          Sleepers-kept a s.items (insert_end l x s).items (with_list c l (ys ++ x ∷ zs) q)
            moved.values moved.owners
            (either_list c l q (ys ++ x ∷ zs) (Sleepers a s.items) (λ same. absurd (n (sym same)))
              (λ _. k)) in
      (
        ys,
        zs,
        e,
        record {
          world = world;
          apart = h.apart;
          first_known = h.first_known;
          second_known = h.second_known;
          first = both d n1 h.first;
          second = both o n2 h.second;
          tasks = λ t k. IsTask-Moved a d o s (insert_end l x s) x l t moved (inr kl) (h.tasks t k);
        },
        moved,
      )

  -- A task out of its list gets a time.
  pub value-IsTidy :
      (t v : ℕ)
      → a.live t
      → (s.items (state_item a t)).container ≡ 0
      → v ≤ word_max
      → IsTidy a d o (set_item_value (state_item a t) v s) c
  value-IsTidy t v k out fits = record {
    world = value-World a.known s c (state_item a t) v h.world (h.tasks t k).state out;
    apart = h.apart;
    first_known = h.first_known;
    second_known = h.second_known;
    first = both d h.first_known h.first;
    second = both o h.second_known h.second;
    tasks = λ u l.
        let k = h.tasks u l in
        record {
          state = k.state;
          event = k.event;
          differ = k.differ;
          state_owner = owners (state_item a u) ∙ k.state_owner;
          event_owner = owners (event_item a u) ∙ k.event_owner;
          value = values (state_item a u) k.value;
          event_value = values (event_item a u) k.event_value;
          waits = subst (λ q. (q ≡ 0) ⊎ a.known q) (sym (containers (event_item a u))) k.waits;
          ready_known = k.ready_known;
          ready_first = k.ready_first;
          ready_second = k.ready_second;
        };
  }
    where
      m' : Items
      m' = (set_item_value (state_item a t) v s).items

      owners : (r : ℕ) → (m' r).owner ≡ (s.items r).owner
      owners r = ground arith

      containers : (r : ℕ) → (m' r).container ≡ (s.items r).container
      containers r = ground arith

      values : (r : ℕ) → (s.items r).item_value ≤ word_max → (m' r).item_value ≤ word_max
      values r l = ground arith

      both : (q : ℕ) → a.known q → Sleepers a s.items (c q) → Sleepers a m' (c q)
      both q k = Sleepers-same a s.items m' (c q) (λ r w.
          let n : r ≢ state_item a t = λ e. absurd (
            h.world.null (
              subst a.known
                (sym (Held-Within s.items q r (c q) (h.world.lists q k).held w)
                  ∙ ap (λ y. (s.items y).container) e
                  ∙ out)
                k)) in
          ground arith)

  -- A task goes to a delayed list, in the order of the times.
  pub insert-IsTidy :
      (t l : ℕ)
      → a.live t
      → a.known l
      → (s.items (state_item a t)).container ≡ 0
      → (s' : Store) × (insert l (state_item a t) s ≡ some s')
        × IsTidy a d o s' (
            with_list c l (
              before s.items (s.items (state_item a t)).item_value (c l)
              ++ state_item a t ∷ after s.items (s.items (state_item a t)).item_value (c l)))
        × Moved s s' (state_item a t) l
  insert-IsTidy t l k kl out =
      let x = state_item a t in
      let task = h.tasks t k in
      let (s', done, world, moved) =
        insert-World a.known s c h.world l x kl task.state out task.value in
      let xs =
        before s.items (s.items x).item_value (c l)
        ++ x ∷ after s.items (s.items x).item_value (c l) in
      let both : (q : ℕ) → Sleepers a s.items (c q) → Sleepers a s'.items (with_list c l xs q) =
        λ q k'. Sleepers-kept a s.items s'.items (with_list c l xs q) moved.values moved.owners (
          either_list c l q xs (Sleepers a s.items)
            (λ same.
              Sleepers-insert a s.items t (c l) k task.state_owner
                (subst (Sleepers a s.items) (ap c same) k'))
            (λ n. k')) in
      (
        s',
        done,
        record {
          world = world;
          apart = h.apart;
          first_known = h.first_known;
          second_known = h.second_known;
          first = both d h.first;
          second = both o h.second;
          tasks = λ u k. IsTask-Moved a d o s s' x l u moved (inr kl) (h.tasks u k);
        },
        moved,
      )
