-- ===== src/Tasks/Ready/Selection.antt =====
-- The task selected has the highest priority of all that are ready, and is next in the round of these.
use mathlib.Core.Path.{subst}
use freertos_in_rust.Prelude.{
  ℕ, zero, suc, ◌≤◌, ◌<◌, ◌≡◌, refl, sym, ap, ◌∙◌, ◌≢◌, ◌⊎◌, inl, inr, List, [], ◌∷◌, ◌++◌,
  append-nil, append_assoc, arith, leb, ◌==◌, Bool-cases, length, ok, ◌>>=◌,
}
use freertos_in_rust.Lists.{Store, list_end, get_owner_of_next_entry}
use freertos_in_rust.Lists.Segments.{last, first}
use freertos_in_rust.Lists.Shape.{IsList}
use freertos_in_rust.Lists.Rotation.{next_entry, moved, moved-IsList, last-append, middle-Fresh}
use freertos_in_rust.Tasks.Ready.{Kernel, find_top, select_highest_priority_task}

-- The list `l` holds `xs`, and its index stands at its end or at one of them: behind `ys`, in front of `zs`.
pub record Round (s : Store) (l : ℕ) (xs : List ℕ) : Type 0 where
  pub list : IsList s l xs
  pub ys : List ℕ
  pub zs : List ℕ
  pub split : ys ++ zs ≡ xs
  pub at : (s.lists l).index ≡ last (list_end l) ys

-- The ready lists hold `tasks` by priority, and none of a priority above the bound holds any.
pub record IsReady (ready : ℕ → ℕ) (most : ℕ) (s : Kernel) (tasks : ℕ → List ℕ) : Type 0 where
  pub rounds : (p : ℕ) → p < most → Round s.store (ready p) (tasks p)
  pub bounded : s.top_ready_priority < most
  pub above : (p : ℕ) → p < most → s.top_ready_priority < p → tasks p ≡ []

-- What the selection comes to: a priority, an item of its list, and the scheduler.
abbrev pub Selected : (ℕ → ℕ) → ℕ → Kernel → (ℕ → List ℕ) → Type 0
Selected ready most s tasks =
    (p : ℕ) × (z : ℕ) × (ys : List ℕ) × (zs : List ℕ) × (s' : Kernel)
    × (select_highest_priority_task ready s ≡ ok s')
    × (tasks p ≢ [])
    × ((q : ℕ) → q < most → p < q → tasks q ≡ [])
    × (s'.current_tcb ≡ (s.store.items z).owner)
    × (s'.top_ready_priority ≡ p)
    × ((ys ++ zs ≡ tasks p)
        × ((s.store.lists (ready p)).index ≡ last (list_end (ready p)) ys)
        × (z ≡ first (zs ++ ys) (list_end (ready p))))
    × ((s'.store.lists (ready p)).index ≡ z)
    × IsReady ready most s' tasks

-- One step of a round.
Round-next :
    (s : Store) (l : ℕ) (xs ys zs : List ℕ)
    → IsList s l xs
    → ys ++ zs ≡ xs
    → (s.lists l).index ≡ last (list_end l) ys
    → xs ≢ []
    → (z : ℕ) × (z ≡ first (zs ++ ys) (list_end l))
      × (get_owner_of_next_entry l s ≡ ((s.items z).owner, moved l s z))
      × Round (moved l s z) l xs
Round-next s l xs [] [] r e at n = absurd (n (sym e))
Round-next s l xs (y ∷ ys) [] r e at n =
    let r' : IsList s l ((y ∷ ys) ++ []) = subst (IsList s l) (sym e) r in
    let (list, index) = moved-IsList l s xs y r in
    (
      y,
      refl,
      next_entry l s (y ∷ ys) [] r' at y refl (λ h. absurd (r'.distinct.0.0 (sym h))),
      record {
        list = list;
        ys = y ∷ [];
        zs = ys;
        split = ap (λ l. y ∷ l) (sym (append-nil ys)) ∙ e;
        at = index;
      },
    )
Round-next s l xs ys (z ∷ zs) r e at n =
    let r' : IsList s l (ys ++ z ∷ zs) = subst (IsList s l) (sym e) r in
    let (list, index) = moved-IsList l s xs z r in
    (
      z,
      refl,
      next_entry l s ys (z ∷ zs) r' at z refl (middle-Fresh (list_end l) z ys zs r'.distinct.0),
      record {
        list = list;
        ys = ys ++ z ∷ [];
        zs = zs;
        split = append_assoc ys (z ∷ []) zs ∙ e;
        at = index ∙ sym (last-append (list_end l) z ys);
      },
    )

-- The other lists are as they were.
Round-other :
    (s : Store) (l l' z : ℕ) (xs : List ℕ) → l' ≢ l → Round s l' xs → Round (moved l s z) l' xs
Round-other s l l' z xs n r =
    let same : (moved l s z).lists l' ≡ s.lists l' = ground arith in
    record {
      list = record {
        ring = r.list.ring;
        distinct = r.list.distinct;
        marker = r.list.marker;
        held = r.list.held;
        count = ap (λ h. h.number_of_items) same ∙ r.list.count;
        fits = r.list.fits;
      };
      ys = r.ys;
      zs = r.zs;
      split = r.split;
      at = ap (λ h. h.index) same ∙ r.at;
    }

nil-cases : (xs : List ℕ) → (xs ≡ []) ⊎ (0 < length xs)
nil-cases [] = inl refl
nil-cases (x ∷ xs) = inr (omega arith)

module _ (ready : ℕ → ℕ) (most : ℕ) (s : Kernel) (tasks : ℕ → List ℕ)
    (r : IsReady ready most s tasks) where
  -- what the loop finds from `top` down
  find_top_lem :
      (top q : ℕ)
      → top < most
      → q ≤ top
      → tasks q ≢ []
      → (p : ℕ) × (find_top ready s.store top ≡ ok p)
        × (p ≤ top)
        × (tasks p ≢ [])
        × ((q : ℕ) → q ≤ top → p < q → tasks q ≡ [])
  unfolding find_top
  find_top_lem zero q low le some_task = elim (nil-cases (tasks 0)) [
    | inl none_ready ↦
        let same : q ≡ 0 = omega arith in absurd (some_task (ap tasks same ∙ none_ready))
    | inr ready_tasks ↦
        let number = (r.rounds 0 low).list.count in
        (0, ground arith, omega arith, (λ e. absurd (ground arith)), λ q l h. absurd (omega arith))
  ]
  find_top_lem (suc top) q low le some_task = elim (nil-cases (tasks (suc top))) [
    | inl none_ready ↦
        let number = (r.rounds (suc top) low).list.count in
        let empty : (s.store.lists (ready (suc top))).number_of_items ≡ 0 =
          number ∙ ap length none_ready in
        let other : q ≢ suc top = λ e. absurd (some_task (ap tasks e ∙ none_ready)) in
        let (p, found, below, real, rest) =
          find_top_lem top q (omega arith) (omega arith) some_task in
        (
          p,
          ground arith,
          omega arith,
          real,
          λ q l h. elim (Bool-cases (q == suc top)) [
            | inl here ↦ let same : q ≡ suc top = ground arith in ap tasks same ∙ none_ready
            | inr lower ↦ rest q (ground arith) h
          ],
        )
    | inr ready_tasks ↦
        let number = (r.rounds (suc top) low).list.count in
        (
          suc top,
          ground arith,
          omega arith,
          (λ e. absurd (ground arith)),
          λ q l h. absurd (omega arith),
        )
  ]

  selected :
      (p : ℕ) (o : ℕ) (store : Store)
      → find_top ready s.store s.top_ready_priority ≡ ok p
      → get_owner_of_next_entry (ready p) s.store ≡ (o, store)
      → select_highest_priority_task ready s
        ≡ ok (record s { store = store; current_tcb = o; top_ready_priority = p })
  unfolding select_highest_priority_task
  selected p o store e f =
      ap
        (λ x. x >>= λ top. ok (record s {
          store = (get_owner_of_next_entry (ready top) s.store).1;
          current_tcb = (get_owner_of_next_entry (ready top) s.store).0;
          top_ready_priority = top;
        }))
        e
      ∙ ap (λ g. ok (record s { store = g.1; current_tcb = g.0; top_ready_priority = p })) f

  -- With ready lists at different addresses and some task ready, the selection fails no assertion. It
  -- selects the owner of an item `z` of the highest priority `p` that has a ready task: the next item
  -- behind the index of that list, or its first one if the index stands at the last. The lists then
  -- hold the same items, with the index at `z`, and the bound on the priorities is `p`.
  pub select_lem :
      (q : ℕ)
      → q ≤ s.top_ready_priority
      → tasks q ≢ []
      → ((a b : ℕ) → ready a ≡ ready b → a ≡ b)
      → Selected ready most s tasks
  select_lem q le some_task distinct =
      let (p, found, below, real, rest) =
        find_top_lem s.top_ready_priority q r.bounded le some_task in
      let low : p < most = omega (arith, r.bounded) in
      let round = r.rounds p low in
      let (z, place, step, again) =
        Round-next s.store (ready p) (tasks p) round.ys round.zs round.list round.split round.at
          real in
      let higher : (q : ℕ) → q < most → p < q → tasks q ≡ [] = λ q l h.
        elim (Bool-cases (leb q s.top_ready_priority)) [
          | inl inside ↦ rest q (ground arith) h
          | inr outside ↦ r.above q l (ground arith)
        ] in
      (
        p,
        z,
        round.ys,
        round.zs,
        record s {
          store = moved (ready p) s.store z;
          current_tcb = (s.store.items z).owner;
          top_ready_priority = p;
        },
        selected p (s.store.items z).owner (moved (ready p) s.store z) found step,
        real,
        higher,
        refl,
        refl,
        (round.split, round.at, place),
        (moved-IsList (ready p) s.store (tasks p) z round.list).1,
        record {
          rounds = λ q l. elim (Bool-cases (q == p)) [
            | inl here ↦
                let same : p ≡ q = ground arith in
                subst (λ x. Round (moved (ready p) s.store z) (ready x) (tasks x)) same again
            | inr other ↦
                Round-other s.store (ready p) (ready q) z (tasks q)
                  (λ e. absurd (let same = distinct q p e in ground arith)) (r.rounds q l)
          ];
          bounded = low;
          above = higher;
        },
      )
