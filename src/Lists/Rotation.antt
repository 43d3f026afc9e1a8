-- ===== src/Lists/Rotation.antt =====
-- The index of a list goes round its items, and `vListInsertEnd` puts an item last in the round.
use mathlib.Core.Path.{subst}
use freertos_in_rust.Prelude.{
  ℕ, zero, suc, ◌+◌, ◌≤◌, ◌<◌, ◌≡◌, refl, sym, ap, ◌∙◌, ◌≢◌, List, [], ◌∷◌, ◌++◌, append-nil,
  append_assoc, arith, length, word_mod, word_max,
}
use freertos_in_rust.Lists.{
  ListHead, Items, Store, list_end, set_head, initialise, count_in, insert_end,
  get_owner_of_next_entry,
}
use freertos_in_rust.Lists.Segments.{
  Fresh, last, first, Seg-next, Seg-previous, Fresh-append, last-Fresh, first-Fresh,
}
use freertos_in_rust.Lists.Shape.{IsList, Put, insert_end-Put, Put-IsList}

pub end_heads :
    (l x : ℕ) (s : Store) (xs : List ℕ)
    → IsList (record { items = (insert_end l x s).items; lists = count_in l s }) l xs
    → IsList (insert_end l x s) l xs × (((insert_end l x s).lists l).index ≡ (s.lists l).index)
unfolding insert_end
end_heads l x s xs r = (r, ground arith)

pub insert_end-IsList :
    (l x : ℕ) (s : Store) (ys zs : List ℕ)
    → IsList s l (ys ++ zs)
    → (s.lists l).index ≡ first zs (list_end l)
    → x ≢ list_end l
    → Fresh x (ys ++ zs)
    → (s.items x).item_value ≤ word_max
    → suc (length (ys ++ zs)) < word_mod
    → IsList (insert_end l x s) l (ys ++ x ∷ zs)
      × (((insert_end l x s).lists l).index ≡ (s.lists l).index)
      × Put s.items (insert_end l x s).items l (last (list_end l) ys) x (first zs (list_end l))
insert_end-IsList l x s ys zs r at nx fx v room =
    let end = list_end l in
    let (fy, fz) = Fresh-append x ys zs fx in
    let previous : (s.items (s.lists l).index).previous ≡ last end ys =
      ap (λ i. (s.items i).previous) at ∙ Seg-previous s.items end end ys zs r.ring in
    let put =
      insert_end-Put l x s (λ e. absurd (first-Fresh end x zs nx fz (e ∙ at)))
        (λ e. absurd (last-Fresh end x ys nx fy (sym (e ∙ previous)))) in
    let put' : Put s.items (insert_end l x s).items l (last end ys) x (first zs end) =
      subst (λ b. Put s.items (insert_end l x s).items l (last end ys) x b) at
        (subst (λ a. Put s.items (insert_end l x s).items l a x (s.lists l).index) previous put) in
    let (list, index) =
      end_heads l x s (ys ++ x ∷ zs)
        (Put-IsList s l x (insert_end l x s).items ys zs r put' nx fx v room) in
    (list, index, put')

-- `vListInsertEnd` of an item that is not in the list puts it in front of the item at the index, or at
-- the end of the list if the index is there, so that it comes last in the round. The index stays.
pub insert_end_refines :
    (l x : ℕ) (s : Store) (ys zs : List ℕ)
    → IsList s l (ys ++ zs)
    → (s.lists l).index ≡ first zs (list_end l)
    → x ≢ list_end l
    → Fresh x (ys ++ zs)
    → (s.items x).item_value ≤ word_max
    → suc (length (ys ++ zs)) < word_mod
    → IsList (insert_end l x s) l (ys ++ x ∷ zs)
      × (((insert_end l x s).lists l).index ≡ (s.lists l).index)
      × (((insert_end l x s).items x).container ≡ l)
insert_end_refines l x s ys zs r at nx fx v room =
    let (list, index, put) = insert_end-IsList l x s ys zs r at nx fx v room in
    (list, index, put.inside)

-- `vListInitialise` gives an empty list.
pub initialise_lem : (l : ℕ) (s : Store) → IsList (initialise l s) l []
unfolding initialise
initialise_lem l s = record {
  ring = (ground arith, ground arith);
  distinct = (tt, tt);
  marker = ground arith;
  held = tt;
  count = ground arith;
  fits = omega arith;
}

-- One step of the round: to the next item, or from the last one to the first.
pub next_entry :
    (l : ℕ) (s : Store) (ys zs : List ℕ)
    → IsList s l (ys ++ zs)
    → (s.lists l).index ≡ last (list_end l) ys
    → (z : ℕ) → first (zs ++ ys) (list_end l) ≡ z
    → z ≢ list_end l
    → get_owner_of_next_entry l s ≡ (
      (s.items z).owner,
      record s { lists = set_head s.lists l (record (s.lists l) { index = z }) },
    )
unfolding get_owner_of_next_entry
next_entry l s ys [] r at z e n =
    let end = list_end l in
    let next : (s.items (s.lists l).index).next ≡ end =
      ap (λ i. (s.items i).next) at ∙ Seg-next s.items end end ys [] r.ring in
    let start : (s.items end).next ≡ z =
      Seg-next s.items end end [] (ys ++ []) r.ring ∙ ap (λ xs. first xs end) (append-nil ys) ∙ e in
    ground arith
next_entry l s ys (y ∷ zs) r at z e n =
    let next : (s.items (s.lists l).index).next ≡ z =
      ap (λ i. (s.items i).next) at
      ∙ Seg-next s.items (list_end l) (list_end l) ys (y ∷ zs) r.ring
      ∙ e in
    ground arith

-- the owners that `n` calls of `listGET_OWNER_OF_NEXT_ENTRY` give
abbrev pub next_owners : ℕ → ℕ → Store → List ℕ
next_owners zero l s = []
next_owners (suc n) l s =
    (get_owner_of_next_entry l s).0 ∷ next_owners n l (get_owner_of_next_entry l s).1

abbrev pub owners : Items → List ℕ → List ℕ
owners m [] = []
owners m (x ∷ xs) = (m x).owner ∷ owners m xs

-- the index moved to `z`
abbrev pub moved : ℕ → Store → ℕ → Store
moved l s z = record s { lists = set_head s.lists l (record (s.lists l) { index = z }) }

pub moved-IsList :
    (l : ℕ) (s : Store) (xs : List ℕ) (z : ℕ)
    → IsList s l xs
    → IsList (moved l s z) l xs × (((moved l s z).lists l).index ≡ z)
moved-IsList l s xs z r = (
  record {
    ring = r.ring;
    distinct = r.distinct;
    marker = r.marker;
    held = r.held;
    count = ground (arith, r.count);
    fits = r.fits;
  },
  ground arith,
)

pub last-append : (p z : ℕ) (ys : List ℕ) → last p (ys ++ z ∷ []) ≡ z
last-append p z [] = refl
last-append p z (y ∷ ys) = last-append y z ys

pub middle-Fresh : (a z : ℕ) (ys zs : List ℕ) → Fresh a (ys ++ z ∷ zs) → z ≢ a
middle-Fresh a z [] zs f = λ e. absurd (f.0 (sym e))
middle-Fresh a z (y ∷ ys) zs f = middle-Fresh a z ys zs f.1

-- `k` calls more than there are items
abbrev calls : List ℕ → ℕ → ℕ
calls [] k = k
calls (z ∷ zs) k = suc (calls zs k)

calls_lem : (zs : List ℕ) (k : ℕ) → calls zs k ≡ length zs + k
calls_lem [] k = omega arith
calls_lem (z ∷ zs) k = omega (arith, calls_lem zs k)

-- From the last of `ys` on, the next calls give the owners of the items behind it, `zs`, and move the
-- index to the last of these.
walk :
    (k l : ℕ) (ys zs ws : List ℕ) (s : Store)
    → IsList s l (ys ++ (zs ++ ws))
    → (s.lists l).index ≡ last (list_end l) ys
    → (lists : ℕ → ListHead) × (next_owners (calls zs k) l s
        ≡ owners s.items zs ++ next_owners k l (record s { lists = lists }))
      × IsList (record s { lists = lists }) l (ys ++ (zs ++ ws))
      × ((lists l).index ≡ last (list_end l) (ys ++ zs))
walk k l ys [] ws s r at = (s.lists, refl, r, at ∙ ap (last (list_end l)) (sym (append-nil ys)))
walk k l ys (z ∷ zs) ws s r at =
    let end = list_end l in
    let step =
      next_entry l s ys (z ∷ (zs ++ ws)) r at z refl
        (middle-Fresh end z ys (zs ++ ws) r.distinct.0) in
    let (list, index) = moved-IsList l s (ys ++ z ∷ (zs ++ ws)) z r in
    let shape : (ys ++ z ∷ []) ++ (zs ++ ws) ≡ ys ++ z ∷ (zs ++ ws) =
      append_assoc ys (z ∷ []) (zs ++ ws) in
    let (lists, owned, list', index') =
      walk k l (ys ++ z ∷ []) zs ws (moved l s z) (subst (IsList (moved l s z) l) (sym shape) list)
        (index ∙ sym (last-append end z ys)) in
    (
      lists,
      ap (λ g. g.0 ∷ next_owners (calls zs k) l g.1) step ∙ ap (λ os. (s.items z).owner ∷ os) owned,
      subst (IsList (record s { lists = lists }) l) shape list',
      index' ∙ ap (last end) (append_assoc ys (z ∷ []) zs),
    )

-- In as many calls as the list has items, each item's owner is given once: first the ones behind the
-- index in their order, then those from the head of the list up to the index.
pub round_robin :
    (l : ℕ) (s : Store) (ys zs : List ℕ)
    → IsList s l (ys ++ zs)
    → (s.lists l).index ≡ last (list_end l) ys
    → next_owners (length zs + length ys) l s ≡ owners s.items zs ++ owners s.items ys
round_robin l s ys zs r at =
    let (lists, owned, list, index) =
      walk (length ys) l ys zs [] s (subst (λ ws. IsList s l (ys ++ ws)) (sym (append-nil zs)) r)
        at in
    let list' : IsList (record s { lists = lists }) l (ys ++ zs) =
      subst (λ ws. IsList (record s { lists = lists }) l (ys ++ ws)) (append-nil zs) list in
    ap (λ n. next_owners n l s) (sym (calls_lem zs (length ys)))
    ∙ owned
    ∙ ap (λ os. owners s.items zs ++ os) (wrap ys lists list' index)
  where
    wrap :
        (ys : List ℕ) (lists : ℕ → ListHead)
        → IsList (record s { lists = lists }) l (ys ++ zs)
        → (lists l).index ≡ last (list_end l) (ys ++ zs)
        → next_owners (length ys) l (record s { lists = lists }) ≡ owners s.items ys
    wrap [] lists r at = refl
    wrap (y ∷ ys) lists r at =
        let end = list_end l in
        let t = record s { lists = lists } in
        let step =
          next_entry l t (y ∷ (ys ++ zs)) []
            (subst (IsList t l) (sym (append-nil (y ∷ (ys ++ zs)))) r) at y refl
            (λ e. absurd (r.distinct.0.0 (sym e))) in
        let (list, index) = moved-IsList l t (y ∷ (ys ++ zs)) y r in
        let (lists', owned, _, _) = walk 0 l (y ∷ []) ys zs (moved l t y) list index in
        let number : length ys ≡ calls ys 0 = omega (arith, calls_lem ys 0) in
        ap (λ g. g.0 ∷ next_owners (length ys) l g.1) step
        ∙ ap (λ os. (s.items y).owner ∷ os)
            (ap (λ n. next_owners n l (moved l t y)) number
              ∙ owned
              ∙ append-nil (owners s.items ys))
