-- ===== src/Lists/World/Inserting.antt =====
-- An item in no list is put into one of several: at the end of the round, or in order.
use mathlib.Core.Path.{subst}
use freertos_in_rust.Prelude.{
  ℕ, suc, ◌≤◌, ◌<◌, ◌≡◌, refl, sym, ap, ◌∙◌, ◌≢◌, inl, inr, some, List, [], ◌∷◌, ◌++◌, append-nil,
  arith, ◌==◌, Bool-cases, length, word_mod, word_max,
}
use freertos_in_rust.Lists.{Store, list_end, insert_end, insert_behind, insert}
use freertos_in_rust.Lists.Segments.{Fresh, last, first}
use freertos_in_rust.Lists.Shape.{IsList, Put}
use freertos_in_rust.Lists.Members.{
  Within, Within-middle, Within-insert, Within-split, Fresh-of, Distinct-fits,
}
use freertos_in_rust.Lists.Ordered.{before, after, before-after}
use freertos_in_rust.Lists.Insertion.{behind_index, behind-IsList, insert_place}
use freertos_in_rust.Lists.Rotation.{insert_end-IsList, moved}
use freertos_in_rust.Lists.World.{World, with_list, Moved, Held-Within, World-change}

-- an address that may be put into lists
abbrev pub IsItem : (ℕ → Type 0) → ℕ → Type 0
IsItem known x = (0 < x) × (x < word_mod) × ((q : ℕ) → known q → x ≢ list_end q)

pub last-off : (p r : ℕ) (ys : List ℕ) → r ≢ p → ((q : ℕ) → Within q ys → r ≢ q) → r ≢ last p ys
last-off p r [] n h = n
last-off p r (y ∷ ys) n h = last-off y r ys (h y (inl refl)) (λ q w. h q (inr w))

pub first-off : (q r : ℕ) (zs : List ℕ) → r ≢ q → ((p : ℕ) → Within p zs → r ≢ p) → r ≢ first zs q
first-off q r [] n h = n
first-off q r (z ∷ zs) n h = h z (inl refl)

pub Within-left : (r : ℕ) (ys zs : List ℕ) → Within r ys → Within r (ys ++ zs)
Within-left r [] zs w = absurd w
Within-left r (y ∷ ys) zs (inl e) = inl e
Within-left r (y ∷ ys) zs (inr w) = inr (Within-left r ys zs w)

pub Within-right : (r : ℕ) (ys zs : List ℕ) → Within r zs → Within r (ys ++ zs)
Within-right r [] zs w = w
Within-right r (y ∷ ys) zs w = inr (Within-right r ys zs w)

-- where an index stands in front of an item or the end
index_place :
    (i end : ℕ) (xs : List ℕ)
    → Within i (end ∷ xs)
    → (ys : List ℕ) × (zs : List ℕ) × (ys ++ zs ≡ xs) × (i ≡ first zs end)
index_place i end xs (inl e) = (xs, [], append-nil xs, e)
index_place i end xs (inr w) = let (ys, zs, e) = Within-split i xs w in (ys, i ∷ zs, e, refl)

module _ (known : ℕ → Type 0) (s : Store) (c : ℕ → List ℕ) (w : World known s c) (l x : ℕ)
    (kl : known l) (item : IsItem known x) (out : (s.items x).container ≡ 0) where
  pub Fresh-World : Fresh x (c l)
  Fresh-World = Fresh-of x (c l) (λ r m e. w.null (
      subst known
        (sym (Held-Within s.items l r (c l) (w.lists l kl).held m)
          ∙ ap (λ y. (s.items y).container) (sym e)
          ∙ out)
        kl))

  room : suc (length (c l)) < word_mod
  room = Distinct-fits (x ∷ c l) (Fresh-World, (w.lists l kl).distinct.1) go
    where
      go : (r : ℕ) → Within r (x ∷ c l) → (0 < r) × (r < word_mod)
      go r (inl e) = subst (λ y. (0 < y) × (y < word_mod)) (sym e) (item.0, item.1)
      go r (inr m) =
          w.real r (subst known (sym (Held-Within s.items l r (c l) (w.lists l kl).held m)) kl)

  -- an item elsewhere is no neighbour of a place in the list
  off : (r q : ℕ) → (s.items r).container ≢ l → Within q (c l) → r ≢ q
  off r q n m e =
      absurd (
        n (ap (λ y. (s.items y).container) e ∙ Held-Within s.items l q (c l) (w.lists l kl).held m))

  Put-World :
      (s' : Store) (ys zs : List ℕ)
      → ys ++ zs ≡ c l
      → Put s.items s'.items l (last (list_end l) ys) x (first zs (list_end l))
      → IsList s' l (ys ++ x ∷ zs)
      → (s'.lists l).index ≡ (s.lists l).index
      → ((q : ℕ) → q ≢ l → s'.lists q ≡ s.lists q)
      → World known s' (with_list c l (ys ++ x ∷ zs)) × Moved s s' x l
  Put-World s' ys zs e put list index heads =
      let moved : Moved s s' x l = record {
        to = put.inside;
        stay = put.containers;
        values = put.values;
        owners = put.owners;
      } in
      (
        World-change known s c w l x l s' (ys ++ x ∷ zs) kl (inl refl) item.2 (item.0, item.1)
            (λ q k n h. w.null (subst known (sym h ∙ out) k)) list
            (subst (λ i. Within i (list_end l ∷ (ys ++ x ∷ zs))) (sym index)
              (wider
                (subst (λ v. Within (s.lists l).index (list_end l ∷ v)) (sym e) (w.index l kl))))
            (λ r h. elim (Bool-cases (r == x)) [
              | inl same ↦
                  subst (λ y. Within y (ys ++ x ∷ zs)) {x = x} (ground arith)
                    (Within-middle x ys zs)
              | inr other ↦
                  let before : (s.items r).container ≡ l =
                    sym (put.containers r (λ e. absurd (ground arith))) ∙ h in
                  Within-insert r x ys zs (
                    subst (Within r) (ap c before ∙ sym e)
                      (w.complete r (subst known (sym before) kl)))
            ])
            moved
            (λ r n1 n2 n3.
              put.others r
                (last-off (list_end l) r ys n1
                  (λ q m. off r q n2 (subst (Within q) e (Within-left q ys zs m))))
                n3
                (first-off (list_end l) r zs n1
                  (λ q m. off r q n2 (subst (Within q) e (Within-right q ys zs m)))))
            heads,
        moved,
      )
    where
      wider : {i : ℕ} → Within i (list_end l ∷ (ys ++ zs)) → Within i (list_end l ∷ (ys ++ x ∷ zs))
      wider (inl h) = inl h
      wider {i} (inr m) = inr (Within-insert i x ys zs m)

  end_others : (q : ℕ) → q ≢ l → (insert_end l x s).lists q ≡ s.lists q
  unfolding insert_end
  end_others q n = ground arith

  behind_others : (a q : ℕ) → q ≢ l → (insert_behind l x a s).lists q ≡ s.lists q
  unfolding insert_behind
  behind_others a q n = ground arith

  -- The item goes in front of the index.
  pub insert_end-World :
      (s.items x).item_value ≤ word_max
      → (ys : List ℕ) × (zs : List ℕ) × (ys ++ zs ≡ c l)
        × World known (insert_end l x s) (with_list c l (ys ++ x ∷ zs))
        × Moved s (insert_end l x s) x l
  insert_end-World v =
      let (ys, zs, e, at) = index_place (s.lists l).index (list_end l) (c l) (w.index l kl) in
      let (list, index, put) =
        insert_end-IsList l x s ys zs (subst (IsList s l) (sym e) (w.lists l kl)) at (item.2 l kl)
          (subst (Fresh x) (sym e) Fresh-World) v
          (subst (λ v. suc (length v) < word_mod) (sym e) room) in
      let (world, moved) = Put-World (insert_end l x s) ys zs e put list index end_others in
      (ys, zs, e, world, moved)

  -- The item goes behind those of its value or a smaller one.
  pub insert-World :
      (s.items x).item_value ≤ word_max
      → (s' : Store) × (insert l x s ≡ some s')
        × World known s' (
            with_list c l (
              before s.items (s.items x).item_value (c l)
              ++ x ∷ after s.items (s.items x).item_value (c l)))
        × Moved s s' x l
  insert-World v =
      let ys = before s.items (s.items x).item_value (c l) in
      let zs = after s.items (s.items x).item_value (c l) in
      let e = before-after s.items (s.items x).item_value (c l) in
      let a = last (list_end l) ys in
      let (list, put) =
        behind-IsList l x s ys zs (subst (IsList s l) (sym e) (w.lists l kl)) (item.2 l kl)
          (subst (Fresh x) (sym e) Fresh-World) v
          (subst (λ v. suc (length v) < word_mod) (sym e) room) in
      let (world, moved) =
        Put-World (insert_behind l x a s) ys zs e put list (behind_index l x s a)
          (behind_others a) in
      (insert_behind l x a s, insert_place l x s (c l) (w.lists l kl) v, world, moved)
