-- ===== src/Lists/World/Removing.antt =====
-- An item is taken out of the list that it is in.
use mathlib.Core.Path.{subst}
use freertos_in_rust.Prelude.{
  ℕ, ◌≡◌, refl, sym, ap, ◌∙◌, ◌≢◌, inl, inr, List, [], ◌∷◌, ◌++◌, arith, ◌==◌, if◌then◌else◌,
  Bool-cases, length,
}
use freertos_in_rust.Lists.{Store, list_end, remove}
use freertos_in_rust.Lists.Segments.{last}
use freertos_in_rust.Lists.Shape.{IsList}
use freertos_in_rust.Lists.Members.{Within, Within-remove, Within-split}
use freertos_in_rust.Lists.Removal.{removal-Cut, remove_refines}
use freertos_in_rust.Lists.World.{World, with_list, Moved, Held-Within, not-end, World-change}
use freertos_in_rust.Lists.World.Inserting.{last-off, first-off, Within-left, Within-right}

remove_others :
    (x q : ℕ) (s : Store) → q ≢ (s.items x).container → (remove x s).1.lists q ≡ s.lists q
unfolding remove
remove_others x q s n = ground arith

-- the index after a removal
last-Within : (p : ℕ) (ys zs : List ℕ) → Within (last p ys) (p ∷ (ys ++ zs))
last-Within p [] zs = inl refl
last-Within p (y ∷ ys) zs = inr (last-Within y ys zs)

removed_index :
    (i x p : ℕ) (ys zs : List ℕ)
    → x ≢ p
    → Within i (p ∷ (ys ++ x ∷ zs))
    → Within (if i == x then last p ys else i) (p ∷ (ys ++ zs))
removed_index i x p ys zs n w = elim (Bool-cases (i == x)) [
  | inl here ↦
      subst (λ y. Within y (p ∷ (ys ++ zs))) {x = last p ys} (ground arith) (last-Within p ys zs)
  | inr there ↦
      subst (λ y. Within y (p ∷ (ys ++ zs))) {x = i} (ground arith)
        (Within-remove i x (p ∷ ys) zs (λ e. absurd (ground arith)) w)
]

module _ (known : ℕ → Type 0) (s : Store) (c : ℕ → List ℕ) (w : World known s c) (x l : ℕ)
    (kl : known l) (at : (s.items x).container ≡ l) where
  -- The items in front of it and behind it stay in their order.
  pub remove-World :
      (ys : List ℕ) × (zs : List ℕ) × (ys ++ x ∷ zs ≡ c l)
      × World known (remove x s).1 (with_list c l (ys ++ zs))
      × Moved s (remove x s).1 x 0
      × ((remove x s).0 ≡ length (ys ++ zs))
  remove-World =
      let kx : known (s.items x).container = subst known (sym at) kl in
      let (ys, zs, e) = Within-split x (c l) (subst (λ q. Within x (c q)) at (w.complete x kx)) in
      let r = subst (IsList s l) (sym e) (w.lists l kl) in
      let (number, list, outside, index) = remove_refines s l x ys zs r in
      let cut = removal-Cut s l x ys zs r in
      let moved : Moved s (remove x s).1 x 0 = record {
        to = cut.outside;
        stay = cut.containers;
        values = cut.values;
        owners = cut.owners;
      } in
      let nx = not-end known s c w x l kx kl in
      (
        ys,
        zs,
        e,
        World-change known s c w l x 0 (remove x s).1 (ys ++ zs) kl (inr refl)
            (λ q k. not-end known s c w x q kx k) (w.real x kx) (λ q k n h. n (sym h ∙ at)) list
            (subst (λ i. Within i (list_end l ∷ (ys ++ zs))) (sym index)
              (removed_index (s.lists l).index x (list_end l) ys zs nx
                (subst (λ v. Within (s.lists l).index (list_end l ∷ v)) (sym e) (w.index l kl))))
            (λ r h.
              let n : r ≢ x = λ f. absurd (
                w.null (
                  subst known (sym h ∙ ap (λ y. ((remove x s).1.items y).container) f ∙ cut.outside)
                    kl)) in
              let before : (s.items r).container ≡ l = sym (cut.containers r n) ∙ h in
              Within-remove r x ys zs n (
                subst (Within r) (ap c before ∙ sym e)
                  (w.complete r (subst known (sym before) kl))))
            moved
            (λ r n1 n2 n3.
              cut.others r
                (last-off (list_end l) r ys n1
                  (λ q m. off r q n2 (subst (Within q) e (Within-left q ys (x ∷ zs) m))))
                n3
                (first-off (list_end l) r zs n1
                  (λ q m. off r q n2 (subst (Within q) e (Within-right q ys (x ∷ zs) (inr m))))))
            (λ q n. remove_others x q s (λ h. absurd (n (h ∙ at)))),
        moved,
        number,
      )
    where
      off : (r q : ℕ) → (s.items r).container ≢ l → Within q (c l) → r ≢ q
      off r q n m e = absurd (
          n (
            ap (λ y. (s.items y).container) e
            ∙ Held-Within s.items l q (c l) (w.lists l kl).held m))
