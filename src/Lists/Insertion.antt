-- ===== src/Lists/Insertion.antt =====
-- `vListInsert` puts an item behind those of the same or a smaller value.
use mathlib.Core.Path.{subst}
use freertos_in_rust.Prelude.{
  ℕ, suc, ◌≤◌, ◌<◌, ◌≡◌, refl, sym, ap, ◌∙◌, ◌≢◌, inl, inr, some, List, [], ◌∷◌, ◌++◌, append-nil,
  arith, ◌==◌, Bool-cases, length, word_mod, word_max,
}
use freertos_in_rust.Lists.{Store, list_end, find_place, insert_behind, insert, remove}
use freertos_in_rust.Lists.Segments.{
  Seg, Fresh, last, first, Seg-next, Seg-previous, Fresh-append, last-Fresh, first-Fresh,
}
use freertos_in_rust.Lists.Shape.{IsList, Put, insert_behind-Put, Put-IsList}
use freertos_in_rust.Lists.Removal.{remove_refines}
use freertos_in_rust.Lists.Ordered.{
  before, after, Ascending, before-after, all_before, find_place_lem, Ascending-kept,
  Ascending-insert,
}

module _ (l x : ℕ) (s : Store) where
  insert_last :
      (s.items x).item_value ≡ word_max
      → insert l x s ≡ some (insert_behind l x (s.items (list_end l)).previous s)
  unfolding insert
  insert_last e = ground arith

  insert_found :
      (a : ℕ)
      → (s.items x).item_value ≢ word_max
      → find_place (suc (s.lists l).number_of_items) s.items (list_end l) (s.items x).item_value
        ≡ some a
      → insert l x s ≡ some (insert_behind l x a s)
  unfolding insert
  insert_found a n e = ground arith

  pub behind_index : (a : ℕ) → ((insert_behind l x a s).lists l).index ≡ (s.lists l).index
  unfolding insert_behind
  behind_index a = ground arith

  pub behind-IsList :
      (ys zs : List ℕ)
      → IsList s l (ys ++ zs)
      → x ≢ list_end l
      → Fresh x (ys ++ zs)
      → (s.items x).item_value ≤ word_max
      → suc (length (ys ++ zs)) < word_mod
      → IsList (insert_behind l x (last (list_end l) ys) s) l (ys ++ x ∷ zs)
        × Put s.items
            (insert_behind l x (last (list_end l) ys) s).items
            l
            (last (list_end l) ys)
            x
            (first zs (list_end l))
  unfolding insert_behind
  behind-IsList ys zs r nx fx v room =
      let end = list_end l in
      let (fy, fz) = Fresh-append x ys zs fx in
      let next = Seg-next s.items end end ys zs r.ring in
      let put : Put s.items (insert_behind l x (last end ys) s).items l (last end ys) x
          (first zs end) =
        subst (Put s.items (insert_behind l x (last end ys) s).items l (last end ys) x) next (
          insert_behind-Put l x (last end ys) s (λ e. absurd (last-Fresh end x ys nx fy (sym e)))
            (λ e. absurd (first-Fresh end x zs nx fz (e ∙ next)))) in
      (Put-IsList s l x (insert_behind l x (last end ys) s).items ys zs r put nx fx v room, put)

-- Where the item comes to stand: behind the last item of its value or a smaller one.
pub insert_place :
    (l x : ℕ) (s : Store) (xs : List ℕ)
    → IsList s l xs
    → (s.items x).item_value ≤ word_max
    → insert l x s
      ≡ some (insert_behind l x (last (list_end l) (before s.items (s.items x).item_value xs)) s)
insert_place l x s xs r v = elim (Bool-cases ((s.items x).item_value == word_max)) [
  | inl greatest ↦
      let e : (s.items x).item_value ≡ word_max = ground arith in
      let all = all_before s.items l xs r.held in
      let same : before s.items (s.items x).item_value xs ≡ xs =
        ap (λ v. before s.items v xs) e ∙ all.0 in
      let previous : (s.items (list_end l)).previous ≡ last (list_end l) xs =
        Seg-previous s.items (list_end l) (list_end l) xs []
          (subst (λ ys. Seg s.items (list_end l) ys (list_end l)) (sym (append-nil xs)) r.ring) in
      insert_last l x s e
      ∙ ap (λ a. some (insert_behind l x a s)) (previous ∙ ap (last (list_end l)) (sym same))
  | inr smaller ↦
      insert_found l x s (last (list_end l) (before s.items (s.items x).item_value xs))
        (λ e. absurd (ground arith))
        (find_place_lem s.items (s.items x).item_value (list_end l)
          (suc (s.lists l).number_of_items) (list_end l) xs (omega (arith, r.count)) r.ring r.marker
          (ground arith))
]

-- `vListInsert` of an item into a list in ascending order that does not hold it, whose number of items does
-- not overflow, always returns. The list then holds the items from before in their order, with the new
-- one behind those of its value or a smaller one, and is in ascending order again. The item knows its list, and the list's index stays.
pub insert_refines :
    (l x : ℕ) (s : Store) (xs : List ℕ)
    → IsList s l xs
    → Ascending s.items xs
    → x ≢ list_end l
    → Fresh x xs
    → (s.items x).item_value ≤ word_max
    → suc (length xs) < word_mod
    → (s' : Store) × (insert l x s ≡ some s')
      × IsList s' l
          (before s.items (s.items x).item_value xs ++ x ∷ after s.items (s.items x).item_value xs)
      × Ascending s'.items
          (before s.items (s.items x).item_value xs ++ x ∷ after s.items (s.items x).item_value xs)
      × ((s'.items x).container ≡ l)
      × ((s'.lists l).index ≡ (s.lists l).index)
insert_refines l x s xs r asc nx fx v room =
    let value = (s.items x).item_value in
    let ys = before s.items value xs in
    let zs = after s.items value xs in
    let whole = sym (before-after s.items value xs) in
    let a = last (list_end l) ys in
    let (list, put) =
      behind-IsList l x s ys zs (subst (IsList s l) whole r) nx (subst (Fresh x) whole fx) v
        (subst (λ ws. suc (length ws) < word_mod) whole room) in
    (
      insert_behind l x a s,
      insert_place l x s xs r v,
      list,
      Ascending-kept s.items (insert_behind l x a s).items (ys ++ x ∷ zs) put.values
          (Ascending-insert s.items value x xs refl asc),
      put.inside,
      behind_index l x s a,
    )

-- Removing an item directly after its insertion leaves the list of before, and answers its length.
pub remove-insert :
    (l x : ℕ) (s : Store) (xs : List ℕ)
    → IsList s l xs
    → Ascending s.items xs
    → x ≢ list_end l
    → Fresh x xs
    → (s.items x).item_value ≤ word_max
    → suc (length xs) < word_mod
    → (s' : Store) × (insert l x s ≡ some s')
      × ((remove x s').0 ≡ length xs)
      × IsList (remove x s').1 l xs
remove-insert l x s xs r asc nx fx v room =
    let (s', done, list, _, _, _) = insert_refines l x s xs r asc nx fx v room in
    let value = (s.items x).item_value in
    let (number, rest, _, _) =
      remove_refines s' l x (before s.items value xs) (after s.items value xs) list in
    let same = before-after s.items value xs in
    (s', done, number ∙ ap length same, subst (IsList (remove x s').1 l) same rest)
