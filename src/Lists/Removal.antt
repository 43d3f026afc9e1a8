-- ===== src/Lists/Removal.antt =====
-- `uxListRemove` takes an item out of its list.
use mathlib.Core.Path.{subst}
use freertos_in_rust.Prelude.{
  ℕ, ◌≡◌, sym, ap, ◌∙◌, ◌≢◌, List, [], ◌∷◌, ◌++◌, arith, ◌==◌, if◌then◌else◌, length, sub_word,
}
use freertos_in_rust.Lists.{Items, Store, list_end, remove}
use freertos_in_rust.Lists.Segments.{
  Seg, Fresh, last, first, Fresh-append, last-Fresh, Distinct-remove, first-Fresh,
}
use freertos_in_rust.Lists.Splicing.{Unspliced, Seg-remove}
use freertos_in_rust.Lists.Shape.{Held, IsList, length-middle}

-- The items behind and in front of `x` are linked to each other, and `x` is in no list.
pub record Cut (m m' : Items) (a x b : ℕ) : Type 0 where
  pub links : Unspliced m m' a b
  pub values : (r : ℕ) → (m' r).item_value ≡ (m r).item_value
  pub containers : (r : ℕ) → r ≢ x → (m' r).container ≡ (m r).container
  pub outside : (m' x).container ≡ 0
  pub owners : (r : ℕ) → (m' r).owner ≡ (m r).owner
  pub others : (r : ℕ) → r ≢ a → r ≢ x → r ≢ b → m' r ≡ m r

pub remove-Cut :
    (x : ℕ) (s : Store)
    → x ≢ (s.items x).next
    → x ≢ (s.items x).previous
    → Cut s.items (remove x s).1.items (s.items x).previous x (s.items x).next
unfolding remove
remove-Cut x s nn np = record {
  links = record {
    a_next = ground arith;
    b_previous = ground arith;
    nexts = λ r e. ground arith;
    previouses = λ r e. ground arith;
  };
  values = λ r. ground arith;
  containers = λ r e. ground arith;
  outside = ground arith;
  owners = λ r. ground arith;
  others = λ r e f g. ground arith;
}

Held-Cut :
    (m m' : Items) (l a x b : ℕ) (ys zs : List ℕ)
    → Cut m m' a x b
    → Fresh x (ys ++ zs)
    → Held m l (ys ++ x ∷ zs)
    → Held m' l (ys ++ zs)
Held-Cut m m' l a x b [] zs p f h = kept zs f h.2
  where
    kept : (zs : List ℕ) → Fresh x zs → Held m l zs → Held m' l zs
    kept [] f h = tt
    kept (z ∷ zs) f h = (
      p.containers z (λ e. absurd (f.0 (sym e))) ∙ h.0,
      omega (arith, p.values z, h.1),
      kept zs f.1 h.2,
    )
Held-Cut m m' l a x b (y ∷ ys) zs p f h = (
  p.containers y (λ e. absurd (f.0 (sym e))) ∙ h.0,
  omega (arith, p.values y, h.1),
  Held-Cut m m' l a x b ys zs p f.1 h.2,
)

Held-container :
    (m : Items) (l x : ℕ) (ys zs : List ℕ) → Held m l (ys ++ x ∷ zs) → (m x).container ≡ l
Held-container m l x [] zs h = h.0
Held-container m l x (y ∷ ys) zs h = Held-container m l x ys zs h.2

-- the neighbours of an item of a segment
pub Seg-neighbours :
    (m : Items) (p q x : ℕ) (ys zs : List ℕ)
    → Seg m p (ys ++ x ∷ zs) q
    → ((m x).previous ≡ last p ys) × ((m x).next ≡ first zs q)
Seg-neighbours m p q x [] [] t = (t.1, t.2.0)
Seg-neighbours m p q x [] (z ∷ zs) t = (t.1, t.2.0)
Seg-neighbours m p q x (y ∷ ys) zs t = Seg-neighbours m y q x ys zs t.2

remove_heads :
    (x l : ℕ) (s : Store)
    → (s.items x).container ≡ l
    → x ≢ (s.items x).next
    → ((remove x s).0 ≡ sub_word (s.lists l).number_of_items 1)
      × (((remove x s).1.lists l).number_of_items ≡ sub_word (s.lists l).number_of_items 1)
      × (((remove x s).1.lists l).index
          ≡ (if (s.lists l).index == x then (s.items x).previous else (s.lists l).index))
unfolding remove
remove_heads x l s e n = (ground arith, ground arith, ground arith)

-- the neighbours of an item of a list, which are others than it
neighbours :
    (s : Store) (l x : ℕ) (ys zs : List ℕ)
    → IsList s l (ys ++ x ∷ zs)
    → ((s.items x).previous ≡ last (list_end l) ys)
      × ((s.items x).next ≡ first zs (list_end l))
      × (x ≢ (s.items x).previous)
      × (x ≢ (s.items x).next)
neighbours s l x ys zs r =
    let end = list_end l in
    let (previous, next) = Seg-neighbours s.items end end x ys zs r.ring in
    let (fresh, rest) = Distinct-remove x (end ∷ ys) zs r.distinct in
    let (fy, fz) = Fresh-append x ys zs fresh.1 in
    (
      previous,
      next,
      (λ e. absurd (last-Fresh end x ys fresh.0 fy (sym (e ∙ previous)))),
      λ e. absurd (first-Fresh end x zs fresh.0 fz (e ∙ next)),
    )

pub removal-Cut :
    (s : Store) (l x : ℕ) (ys zs : List ℕ)
    → IsList s l (ys ++ x ∷ zs)
    → Cut s.items (remove x s).1.items (last (list_end l) ys) x (first zs (list_end l))
removal-Cut s l x ys zs r =
    let (previous, next, np, nn) = neighbours s l x ys zs r in
    subst (λ a. Cut s.items (remove x s).1.items a x (first zs (list_end l))) previous
      (subst (Cut s.items (remove x s).1.items (s.items x).previous x) next (remove-Cut x s nn np))

-- `uxListRemove` of an item of a list leaves the list of the other items in their order, answers how many
-- these are, and sets the item's list to none. An index at the item moves to the one in front of it.
pub remove_refines :
    (s : Store) (l x : ℕ) (ys zs : List ℕ)
    → IsList s l (ys ++ x ∷ zs)
    → ((remove x s).0 ≡ length (ys ++ zs))
      × IsList (remove x s).1 l (ys ++ zs)
      × (((remove x s).1.items x).container ≡ 0)
      × (((remove x s).1.lists l).index
          ≡ (if (s.lists l).index == x then last (list_end l) ys else (s.lists l).index))
remove_refines s l x ys zs r =
    let end = list_end l in
    let (previous, next, np, nn) = neighbours s l x ys zs r in
    let (fresh, rest) = Distinct-remove x (end ∷ ys) zs r.distinct in
    let cut = removal-Cut s l x ys zs r in
    let (number, count, index) = remove_heads x l s (Held-container s.items l x ys zs r.held) nn in
    let longer = length-middle x ys zs in
    let less : sub_word (s.lists l).number_of_items 1 ≡ length (ys ++ zs) =
      omega (arith, r.count, r.fits) in
    (
      number ∙ less,
      record {
        ring =
            Seg-remove s.items (remove x s).1.items x end end ys zs cut.links r.ring r.distinct
              r.distinct.0;
        distinct = rest;
        marker = cut.values end ∙ r.marker;
        held =
            Held-Cut s.items (remove x s).1.items l (last end ys) x (first zs end) ys zs cut fresh.1
              r.held;
        count = count ∙ less;
        fits = omega (arith, r.fits);
      },
      cut.outside,
      index ∙ ap (λ a. if (s.lists l).index == x then a else (s.lists l).index) previous,
    )
