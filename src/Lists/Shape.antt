-- ===== src/Lists/Shape.antt =====
-- What it means for a list to hold given items in a given order, and that the link changes of
-- kernel/list.rs are those of an insertion and a removal.
use freertos_in_rust.Prelude.{
  ℕ, suc, ◌≤◌, ◌<◌, ◌≡◌, refl, sym, ap, ◌∙◌, ◌≢◌, List, [], ◌∷◌, ◌++◌, arith, length, word_mod,
  word_max,
}
use freertos_in_rust.Lists.{Items, Store, list_end, count_in, insert_end, insert_behind}
use freertos_in_rust.Lists.Segments.{Seg, Fresh, Distinct, last, first, Distinct-insert}
use freertos_in_rust.Lists.Splicing.{Spliced, Seg-insert}

-- the items know the list they are in, and their values fit a word
abbrev pub Held : Items → ℕ → List ℕ → Type 0
Held m l [] = Unit
Held m l (x ∷ xs) = ((m x).container ≡ l) × ((m x).item_value ≤ word_max) × Held m l xs

-- The list `l` holds the items `xs` in this order.
pub record IsList (s : Store) (l : ℕ) (xs : List ℕ) : Type 0 where
  pub ring : Seg s.items (list_end l) xs (list_end l)
  pub distinct : Distinct (list_end l ∷ xs)
  pub marker : (s.items (list_end l)).item_value ≡ word_max
  pub held : Held s.items l xs
  pub count : (s.lists l).number_of_items ≡ length xs
  pub fits : length xs < word_mod

-- `m'` is `m` with the item `x` put into the list `l` between `a` and `b`.
pub record Put (m m' : Items) (l a x b : ℕ) : Type 0 where
  pub links : Spliced m m' a x b
  pub values : (r : ℕ) → (m' r).item_value ≡ (m r).item_value
  pub containers : (r : ℕ) → r ≢ x → (m' r).container ≡ (m r).container
  pub inside : (m' x).container ≡ l
  pub owners : (r : ℕ) → (m' r).owner ≡ (m r).owner
  pub others : (r : ℕ) → r ≢ a → r ≢ x → r ≢ b → m' r ≡ m r

pub insert_behind-Put :
    (l x a : ℕ) (s : Store)
    → x ≢ a
    → x ≢ (s.items a).next
    → Put s.items (insert_behind l x a s).items l a x (s.items a).next
unfolding insert_behind
insert_behind-Put l x a s na nb = record {
  links = record {
    x_next = ground arith;
    x_previous = ground arith;
    a_next = ground arith;
    b_previous = ground arith;
    nexts = λ r e f. ground arith;
    previouses = λ r e f. ground arith;
  };
  values = λ r. ground arith;
  containers = λ r e. ground arith;
  inside = ground arith;
  owners = λ r. ground arith;
  others = λ r e f g. ground arith;
}

pub insert_end-Put :
    (l x : ℕ) (s : Store)
    → x ≢ (s.lists l).index
    → x ≢ (s.items (s.lists l).index).previous
    → Put s.items
        (insert_end l x s).items
        l
        (s.items (s.lists l).index).previous
        x
        (s.lists l).index
unfolding insert_end
insert_end-Put l x s na nb = record {
  links = record {
    x_next = ground arith;
    x_previous = ground arith;
    a_next = ground arith;
    b_previous = ground arith;
    nexts = λ r e f. ground arith;
    previouses = λ r e f. ground arith;
  };
  values = λ r. ground arith;
  containers = λ r e. ground arith;
  inside = ground arith;
  owners = λ r. ground arith;
  others = λ r e f g. ground arith;
}

Held-Put :
    (m m' : Items) (l a x b : ℕ) (ys zs : List ℕ)
    → Put m m' l a x b
    → (m x).item_value ≤ word_max
    → Fresh x (ys ++ zs)
    → Held m l (ys ++ zs)
    → Held m' l (ys ++ x ∷ zs)
Held-Put m m' l a x b [] zs p v f h = (p.inside, omega (arith, p.values x), kept zs f h)
  where
    kept : (zs : List ℕ) → Fresh x zs → Held m l zs → Held m' l zs
    kept [] f h = tt
    kept (z ∷ zs) f h = (
      p.containers z (λ e. absurd (f.0 (sym e))) ∙ h.0,
      omega (arith, p.values z, h.1),
      kept zs f.1 h.2,
    )
Held-Put m m' l a x b (y ∷ ys) zs p v f h = (
  p.containers y (λ e. absurd (f.0 (sym e))) ∙ h.0,
  omega (arith, p.values y, h.1),
  Held-Put m m' l a x b ys zs p v f.1 h.2,
)

pub length-middle : (x : ℕ) (ys zs : List ℕ) → length (ys ++ x ∷ zs) ≡ suc (length (ys ++ zs))
length-middle x [] zs = refl
length-middle x (y ∷ ys) zs = ap suc (length-middle x ys zs)

-- An item that is in no place of the list is put between two neighbours.
pub Put-IsList :
    (s : Store) (l x : ℕ) (m' : Items) (ys zs : List ℕ)
    → IsList s l (ys ++ zs)
    → Put s.items m' l (last (list_end l) ys) x (first zs (list_end l))
    → x ≢ list_end l
    → Fresh x (ys ++ zs)
    → (s.items x).item_value ≤ word_max
    → suc (length (ys ++ zs)) < word_mod
    → IsList (record { items = m'; lists = count_in l s }) l (ys ++ x ∷ zs)
Put-IsList s l x m' ys zs r p nx fx v room =
    let longer = length-middle x ys zs in
    record {
      ring =
          Seg-insert s.items m' x (list_end l) (list_end l) ys zs p.links r.ring r.distinct
            r.distinct.0 nx fx nx;
      distinct = Distinct-insert x (list_end l ∷ ys) zs (nx, fx) r.distinct;
      marker = p.values (list_end l) ∙ r.marker;
      held =
          Held-Put s.items m' l (last (list_end l) ys) x (first zs (list_end l)) ys zs p v fx
            r.held;
      count = ground (arith, r.count);
      fits = omega arith;
    }
