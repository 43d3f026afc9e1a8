-- ===== src/Lists/World.antt =====
-- Several lists in one store: which item is in which list, and that a change of one list leaves the
-- others alone.
pub mod Inserting
pub mod Removing
use mathlib.Core.Path.{subst}
use freertos_in_rust.Prelude.{
  ℕ, zero, suc, ◌+◌, ◌-◌, ◌*◌, ◌/◌, ◌%◌, ◌^◌, ◌≤◌, ◌<◌, min, ◌≡◌, refl, sym, ap, ◌∙◌, ◌≢◌, ◌↔◌, ◌⊎◌,
  inl, inr, Bool, true, false, not, ◌&&◌, ◌||◌, Option, none, some, List, [], ◌∷◌, ◌++◌, append-nil,
  append_assoc, arith, ltb, leb, ◌==◌, if◌then◌else◌, is_none, ==_iff, Bool-cases, Option-cases,
  length, get_or, set, take, drop, length-append, length-take, take-length, length-drop, length-set,
  get_or-take, get_or-drop, eq_of_get_or, copy_at, length-copy_at, get_or-set, get_or-append,
  get_or-copy_at, append_inj, Outcome, ok, panic, ◌>>=◌, ◌>>◌, config_assert, word_mod, word_max,
  add_word, sub_word, test_bit, and_low, or_low, xor_low, test_bit-and, test_bit-or, test_bit-xor,
  pow2, pow2_pos, and_not, test_bit-and_not, eq_of_test_bit, bit_or-lt, bit_and-le, test_bit-zero,
  bit_and-seven, and_not-sub, bit_and-top, bit_or-top, shift, bit_and-mask, bit_and-lt_mask,
  max-pow2,
}
use freertos_in_rust.Lists.{
  ListItem, ListHead, Items, Store, list_end, set_next, set_previous, set_container, set_head,
  initialise, initialise_item, count_in, insert_end, find_place, insert_behind, insert, remove,
  get_owner_of_next_entry,
}
use freertos_in_rust.Lists.Segments.{
  Seg, Fresh, Distinct, last, first, Seg-next, Seg-previous, Fresh-append, append-Fresh, last-Fresh,
  Distinct-insert, Distinct-remove, first-Fresh,
}
use freertos_in_rust.Lists.Shape.{
  Held, IsList, Put, insert_behind-Put, insert_end-Put, length-middle, Put-IsList,
}
use freertos_in_rust.Lists.Members.{
  Within, Within-middle, Within-insert, Within-remove, Within-split, Fresh-of, Fresh-Within,
  Distinct-fits,
}

-- The lists with a property `known` hold the items `c`: an item is in just the list that it names as its
-- container. End markers name none, nor does any item name null.
pub record World (known : ℕ → Type 0) (s : Store) (c : ℕ → List ℕ) : Type 0 where
  pub lists : (l : ℕ) → known l → IsList s l (c l)
  pub index : (l : ℕ) → known l → Within (s.lists l).index (list_end l ∷ c l)
  pub ends : (l : ℕ) → known l → (s.items (list_end l)).container ≡ 0
  pub null : ¬ known 0
  pub complete : (x : ℕ) → known (s.items x).container → Within x (c (s.items x).container)
  pub real : (x : ℕ) → known (s.items x).container → (0 < x) × (x < word_mod)

-- `c` with the list `l` changed
abbrev pub with_list : (ℕ → List ℕ) → ℕ → List ℕ → ℕ → List ℕ
with_list c l xs q = if q == l then xs else c q

-- how the items of the store differ when `x` has gone to the list `l`, or to none
pub record Moved (s s' : Store) (x l : ℕ) : Type 0 where
  pub to : (s'.items x).container ≡ l
  pub stay : (r : ℕ) → r ≢ x → (s'.items r).container ≡ (s.items r).container
  pub values : (r : ℕ) → (s'.items r).item_value ≡ (s.items r).item_value
  pub owners : (r : ℕ) → (s'.items r).owner ≡ (s.items r).owner

pub Held-Within :
    (m : Items) (l x : ℕ) (xs : List ℕ) → Held m l xs → Within x xs → (m x).container ≡ l
Held-Within m l x [] h w = absurd w
Held-Within m l x (y ∷ xs) h (inl e) = ap (λ r. (m r).container) e ∙ h.0
Held-Within m l x (y ∷ xs) h (inr w) = Held-Within m l x xs h.2 w

Seg-same :
    (m m' : Items) (p q : ℕ) (xs : List ℕ)
    → m' p ≡ m p
    → m' q ≡ m q
    → ((r : ℕ) → Within r xs → m' r ≡ m r)
    → Seg m p xs q
    → Seg m' p xs q
Seg-same m m' p q [] ep eq h t = (ap (λ i. i.next) ep ∙ t.0, ap (λ i. i.previous) eq ∙ t.1)
Seg-same m m' p q (x ∷ xs) ep eq h t = (
  ap (λ i. i.next) ep ∙ t.0,
  ap (λ i. i.previous) (h x (inl refl)) ∙ t.1,
  Seg-same m m' x q xs (h x (inl refl)) eq (λ r w. h r (inr w)) t.2,
)

Held-same :
    (m m' : Items) (l : ℕ) (xs : List ℕ)
    → ((r : ℕ) → Within r xs → m' r ≡ m r)
    → Held m l xs
    → Held m' l xs
Held-same m m' l [] h k = tt
Held-same m m' l (x ∷ xs) h k = (
  ap (λ i. i.container) (h x (inl refl)) ∙ k.0,
  (let same = ap (λ i. i.item_value) (h x (inl refl)) in omega (arith, k.1)),
  Held-same m m' l xs (λ r w. h r (inr w)) k.2,
)

-- A list stays when its head, its end and its items do.
pub IsList-same :
    (s s' : Store) (l : ℕ) (xs : List ℕ)
    → s'.lists l ≡ s.lists l
    → s'.items (list_end l) ≡ s.items (list_end l)
    → ((r : ℕ) → Within r xs → s'.items r ≡ s.items r)
    → IsList s l xs
    → IsList s' l xs
IsList-same s s' l xs el ee h r = record {
  ring = Seg-same s.items s'.items (list_end l) (list_end l) xs ee ee h r.ring;
  distinct = r.distinct;
  marker = ap (λ i. i.item_value) ee ∙ r.marker;
  held = Held-same s.items s'.items l xs h r.held;
  count = ap (λ i. i.number_of_items) el ∙ r.count;
  fits = r.fits;
}

pub with_self : (c : ℕ → List ℕ) (l : ℕ) (xs : List ℕ) → with_list c l xs l ≡ xs
with_self c l xs = ground arith

pub with_other : (c : ℕ → List ℕ) (l : ℕ) (xs : List ℕ) (q : ℕ) → q ≢ l → with_list c l xs q ≡ c q
with_other c l xs q n = ground arith

-- A property of every list of the changed store holds if it does for the changed one and the others.
with-each :
    (known : ℕ → Type 0) (c : ℕ → List ℕ) (l : ℕ) (xs : List ℕ) (P : ℕ → List ℕ → Type 0)
    → P l xs
    → ((q : ℕ) → known q → q ≢ l → P q (c q))
    → (q : ℕ) → known q
    → P q (with_list c l xs q)
with-each known c l xs P here there q k = elim (Bool-cases (q == l)) [
  | inl same ↦
      let e : l ≡ q = ground arith in
      subst (λ y. P y (with_list c l xs y)) e (subst (P l) (sym (with_self c l xs)) here)
  | inr other ↦
      let n : q ≢ l = λ e. absurd (ground arith) in
      subst (P q) (sym (with_other c l xs q n)) (there q k n)
]

module _ (known : ℕ → Type 0) (s : Store) (c : ℕ → List ℕ) (w : World known s c) where
  -- an item in a list is no end marker
  pub not-end : (x l : ℕ) → known (s.items x).container → known l → x ≢ list_end l
  not-end x l kx kl e = w.null (subst known (ap (λ r. (s.items r).container) e ∙ w.ends l kl) kx)

  -- A change of the list `l` and the item `x` that goes into it or out of it.
  pub World-change :
      (l x l' : ℕ) (s' : Store) (xs : List ℕ)
      → known l
      → (l' ≡ l) ⊎ (l' ≡ 0)
      → ((q : ℕ) → known q → x ≢ list_end q)
      → (0 < x) × (x < word_mod)
      → ((q : ℕ) → known q → q ≢ l → (s.items x).container ≢ q)
      → IsList s' l xs
      → Within (s'.lists l).index (list_end l ∷ xs)
      → ((r : ℕ) → (s'.items r).container ≡ l → Within r xs)
      → Moved s s' x l'
      → ((r : ℕ) → r ≢ list_end l → (s.items r).container ≢ l → r ≢ x → s'.items r ≡ s.items r)
      → ((q : ℕ) → q ≢ l → s'.lists q ≡ s.lists q)
      → World known s' (with_list c l xs)
  World-change l x l' s' xs kl to item num out list index all m same heads = record {
    lists = with-each known c l xs (IsList s') list (λ q k n.
        IsList-same s s' q (c q) (heads q n)
          (same (list_end q) (λ e. absurd (n (omega arith)))
            (λ e. absurd (w.null (subst known (sym e ∙ w.ends q k) kl)))
            (λ e. absurd (item q k (sym e))))
          (λ r m.
            let at = Held-Within s.items q r (c q) (w.lists q k).held m in
            same r (not-end r l (subst known (sym at) k) kl) (λ e. absurd (n (sym at ∙ e)))
              (λ e. absurd (out q k n (ap (λ y. (s.items y).container) (sym e) ∙ at))))
          (w.lists q k));
    index =
        with-each known c l xs (λ q ys. Within (s'.lists q).index (list_end q ∷ ys)) index
          (λ q k n. subst (λ h. Within h.index (list_end q ∷ c q)) (sym (heads q n)) (w.index q k));
    ends = λ q k. m.stay (list_end q) (λ e. absurd (item q k (sym e))) ∙ w.ends q k;
    null = w.null;
    complete = λ r k.
        with-each known c l xs (λ q ys. (s'.items r).container ≡ q → Within r ys) (all r)
          (λ q k n e.
            let n' : r ≢ x =
              λ h. absurd (gone q k n (subst (λ y. (s'.items y).container ≡ q) h e)) in
            let before : (s.items r).container ≡ q = sym (m.stay r n') ∙ e in
            subst (λ y. Within r (c y)) before (w.complete r (subst known (sym before) k)))
          (s'.items r).container k refl;
    real = λ r k. elim (Bool-cases (r == x)) [
      | inl same ↦ subst (λ y. (0 < y) × (y < word_mod)) {x = x} (ground arith) num
      | inr other ↦ w.real r (subst known (m.stay r (λ e. absurd (ground arith))) k)
    ];
  }
    where
      gone : (q : ℕ) → known q → q ≢ l → (s'.items x).container ≢ q
      gone q k n e = elim to [
        | inl here ↦ n (sym e ∙ m.to ∙ here)
        | inr none_now ↦ w.null (subst known (sym e ∙ m.to ∙ none_now) k)
      ]
