-- ===== src/Lists/Ordered.antt =====
-- `vListInsert` keeps a list in ascending order, and `vListInsertEnd` puts an item last in the rotation.
use mathlib.Core.Path.{subst}
use freertos_in_rust.Prelude.{
  ℕ, zero, suc, ◌≤◌, ◌<◌, ◌≡◌, refl, sym, inl, inr, true, some, List, [], ◌∷◌, ◌++◌, arith, leb,
  if◌then◌else◌, Bool-cases, length, word_max,
}
use freertos_in_rust.Lists.{Items, find_place}
use freertos_in_rust.Lists.Segments.{Seg, last}
use freertos_in_rust.Lists.Shape.{Held}

-- The items at the front with values up to `value`, and the ones from the first larger value on.
abbrev pub before : Items → ℕ → List ℕ → List ℕ
before m value [] = []
before m value (x ∷ xs) = if leb (m x).item_value value then x ∷ before m value xs else []

abbrev pub after : Items → ℕ → List ℕ → List ℕ
after m value [] = []
after m value (x ∷ xs) = if leb (m x).item_value value then after m value xs else x ∷ xs

abbrev pub Bounded : Items → ℕ → List ℕ → Type 0
Bounded m bound [] = Unit
Bounded m bound (x ∷ xs) = (bound ≤ (m x).item_value) × Bounded m bound xs

-- each value is at least the ones in front of it
abbrev pub Ascending : Items → List ℕ → Type 0
Ascending m [] = Unit
Ascending m (x ∷ xs) = Bounded m (m x).item_value xs × Ascending m xs

pub before-after :
    (m : Items) (value : ℕ) (xs : List ℕ) → before m value xs ++ after m value xs ≡ xs
before-after m value [] = refl
before-after m value (x ∷ xs) = elim (Bool-cases (leb (m x).item_value value)) [
  | inl small ↦ let rest = before-after m value xs in ground arith
  | inr large ↦ ground arith
]

pub all_before :
    (m : Items) (l : ℕ) (xs : List ℕ)
    → Held m l xs
    → (before m word_max xs ≡ xs) × (after m word_max xs ≡ [])
all_before m l [] h = (refl, refl)
all_before m l (x ∷ xs) h =
    let (b, a) = all_before m l xs h.2 in
    let small : leb (m x).item_value word_max ≡ true = ground (arith, h.1) in
    (ground arith, ground arith)

-- The loop stops behind the last item of a value up to the new one.
pub find_place_lem :
    (m : Items) (value q rounds p : ℕ) (xs : List ℕ)
    → length xs < rounds
    → Seg m p xs q
    → (m q).item_value ≡ word_max
    → value < word_max
    → find_place rounds m p value ≡ some (last p (before m value xs))
unfolding find_place
find_place_lem m value q zero p xs l t e v = absurd (omega arith)
find_place_lem m value q (suc rounds) p [] l t e v = ground arith
find_place_lem m value q (suc rounds) p (x ∷ xs) l t e v =
    elim (Bool-cases (leb (m x).item_value value)) [
      | inl small ↦
          let rest = find_place_lem m value q rounds x xs (omega arith) t.2 e v in
          let next : (m p).next ≡ x = t.0 in ground arith
      | inr large ↦ let next : (m p).next ≡ x = t.0 in ground arith
    ]

Bounded-le : (m : Items) (a b : ℕ) (xs : List ℕ) → a ≤ b → Bounded m b xs → Bounded m a xs
Bounded-le m a b [] l h = tt
Bounded-le m a b (x ∷ xs) l h = (omega (arith, h.0), Bounded-le m a b xs l h.1)

-- values are kept, so is the order
Bounded-kept :
    (m m' : Items) (b : ℕ) (xs : List ℕ)
    → ((r : ℕ) → (m' r).item_value ≡ (m r).item_value)
    → Bounded m b xs
    → Bounded m' b xs
Bounded-kept m m' b [] same h = tt
Bounded-kept m m' b (x ∷ xs) same h = (omega (arith, same x, h.0), Bounded-kept m m' b xs same h.1)

pub Ascending-kept :
    (m m' : Items) (xs : List ℕ)
    → ((r : ℕ) → (m' r).item_value ≡ (m r).item_value)
    → Ascending m xs
    → Ascending m' xs
Ascending-kept m m' [] same h = tt
Ascending-kept m m' (x ∷ xs) same h = (
  subst (λ b. Bounded m' b xs) (sym (same x)) (Bounded-kept m m' (m x).item_value xs same h.0),
  Ascending-kept m m' xs same h.1,
)

Bounded-insert :
    (m : Items) (b value x : ℕ) (xs : List ℕ)
    → (m x).item_value ≡ value
    → b ≤ value
    → Bounded m b xs
    → Bounded m b (before m value xs ++ x ∷ after m value xs)
Bounded-insert m b value x [] e l h = (omega arith, tt)
Bounded-insert m b value x (y ∷ xs) e l h = elim (Bool-cases (leb (m y).item_value value)) [
  | inl small ↦
      let rest = Bounded-insert m b value x xs e l h.1 in
      subst (Bounded m b) {x = y ∷ (before m value xs ++ x ∷ after m value xs)} (ground arith)
        (h.0, rest)
  | inr large ↦ subst (Bounded m b) {x = x ∷ y ∷ xs} (ground arith) (omega arith, h)
]

pub Ascending-insert :
    (m : Items) (value x : ℕ) (xs : List ℕ)
    → (m x).item_value ≡ value
    → Ascending m xs
    → Ascending m (before m value xs ++ x ∷ after m value xs)
Ascending-insert m value x [] e h = (tt, tt)
Ascending-insert m value x (y ∷ xs) e h = elim (Bool-cases (leb (m y).item_value value)) [
  | inl small ↦
      subst (Ascending m) {x = y ∷ (before m value xs ++ x ∷ after m value xs)} (ground arith) (
        Bounded-insert m (m y).item_value value x xs e (ground arith) h.0,
        Ascending-insert m value x xs e h.1,
      )
  | inr large ↦
      subst (Ascending m) {x = x ∷ y ∷ xs} (ground arith)
        ((ground arith, Bounded-le m (m x).item_value (m y).item_value xs (ground arith) h.0), h)
]
