-- ===== src/Lists/Members.antt =====
-- Which items a list holds, and that distinct addresses are not more than there are.
use mathlib.Core.Path.{subst}
use freertos_in_rust.Prelude.{
  ℕ, zero, suc, ◌≤◌, ◌<◌, ◌≡◌, refl, sym, ap, ◌∙◌, ◌≢◌, ◌⊎◌, inl, inr, List, [], ◌∷◌, ◌++◌, arith,
  ◌==◌, Bool-cases, length, word_mod,
}
use freertos_in_rust.Lists.Segments.{Fresh, Distinct, Distinct-remove}
use freertos_in_rust.Lists.Shape.{length-middle}

abbrev pub Within : ℕ → List ℕ → Type 0
Within x [] = ⊥
Within x (y ∷ ys) = (x ≡ y) ⊎ Within x ys

pub Within-middle : (x : ℕ) (ys zs : List ℕ) → Within x (ys ++ x ∷ zs)
Within-middle x [] zs = inl refl
Within-middle x (y ∷ ys) zs = inr (Within-middle x ys zs)

pub Within-insert : (r x : ℕ) (ys zs : List ℕ) → Within r (ys ++ zs) → Within r (ys ++ x ∷ zs)
Within-insert r x [] zs w = inr w
Within-insert r x (y ∷ ys) zs (inl e) = inl e
Within-insert r x (y ∷ ys) zs (inr w) = inr (Within-insert r x ys zs w)

pub Within-remove :
    (r x : ℕ) (ys zs : List ℕ) → r ≢ x → Within r (ys ++ x ∷ zs) → Within r (ys ++ zs)
Within-remove r x [] zs n (inl e) = absurd (n e)
Within-remove r x [] zs n (inr w) = w
Within-remove r x (y ∷ ys) zs n (inl e) = inl e
Within-remove r x (y ∷ ys) zs n (inr w) = inr (Within-remove r x ys zs n w)

-- where a member stands
pub Within-split :
    (x : ℕ) (xs : List ℕ) → Within x xs → (ys : List ℕ) × (zs : List ℕ) × (ys ++ x ∷ zs ≡ xs)
Within-split x [] w = absurd w
Within-split x (y ∷ xs) (inl e) = ([], xs, ap (λ r. r ∷ xs) e)
Within-split x (y ∷ xs) (inr w) =
    let (ys, zs, e) = Within-split x xs w in (y ∷ ys, zs, ap (λ r. y ∷ r) e)

-- `x` is not among items that all differ from it
pub Fresh-of : (x : ℕ) (xs : List ℕ) → ((r : ℕ) → Within r xs → x ≢ r) → Fresh x xs
Fresh-of x [] h = tt
Fresh-of x (y ∷ xs) h = (h y (inl refl), Fresh-of x xs (λ r w. h r (inr w)))

pub Fresh-Within : (x r : ℕ) (xs : List ℕ) → Fresh x xs → Within r xs → x ≢ r
Fresh-Within x r [] f w = absurd w
Fresh-Within x r (y ∷ xs) f (inl e) = λ h. absurd (f.0 (h ∙ e))
Fresh-Within x r (y ∷ xs) f (inr w) = Fresh-Within x r xs f.1 w

dec-Within : (x : ℕ) (xs : List ℕ) → Within x xs ⊎ Fresh x xs
dec-Within x [] = inr tt
dec-Within x (y ∷ xs) = elim (Bool-cases (x == y)) [
  | inl same ↦ inl (inl (ground arith))
  | inr other ↦ elim (dec-Within x xs) [
    | inl w ↦ inl (inr w)
    | inr f ↦ inr ((λ e. absurd (ground arith)), f)
  ]
]

Distinct-length :
    (n : ℕ) (xs : List ℕ) → Distinct xs → ((r : ℕ) → Within r xs → r < n) → length xs ≤ n
Distinct-length zero [] d h = omega arith
Distinct-length zero (x ∷ xs) d h = absurd (let none_below = h x (inl refl) in omega arith)
Distinct-length (suc n) xs d h = elim (dec-Within n xs) [
  | inl w ↦
      let (ys, zs, e) = Within-split n xs w in
      let (f, rest) = Distinct-remove n ys zs (subst Distinct (sym e) d) in
      let fewer = Distinct-length n (ys ++ zs) rest (λ r k.
        let below = h r (subst (Within r) e (Within-insert r n ys zs k)) in
        let other = Fresh-Within n r (ys ++ zs) f k in
        elim (Bool-cases (r == n)) [
          | inl same ↦ absurd (other (ground arith))
          | inr differs ↦ ground arith
        ]) in
      let longer = ap length (sym e) ∙ length-middle n ys zs in omega arith
  | inr f ↦
      let fewer = Distinct-length n xs d (λ r k.
        let below = h r k in
        let other = Fresh-Within n r xs f k in
        elim (Bool-cases (r == n)) [
          | inl same ↦ absurd (other (ground arith))
          | inr differs ↦ ground arith
        ]) in
      omega arith
]

-- Distinct addresses other than null are fewer than a word has values.
pub Distinct-fits :
    (xs : List ℕ)
    → Distinct xs
    → ((r : ℕ) → Within r xs → (0 < r) × (r < word_mod))
    → length xs < word_mod
Distinct-fits xs d h =
    let fewer =
      Distinct-length word_mod (0 ∷ xs)
        (Fresh-of 0 xs (λ r w e. absurd (let real = (h r w).0 in omega arith)), d) go in
    omega arith
  where
    go : (r : ℕ) → Within r (0 ∷ xs) → r < word_mod
    go r (inl e) = omega arith
    go r (inr w) = (h r w).1
