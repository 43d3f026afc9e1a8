-- ===== src/Prelude/Lists.antt =====
-- Lists measured and indexed by native numbers, under the library's names, and memory copies.
use Prim.Native.Nat.{ℕ, zero, suc, ◌+◌, ◌-◌, ◌<◌, ◌≤◌, min}
use native.Mathlib.Nat.{zero-add}
use mathlib.Core.Path.{◌≡◌, refl, sym, ap, ap₂, ◌∙◌}
use mathlib.Core.List.{List, [], ◌∷◌, ◌++◌}
use native.Mathlib.Omega.{arith}
use freertos_in_rust.Prelude.Tests.{ltb, leb, ◌==◌, if◌then◌else◌}

module _ {ℓ} {A : Type ℓ} where
  abbrev pub length : List A → ℕ
  length [] = 0
  length (x ∷ xs) = suc (length xs)

  abbrev pub get_or : List A → ℕ → A → A
  get_or [] i d = d
  get_or (x ∷ xs) zero d = x
  get_or (x ∷ xs) (suc i) d = get_or xs i d

  -- A write out of bounds changes nothing.
  abbrev pub set : List A → ℕ → A → List A
  set [] i v = []
  set (x ∷ xs) zero v = v ∷ xs
  set (x ∷ xs) (suc i) v = x ∷ set xs i v

  abbrev pub take : ℕ → List A → List A
  take zero xs = []
  take (suc n) [] = []
  take (suc n) (x ∷ xs) = x ∷ take n xs

  abbrev pub drop : ℕ → List A → List A
  drop zero xs = xs
  drop (suc n) [] = []
  drop (suc n) (x ∷ xs) = drop n xs

sub_sub_one : (j n : ℕ) → j - (n + 1) ≡ j - n - 1
sub_sub_one j n = omega arith

suc-add : (n j : ℕ) → suc n + j ≡ suc (n + j)
suc-add n j = omega arith

pred_suc : (k : ℕ) → k ≡ suc k - 1
pred_suc k = omega arith

module _ {ℓ} {A : Type ℓ} where
  pub length-append : (xs ys : List A) → length (xs ++ ys) ≡ length xs + length ys
  length-append [] ys = omega arith
  length-append (x ∷ xs) ys = omega (arith, length-append xs ys)

  pub length-take : (n : ℕ) (xs : List A) → length (take n xs) ≡ min n (length xs)
  length-take zero xs = omega arith
  length-take (suc n) [] = omega arith
  length-take (suc n) (x ∷ xs) = omega (arith, length-take n xs)

  pub take-length : (xs : List A) → take (length xs) xs ≡ xs
  take-length [] = refl
  take-length (x ∷ xs) = ap (λ r. x ∷ r) (take-length xs)

  pub length-drop : (n : ℕ) (xs : List A) → length (drop n xs) ≡ length xs - n
  length-drop zero xs = omega arith
  length-drop (suc n) [] = omega arith
  length-drop (suc n) (x ∷ xs) = omega (arith, length-drop n xs)

  pub length-set : (xs : List A) (i : ℕ) (v : A) → length (set xs i v) ≡ length xs
  length-set [] i v = refl
  length-set (x ∷ xs) zero v = refl
  length-set (x ∷ xs) (suc i) v = ap suc (length-set xs i v)

  pub get_or-take :
      (n : ℕ) (xs : List A) (j : ℕ) (d : A) → j < n → get_or (take n xs) j d ≡ get_or xs j d
  get_or-take zero xs j d h = absurd (omega arith)
  get_or-take (suc n) [] j d h = refl
  get_or-take (suc n) (x ∷ xs) zero d h = refl
  get_or-take (suc n) (x ∷ xs) (suc j) d h = get_or-take n xs j d (omega arith)

  pub get_or-drop :
      (n : ℕ) (xs : List A) (j : ℕ) (d : A) → get_or (drop n xs) j d ≡ get_or xs (n + j) d
  get_or-drop zero xs j d = ap (λ k. get_or xs k d) (sym (zero-add j))
  get_or-drop (suc n) [] j d = refl
  get_or-drop (suc n) (x ∷ xs) j d =
      get_or-drop n xs j d ∙ ap (λ k. get_or (x ∷ xs) k d) (sym (suc-add n j))

  -- Two lists of one length that agree at every index are equal.
  pub eq_of_get_or :
      (xs ys : List A) (d : A)
      → length xs ≡ length ys
      → ((j : ℕ) → j < length xs → get_or xs j d ≡ get_or ys j d)
      → xs ≡ ys
  eq_of_get_or [] [] d e h = refl
  eq_of_get_or [] (y ∷ ys) d e h = absurd (omega arith)
  eq_of_get_or (x ∷ xs) [] d e h = absurd (omega arith)
  eq_of_get_or (x ∷ xs) (y ∷ ys) d e h =
      ap₂ ◌∷◌ (h 0 (omega arith))
        (eq_of_get_or xs ys d (omega arith) (λ j lt. h (suc j) (omega arith)))

  -- `ptr::copy_nonoverlapping(src, dst.add(at), n)`
  abbrev pub copy_at : List A → ℕ → List A → ℕ → List A
  copy_at dst at src zero = dst
  copy_at dst at [] (suc n) = dst
  copy_at dst at (x ∷ src) (suc n) = copy_at (set dst at x) (at + 1) src n

  pub length-copy_at :
      (dst : List A) (at : ℕ) (src : List A) (n : ℕ) → length (copy_at dst at src n) ≡ length dst
  length-copy_at dst at src zero = refl
  length-copy_at dst at [] (suc n) = refl
  length-copy_at dst at (x ∷ src) (suc n) =
      length-copy_at (set dst at x) (at + 1) src n ∙ length-set dst at x

module _ {A : Type 0} where
  pub get_or-set :
      (xs : List A) (i j : ℕ) (v d : A)
      → i < length xs
      → get_or (set xs i v) j d ≡ (if i == j then v else get_or xs j d)
  get_or-set [] i j v d h = absurd (omega arith)
  get_or-set (x ∷ xs) zero zero v d h = refl
  get_or-set (x ∷ xs) zero (suc j) v d h = ground arith
  get_or-set (x ∷ xs) (suc i) zero v d h = ground arith
  get_or-set (x ∷ xs) (suc i) (suc j) v d h = ground (arith, get_or-set xs i j v d (omega arith))

  pub get_or-append :
      (xs ys : List A) (j : ℕ) (d : A)
      → get_or (xs ++ ys) j d
        ≡ (if ltb j (length xs) then get_or xs j d else get_or ys (j - length xs) d)
  get_or-append [] ys j d = ground arith
  get_or-append (x ∷ xs) ys zero d = ground arith
  get_or-append (x ∷ xs) ys (suc j) d = ground (arith, get_or-append xs ys j d)

  get_or-cons :
      (x : A) (xs : List A) (k : ℕ) (d : A)
      → get_or (x ∷ xs) k d ≡ (if k == 0 then x else get_or xs (k - 1) d)
  get_or-cons x xs zero d = refl
  get_or-cons x xs (suc k) d = ground (arith, ap (λ i. get_or xs i d) (pred_suc k))

  pub get_or-copy_at :
      (dst : List A) (at : ℕ) (src : List A) (n j : ℕ) (d : A)
      → at + n ≤ length dst
      → n ≤ length src
      → get_or (copy_at dst at src n) j d ≡ (
          if leb at j
          then if ltb j (at + n) then get_or src (j - at) d else get_or dst j d
          else get_or dst j d)
  get_or-copy_at dst at src zero j d h k = ground arith
  get_or-copy_at dst at [] (suc n) j d h k = absurd (omega arith)
  get_or-copy_at dst at (x ∷ src) (suc n) j d h k = ground (
    arith,
    get_or-copy_at (set dst at x) (at + 1) src n j d (omega (arith, length-set dst at x)),
    get_or-set dst at j x d,
    get_or-cons x src (j - at) d,
    sub_sub_one j at,
  )

pub append_inj {ℓ} :
    {A : Type ℓ} (xs ys : List A) {xs' ys' : List A}
    → length xs ≡ length ys
    → xs ++ xs' ≡ ys ++ ys'
    → (xs ≡ ys) × (xs' ≡ ys')
append_inj [] [] e h = (refl, h)
append_inj [] (y ∷ ys) e h = absurd (omega arith)
append_inj (x ∷ xs) [] e h = absurd (omega arith)
append_inj (x ∷ xs) (y ∷ ys) {xs' = xs'} {ys' = ys'} e h =
    let first : x ≡ y = cc h in
    let rest : xs ++ xs' ≡ ys ++ ys' = cc h in
    let below = append_inj xs ys (omega arith) rest in (ap₂ ◌∷◌ first below.0, below.1)
