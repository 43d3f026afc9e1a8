-- ===== src/Lists/Segments.antt =====
-- Segments of a doubly linked list.
use freertos_in_rust.Prelude.{ℕ, ◌≡◌, sym, ◌≢◌, List, [], ◌∷◌, ◌++◌}
use freertos_in_rust.Lists.{Items}

-- From `p` on the next items are `xs`, and behind them comes `q`; so do they backwards.
abbrev pub Seg : Items → ℕ → List ℕ → ℕ → Type 0
Seg m p [] q = ((m p).next ≡ q) × ((m q).previous ≡ p)
Seg m p (x ∷ xs) q = ((m p).next ≡ x) × ((m x).previous ≡ p) × Seg m x xs q

abbrev pub Fresh : ℕ → List ℕ → Type 0
Fresh a [] = Unit
Fresh a (x ∷ xs) = (a ≢ x) × Fresh a xs

abbrev pub Distinct : List ℕ → Type 0
Distinct [] = Unit
Distinct (x ∷ xs) = Fresh x xs × Distinct xs

-- the last of `p` and the items behind it
abbrev pub last : ℕ → List ℕ → ℕ
last p [] = p
last p (x ∷ xs) = last x xs

-- the first item, or the end
abbrev pub first : List ℕ → ℕ → ℕ
first [] q = q
first (x ∷ xs) q = x

pub Seg-next :
    (m : Items) (p q : ℕ) (ys zs : List ℕ)
    → Seg m p (ys ++ zs) q
    → (m (last p ys)).next ≡ first zs q
Seg-next m p q [] [] t = t.0
Seg-next m p q [] (z ∷ zs) t = t.0
Seg-next m p q (y ∷ ys) zs t = Seg-next m y q ys zs t.2

pub Seg-previous :
    (m : Items) (p q : ℕ) (ys zs : List ℕ)
    → Seg m p (ys ++ zs) q
    → (m (first zs q)).previous ≡ last p ys
Seg-previous m p q [] [] t = t.1
Seg-previous m p q [] (z ∷ zs) t = t.1
Seg-previous m p q (y ∷ ys) zs t = Seg-previous m y q ys zs t.2

pub Fresh-append : (a : ℕ) (ys zs : List ℕ) → Fresh a (ys ++ zs) → Fresh a ys × Fresh a zs
Fresh-append a [] zs h = (tt, h)
Fresh-append a (y ∷ ys) zs h = let (f, g) = Fresh-append a ys zs h.1 in ((h.0, f), g)

pub append-Fresh : (a : ℕ) (ys zs : List ℕ) → Fresh a ys → Fresh a zs → Fresh a (ys ++ zs)
append-Fresh a [] zs f g = g
append-Fresh a (y ∷ ys) zs f g = (f.0, append-Fresh a ys zs f.1 g)

pub last-Fresh : (p a : ℕ) (ys : List ℕ) → a ≢ p → Fresh a ys → last p ys ≢ a
last-Fresh p a [] n f = λ e. absurd (n (sym e))
last-Fresh p a (y ∷ ys) n f = last-Fresh y a ys f.0 f.1

-- An item of the list is put elsewhere by an insertion.
pub Distinct-insert :
    (a : ℕ) (ys zs : List ℕ) → Fresh a (ys ++ zs) → Distinct (ys ++ zs) → Distinct (ys ++ a ∷ zs)
Distinct-insert a [] zs f d = (f, d)
Distinct-insert a (y ∷ ys) zs f d =
    let (l, r) = Fresh-append y ys zs d.0 in
    (append-Fresh y ys (a ∷ zs) l (λ e. absurd (f.0 (sym e)), r), Distinct-insert a ys zs f.1 d.1)

pub Distinct-remove :
    (a : ℕ) (ys zs : List ℕ) → Distinct (ys ++ a ∷ zs) → Fresh a (ys ++ zs) × Distinct (ys ++ zs)
Distinct-remove a [] zs d = d
Distinct-remove a (y ∷ ys) zs d =
    let (l, r) = Fresh-append y ys (a ∷ zs) d.0 in
    let (f, rest) = Distinct-remove a ys zs d.1 in
    ((λ e. absurd (r.0 (sym e)), f), (append-Fresh y ys zs l r.1, rest))

-- The first item, or the end, is none of those that the items and the end are fresh to.
pub first-Fresh : (q a : ℕ) (zs : List ℕ) → a ≢ q → Fresh a zs → a ≢ first zs q
first-Fresh q a [] n f = n
first-Fresh q a (z ∷ zs) n f = f.0
