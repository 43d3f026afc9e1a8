-- ===== src/Queue/Storage.antt =====
-- The storage of a queue as a row of slots, and the ring of items that a queue holds in it.
use freertos_in_rust.Prelude.{
  ℕ, zero, suc, ◌+◌, ◌-◌, ◌*◌, ◌≤◌, ◌<◌, ◌≡◌, refl, sym, ap, ◌∙◌, List, [], ◌∷◌, ◌++◌, arith, leb,
  ◌==◌, if◌then◌else◌, length, get_or, take, drop, length-take, length-drop, get_or-take,
  get_or-drop, eq_of_get_or, copy_at, length-copy_at, get_or-copy_at,
}
use mathlib.Core.Path.{ap₂}

-- the `i`th item of `size` bytes
unfoldable pub slot : List ℕ → ℕ → ℕ → List ℕ
slot storage size i = take size (drop (i * size) storage)

-- `i`, brought back into the storage of `cap` slots
abbrev pub wrap : ℕ → ℕ → ℕ
wrap cap i = if leb cap i then i - cap else i

-- the `n` items from slot `at` on, once round
unfoldable pub ring : List ℕ → ℕ → ℕ → ℕ → ℕ → List (List ℕ)
ring storage size cap at zero = []
ring storage size cap at (suc n) =
    slot storage size at ∷ ring storage size cap (wrap cap (at + 1)) n

slot_fits : (i cap size : ℕ) → i < cap → i * size + size ≤ cap * size
slot_fits i cap size h = grind arith

slots_apart : (i j size : ℕ) → i < j → i * size + size ≤ j * size
slots_apart i j size h = grind arith

module _ (storage : List ℕ) (size cap : ℕ) (whole : length storage ≡ cap * size) where
  pub length-slot : (i : ℕ) → i < cap → length (slot storage size i) ≡ size
  unfolding slot
  length-slot i h = omega (
    arith,
    length-take size (drop (i * size) storage),
    length-drop (i * size) storage,
    slot_fits i cap size h,
  )

  -- Item `w` overwritten: its bytes are the new ones, and those of the other items stay.
  slot-write-at :
      (i w k d : ℕ) (item : List ℕ)
      → i < cap
      → w < cap
      → length item ≡ size
      → k < size
      → get_or (slot (copy_at storage (w * size) item size) size i) k d
        ≡ (if i == w then get_or item k d else get_or (slot storage size i) k d)
  unfolding slot
  slot-write-at i w k d item hi hw l hk =
      let after = copy_at storage (w * size) item size in
      let low : (i < w) → i * size + size ≤ w * size = λ h. slots_apart i w size h in
      let high : (w < i) → w * size + size ≤ i * size = λ h. slots_apart w i size h in
      ground (
        arith,
        get_or-take size (drop (i * size) after) k d hk,
        get_or-drop (i * size) after k d,
        get_or-take size (drop (i * size) storage) k d hk,
        get_or-drop (i * size) storage k d,
        get_or-copy_at storage (w * size) item size (i * size + k) d
            (omega (arith, slot_fits w cap size hw)) (omega arith),
        low,
        high,
      )

module _ (storage : List ℕ) (size cap : ℕ) (whole : length storage ≡ cap * size) where
  -- Writing item `w` changes that item only.
  pub slot-write :
      (i w : ℕ) (item : List ℕ)
      → i < cap
      → w < cap
      → length item ≡ size
      → slot (copy_at storage (w * size) item size) size i
        ≡ (if i == w then item else slot storage size i)
  slot-write i w item hi hw l =
      let after = copy_at storage (w * size) item size in
      let new =
        length-slot after size cap (length-copy_at storage (w * size) item size ∙ whole) i hi in
      let old = length-slot storage size cap whole i hi in
      eq_of_get_or _ _ 0 (ground (arith)) λ k h.
        ground
          (arith, slot-write-at storage size cap whole i w k 0 item hi hw l (omega (arith, new)))

  -- An item outside of the ring may be written.
  pub ring-skip :
      (w d at n : ℕ) (item : List ℕ)
      → at < cap
      → w < cap
      → length item ≡ size
      → w ≡ wrap cap (at + d)
      → n ≤ d
      → d < cap
      → ring (copy_at storage (w * size) item size) size cap at n ≡ ring storage size cap at n
  unfolding ring
  ring-skip w d at zero item ha hw l e hn hd = refl
  ring-skip w d at (suc n) item ha hw l e hn hd =
      ap₂ ◌∷◌ (ground (arith, slot-write at w item ha hw l)) (
        ring-skip w (d - 1) (wrap cap (at + 1)) n item (ground arith) hw l (ground arith)
          (omega arith) (omega arith))

  -- the last item of a ring
  ring-last :
      (at n : ℕ)
      → at < cap
      → n < cap
      → ring storage size cap at (suc n)
        ≡ ring storage size cap at n ++ (slot storage size (wrap cap (at + n)) ∷ [])
  unfolding ring
  ring-last at zero ha hn = ap (λ i. slot storage size i ∷ []) (ground arith)
  ring-last at (suc n) ha hn =
      ap (λ r. slot storage size at ∷ r)
        (ring-last (wrap cap (at + 1)) n (ground arith) (omega arith)
          ∙ ap (λ i. ring storage size cap (wrap cap (at + 1)) n ++ (slot storage size i ∷ []))
              (ground arith))

module _ (storage : List ℕ) (size cap : ℕ) (whole : length storage ≡ cap * size) where
  -- Writing the item behind a ring that is not full puts it at the end.
  pub ring-back :
      (w at n : ℕ) (item : List ℕ)
      → at < cap
      → n < cap
      → length item ≡ size
      → w ≡ wrap cap (at + n)
      → ring (copy_at storage (w * size) item size) size cap at (suc n)
        ≡ ring storage size cap at n ++ (item ∷ [])
  ring-back w at n item ha hn l e =
      let after = copy_at storage (w * size) item size in
      let hw : w < cap = ground arith in
      ring-last after size cap (length-copy_at storage (w * size) item size ∙ whole) at n ha hn
      ∙ ap₂ (λ r s. r ++ (s ∷ []))
          (ring-skip storage size cap whole w n at n item ha hw l e (omega arith) hn)
          (ground (arith, slot-write storage size cap whole w w item hw hw l))

  -- Writing the item in front of it puts it at the start.
  pub ring-front :
      (w at n : ℕ) (item : List ℕ)
      → w < cap
      → n < cap
      → length item ≡ size
      → at ≡ wrap cap (w + 1)
      → ring (copy_at storage (w * size) item size) size cap w (suc n)
        ≡ item ∷ ring storage size cap at n
  unfolding ring
  ring-front w at n item hw hn l e =
      ap₂ ◌∷◌ (ground (arith, slot-write storage size cap whole w w item hw hw l)) (
        ap (λ i. ring (copy_at storage (w * size) item size) size cap i n) (sym e)
        ∙ ring-skip storage size cap whole w (cap - 1) at n item (ground arith) hw l (ground arith)
            (omega arith) (omega arith))
