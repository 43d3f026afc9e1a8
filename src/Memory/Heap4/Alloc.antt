-- ===== src/Memory/Heap4/Alloc.antt =====
-- The allocator that the heap gives to Rust: `prv_alloc_layout` and `prv_free_layout` of memory/heap_4.rs.
-- The pointers that it stores in front of the memory it gives out are a function from addresses; they
-- lie inside allocated blocks and take 4 bytes.
use Prim.Native.Nat.{bit_and, max}
use freertos_in_rust.Prelude.{
  ℕ, ◌+◌, ◌-◌, ◌*◌, ◌≤◌, ◌<◌, ◌≡◌, refl, ap, ◌∙◌, ◌≢◌, ◌⊎◌, inl, inr, Bool, false, ◌||◌, Option,
  none, some, List, arith, ltb, ◌==◌, if◌then◌else◌, Bool-cases, word_mod, pow2, and_not,
  and_not-sub, shift, bit_and-mask, bit_and-lt_mask, max-pow2,
}
use freertos_in_rust.Memory.Heap4.{byte_alignment, heap_struct_size, Statics, Heap, malloc, free}
use freertos_in_rust.Memory.Heap4.Tiles.{Tile, used_size}
use freertos_in_rust.Memory.Heap4.Shape.{IsHeap}
use freertos_in_rust.Memory.Heap4.Malloc.{allocate, Met, malloc-refines}
use freertos_in_rust.Memory.Heap4.Blocks.{malloc-safe, malloc-free}

abbrev pub global_alloc_header_size : ℕ
global_alloc_header_size = 4

-- `Layout`
pub record Layout : Type 0 where
  pub size : ℕ
  pub align : ℕ

-- the heap and the pointers stored in it
pub record Store : Type 0 where
  pub heap : Heap
  pub raws : ℕ → ℕ

abbrev pub write_raw : (ℕ → ℕ) → ℕ → ℕ → ℕ → ℕ
write_raw raws at raw q = if q == at then raw else raws q

-- the memory behind the stored pointer, which is at `raw`
unfoldable pub place_layout : Statics → ℕ → ℕ → Store → Option (ℕ × Store)
place_layout st alignment raw w =
    let unaligned = raw + global_alloc_header_size in
    let aligned = and_not (unaligned + (alignment - 1)) (alignment - 1) in
    let freed = free st w.heap raw in
    if raw == 0
    then some (0, w)
    else if ltb (unaligned + (alignment - 1)) word_mod
    then some
        (aligned, record w { raws = write_raw w.raws (aligned - global_alloc_header_size) raw })
    else elim freed [ none ↦ none | some h ↦ some (0, record w { heap = h }) ]

-- `prv_alloc_layout`; `inside_interrupt` is the port's `xPortIsInsideInterrupt`
unfoldable pub alloc_layout : Statics → Bool → Layout → Store → Option (ℕ × Store)
alloc_layout st inside_interrupt layout w =
    let alignment = max layout.align byte_alignment in
    let size = layout.size + global_alloc_header_size + (alignment - 1) in
    let allocated = malloc st w.heap size in
    if inside_interrupt
    then some (0, w)
    else if ltb size word_mod
    then elim allocated [
      | none ↦ none
      | some (raw, h) ↦ place_layout st alignment raw (record w { heap = h })
    ]
    else some (0, w)

-- `prv_free_layout`
unfoldable pub free_layout : Statics → Bool → ℕ → Store → Option Store
free_layout st inside_interrupt p w =
    let freed = free st w.heap (w.raws (p - global_alloc_header_size)) in
    if inside_interrupt || (p == 0)
    then some w
    else elim freed [ none ↦ none | some h ↦ some (record w { heap = h }) ]

-- How the memory at `p` and the store `w'` come from a heap of the row `tiles`: the memory is aligned,
-- lies in the region and overlaps no block in use, and giving it back gives a heap of the same row.
pub record Allocated (st : Statics) (lo : ℕ) (layout : Layout) (tiles : List Tile) (p : ℕ)
    (w' : Store) : Type 0 where
  pub multiple : ℕ
  pub aligned : p ≡ max layout.align byte_alignment * multiple
  pub low : lo + heap_struct_size + global_alloc_header_size ≤ p
  pub fits : p + layout.size ≤ w'.heap.end
  pub apart :
      (c j : ℕ)
      → used_size c lo tiles ≡ some j
      → (p + layout.size ≤ c) ⊎ (c + j + heap_struct_size + global_alloc_header_size ≤ p)
  pub again : Store
  pub freed : free_layout st false p w' ≡ some again
  pub heap : IsHeap st lo again.heap tiles

module _ (st : Statics) (alignment k raw : ℕ) (w : Store) (power : alignment ≡ pow2 k)
    (real : raw ≢ 0) (room : raw + global_alloc_header_size + (alignment - 1) < word_mod) where
  abbrev spot : ℕ
  spot = and_not (raw + global_alloc_header_size + (alignment - 1)) (alignment - 1)

  place_layout_lem :
      place_layout st alignment raw w
      ≡ some (spot, record w { raws = write_raw w.raws (spot - global_alloc_header_size) raw })
  unfolding place_layout
  place_layout_lem = ground arith

  spot-bounds :
      (spot ≡ alignment * shift k (raw + global_alloc_header_size + (alignment - 1)))
      × (raw + global_alloc_header_size ≤ spot)
      × (spot ≤ raw + global_alloc_header_size + (alignment - 1))
  spot-bounds =
      let x = raw + global_alloc_header_size + (alignment - 1) in
      let sum = bit_and-mask k x in
      let rest = bit_and-lt_mask k x in
      let sub = and_not-sub x (alignment - 1) room in
      let mask : bit_and x (alignment - 1) ≡ bit_and x (pow2 k - 1) =
        ap (λ y. bit_and x (y - 1)) power in
      let over : alignment * shift k x ≡ pow2 k * shift k x = ap (λ y. y * shift k x) power in
      (omega arith, omega arith, omega arith)

module _ (st : Statics) (layout : Layout) (w : Store) where
  abbrev request : ℕ
  request = layout.size + global_alloc_header_size + (max layout.align byte_alignment - 1)

  alloc_too_large : word_mod ≤ request → alloc_layout st false layout w ≡ some (0, w)
  unfolding alloc_layout
  alloc_too_large h = ground arith

  alloc_some :
      (raw : ℕ) (h : Heap)
      → request < word_mod
      → malloc st w.heap request ≡ some (raw, h)
      → alloc_layout st false layout w
        ≡ place_layout st (max layout.align byte_alignment) raw (record w { heap = h })
  unfolding alloc_layout
  alloc_some raw h fits e = ground arith

  place_null :
      (h : Heap)
      → place_layout st (max layout.align byte_alignment) 0 (record w { heap = h })
        ≡ some (0, record w { heap = h })
  unfolding place_layout
  place_null h = ground arith

  free_placed :
      (p raw : ℕ) (h' : Heap)
      → p ≢ 0
      → w.raws (p - global_alloc_header_size) ≡ raw
      → free st w.heap raw ≡ some h'
      → free_layout st false p w ≡ some (record w { heap = h' })
  unfolding free_layout
  free_placed p raw h' np e f = ground arith

-- What `prv_alloc_layout` comes to: null and a heap of the same row, or memory of the layout.
abbrev pub Results : Statics → ℕ → Layout → List Tile → Option (ℕ × Store) → Type 0
Results st lo layout tiles result =
    (p : ℕ) × (w' : Store) × (result ≡ some (p, w'))
    × (((p ≡ 0) × IsHeap st lo w'.heap tiles) ⊎ ((p ≢ 0) × Allocated st lo layout tiles p w'))

module _ (st : Statics) (lo : ℕ) (layout : Layout) (w : Store) (tiles : List Tile)
    (r : IsHeap st lo w.heap tiles) (j : ℕ) (power : layout.align ≡ pow2 j) where
  placed :
      (raw : ℕ) (h : Heap)
      → request st layout w < word_mod
      → malloc st w.heap (request st layout w) ≡ some (raw, h)
      → raw ≢ 0
      → h.end < word_mod
      → Results st lo layout tiles (alloc_layout st false layout w)
  placed raw h fits e real high =
      let alignment = max layout.align byte_alignment in
      let (k, power') = max-pow2 j in
      let same : alignment ≡ pow2 k = ap (λ x. max x byte_alignment) power ∙ power' in
      let (al, low, inside, apart) =
        malloc-safe st lo (request st layout w) w.heap tiles r raw h e real in
      let (again, freed, heap, _) =
        malloc-free st lo (request st layout w) w.heap tiles r raw h e real in
      let room : raw + global_alloc_header_size + (alignment - 1) < word_mod = omega arith in
      let base = record w { heap = h } in
      let (multiple, above, below) = spot-bounds st alignment k raw base same real room in
      let p = spot st alignment k raw base same real room in
      let w' = record base { raws = write_raw w.raws (p - global_alloc_header_size) raw } in
      let np : p ≢ 0 = λ z. absurd (omega arith) in
      (
        p,
        w',
        alloc_some st layout w raw h fits e
            ∙ place_layout_lem st alignment k raw base same real room,
        inr (
          np,
          record {
            multiple = shift k (raw + global_alloc_header_size + (alignment - 1));
            aligned = multiple;
            low = omega arith;
            fits = omega arith;
            apart = λ c j u. elim (apart c j u) [
              | inl before ↦ inl (omega arith)
              | inr behind ↦ inr (omega arith)
            ];
            again = record w' { heap = again };
            freed = free_placed st layout w' p raw again np (ground arith) freed;
            heap = heap;
          },
        ),
      )

  -- Outside of an interrupt, the allocator for Rust always returns for a layout whose alignment is a power
  -- of two. It gives null and a heap of the same row, or memory that is aligned as asked for, and to 8
  -- bytes at least, lies in the region and overlaps no block that was in use, and whose release gives a
  -- heap of the row from before.
  pub alloc_layout_lem : Results st lo layout tiles (alloc_layout st false layout w)
  alloc_layout_lem = elim (Bool-cases (ltb (request st layout w) word_mod)) [
    | inl fits ↦
        go (allocate (request st layout w) lo tiles)
          (malloc-refines st lo w.heap tiles r (request st layout w)) (ground arith)
    | inr over ↦ (0, w, alloc_too_large st layout w (ground arith), inl (refl, r))
  ]
    where
      go :
          (x : Option (ℕ × List Tile))
          → Met st lo w.heap (malloc st w.heap (request st layout w)) x
          → request st layout w < word_mod
          → Results st lo layout tiles (alloc_layout st false layout w)
      go none e fits = (
        0,
        w,
        alloc_some st layout w 0 w.heap fits e ∙ place_null st layout w w.heap,
        inl (refl, r),
      )
      go (some (b, l)) (h, e, k, _, _) fits =
          placed (b + heap_struct_size) h fits e (λ z. absurd (omega arith)) (omega (arith, k.high))
