-- ===== src/Memory/Heap4/Blocks.antt =====
-- What a client of the heap relies on: its blocks do not overlap, and are given back whole.
use mathlib.Core.Path.{subst}
use freertos_in_rust.Prelude.{
  ℕ, ◌+◌, ◌%◌, ◌≤◌, ◌≡◌, refl, sym, ap, ◌∙◌, ◌≢◌, ◌⊎◌, inl, inr, Bool, true, false, Option, none,
  some, List, [], ◌∷◌, arith, ◌==◌, if◌then◌else◌, Bool-cases,
}
use freertos_in_rust.Memory.Heap4.{
  byte_alignment, heap_struct_size, Blocks, Statics, Heap, malloc, free,
}
use freertos_in_rust.Memory.Heap4.Tiles.{
  Tile, free_tile, used_tile, Tiled, used_size, used_size-bounds,
}
use freertos_in_rust.Memory.Heap4.Taking.{reserve}
use freertos_in_rust.Memory.Heap4.Rows.{Reserved, Reserves, reserve_lem}
use freertos_in_rust.Memory.Heap4.Shape.{IsHeap, rounded}
use freertos_in_rust.Memory.Heap4.Malloc.{allocate, Met, malloc-refines}
use freertos_in_rust.Memory.Heap4.Free.{free-refines}

-- Two used blocks do not overlap.
used_apart :
    (m : Blocks) (end b k c j at : ℕ) (tiles : List Tile)
    → Tiled m end at tiles
    → used_size b at tiles ≡ some k
    → used_size c at tiles ≡ some j
    → c ≢ b
    → (b + k ≤ c) ⊎ (c + j ≤ b)
used_apart m end b k c j at [] t e f ne = absurd (ground arith)
used_apart m end b k c j at (free_tile s ∷ tiles) t e f ne =
    used_apart m end b k c j (at + s) tiles t.3 e f ne
used_apart m end b k c j at (used_tile s ∷ tiles) t e f ne = elim (Bool-cases (at == b)) [
  | inl first ↦ inl (ground (arith, used_size-bounds m c j (at + s) tiles t.2))
  | inr later ↦ elim (Bool-cases (at == c)) [
    | inl first ↦ inr (ground (arith, used_size-bounds m b k (at + s) tiles t.2))
    | inr last ↦ used_apart m end b k c j (at + s) tiles t.2 (ground arith) (ground arith) ne
  ]
]

-- The block that `pvPortMalloc` returned, in the words of the rows.
pub record Given (st : Statics) (lo n : ℕ) (h : Heap) (tiles : List Tile) (p : ℕ) (h' : Heap)
    : Type 0 where
  pub block : ℕ
  pub row : List Tile
  pub pointer : p ≡ block + heap_struct_size
  pub reserved : Reserved (rounded n) lo tiles block row
  pub heap : IsHeap st lo h' row

module _ (st : Statics) (lo n : ℕ) (h : Heap) (tiles : List Tile) (r : IsHeap st lo h tiles) where
  pub given :
      (p : ℕ) (h' : Heap) → malloc st h n ≡ some (p, h') → p ≢ 0 → Given st lo n h tiles p h'
  unfolding allocate
  given p h' e np =
      go (n == 0) refl (reserve (rounded n) lo tiles) refl (malloc-refines st lo h tiles r n)
    where
      go :
          (z : Bool)
          → (n == 0) ≡ z
          → (x : Option (ℕ × List Tile)) → reserve (rounded n) lo tiles ≡ x
          → Met st lo h (malloc st h n) (if z then none else x)
          → Given st lo n h tiles p h'
      go true _ x _ k = absurd (ground arith)
      go false _ none _ k = absurd (ground arith)
      go false _ (some (b, l)) q (h1, same, heap, count, _) =
          let both : (p ≡ b + heap_struct_size) × (h1 ≡ h') = ground arith in
          record {
            block = b;
            row = l;
            pointer = both.0;
            reserved =
                subst (Reserves (rounded n) lo tiles) q
                  (reserve_lem h.blocks h.end (rounded n) lo tiles (omega arith) r.row);
            heap = subst (λ x. IsHeap st lo x l) both.1 heap;
          }

  -- A pointer that `pvPortMalloc` returns and that is not null: the block of `n` bytes lies in the region, is aligned, and overlaps no block that is in use.
  pub malloc-safe :
      (p : ℕ) (h' : Heap)
      → malloc st h n ≡ some (p, h')
      → p ≢ 0
      → (p % byte_alignment ≡ 0)
        × (lo + heap_struct_size ≤ p)
        × (p + n ≤ h'.end)
        × ((c j : ℕ) → used_size c lo tiles ≡ some j → (p + n ≤ c) ⊎ (c + j + heap_struct_size ≤ p))
  malloc-safe p h' e np =
      let g = given p h' e np in
      let q = g.reserved in
      let here = used_size-bounds h'.blocks g.block q.size lo g.row g.heap.row q.taken in
      let (al, _) = q.aligned (omega arith) r.lo_aligned r.aligned in
      (
        omega (arith, g.pointer, al),
        omega (arith, g.pointer, q.behind),
        omega (arith, g.pointer, here.1, q.enough),
        λ c j u.
            let (ne, kept) = q.kept c j u in
            elim (used_apart h'.blocks h'.end g.block q.size c j lo g.row g.heap.row q.taken kept
              ne) [
                | inl before ↦ inl (omega (arith, g.pointer, q.enough))
                | inr behind ↦ inr (omega (arith, g.pointer))
              ],
      )

  -- Freeing a block directly after its allocation gives a heap of the row from before the allocation,
  -- with as many free bytes.
  pub malloc-free :
      (p : ℕ) (h' : Heap)
      → malloc st h n ≡ some (p, h')
      → p ≢ 0
      → (h'' : Heap) × (free st h' p ≡ some h'')
        × IsHeap st lo h'' tiles
        × (h''.free_bytes_remaining ≡ h.free_bytes_remaining)
  malloc-free p h' e np =
      let g = given p h' e np in
      let q = g.reserved in
      let (h'', same, heap, bytes) = free-refines st lo h' g.row g.heap g.block q.size q.taken in
      let heap' : IsHeap st lo h'' tiles = subst (IsHeap st lo h'') q.back heap in
      (
        h'',
        ap (free st h') g.pointer ∙ same,
        heap',
        heap'.free_bytes_right ∙ sym r.free_bytes_right,
      )
