-- ===== src/Memory/Heap4/Stats.antt =====
-- What the heap says of itself: the counters, and the walk along the free list of `vPortGetHeapStats`.
use Prim.Native.Nat.{max}
use freertos_in_rust.Prelude.{
  ℕ, zero, suc, ◌+◌, ◌≤◌, ◌<◌, min, ◌≡◌, true, false, Option, none, some, List, [], ◌∷◌, arith, ltb,
  ◌==◌, if◌then◌else◌, length, word_mod, word_max, add_word,
}
use freertos_in_rust.Memory.Heap4.{
  heap_block_allocated_bitmask, Blocks, Statics, Heap, get_block_size,
}
use freertos_in_rust.Memory.Heap4.Tiles.{
  Tile, free_tile, used_tile, first_free, Tiled, Tiled-le, first_free-bounds,
}
use freertos_in_rust.Memory.Heap4.Link.{unmarked}
use freertos_in_rust.Memory.Heap4.Rows.{free_bytes, length-fits}
use freertos_in_rust.Memory.Heap4.Shape.{IsHeap}

abbrev pub get_free_heap_size : Heap → ℕ
get_free_heap_size h = h.free_bytes_remaining

abbrev pub get_minimum_ever_free_heap_size : Heap → ℕ
get_minimum_ever_free_heap_size h = h.minimum_ever_free_bytes_remaining

-- `xPortResetHeapMinimumEverFreeHeapSize`
abbrev pub reset_heap_minimum_ever_free_heap_size : Heap → Heap
reset_heap_minimum_ever_free_heap_size h = record h {
  minimum_ever_free_bytes_remaining = h.free_bytes_remaining;
}

-- `vPortHeapResetState`
abbrev pub heap_reset_state : Heap → Heap
heap_reset_state h = record h {
  end = 0;
  free_bytes_remaining = 0;
  minimum_ever_free_bytes_remaining = 0;
  number_of_successful_allocations = 0;
  number_of_successful_frees = 0;
}

-- `HeapStats_t`
pub record HeapStats : Type 0 where
  pub available_heap_space_in_bytes : ℕ
  pub size_of_largest_free_block_in_bytes : ℕ
  pub size_of_smallest_free_block_in_bytes : ℕ
  pub number_of_free_blocks : ℕ
  pub minimum_ever_free_bytes_remaining : ℕ
  pub number_of_successful_allocations : ℕ
  pub number_of_successful_frees : ℕ

-- the number of free blocks, and the sizes of the largest and the smallest
abbrev pub Sizes : Type 0
Sizes = ℕ × ℕ × ℕ

abbrev pub count_block : ℕ → Sizes → Sizes
count_block size (blocks, max_size, min_size) = (
  add_word blocks 1,
  if ltb max_size size then size else max_size,
  if ltb size min_size then size else min_size,
)

-- the loop of `vPortGetHeapStats`
unfoldable pub walk : ℕ → Blocks → ℕ → ℕ → Sizes → Option Sizes
walk zero m end block sizes = none
walk (suc rounds) m end block sizes = elim (block == end) [
  | true ↦ some sizes
  | false ↦
      walk rounds m end (m block).next_free_block (count_block (get_block_size (m block)) sizes)
]

-- `vPortGetHeapStats`. The free list starts empty at null, where the heap is not initialised.
unfoldable pub get_heap_stats : Statics → Heap → Option HeapStats
get_heap_stats st h =
    let first = (h.blocks st.x_start).next_free_block in
    let walked = walk (suc st.total_heap_size) h.blocks h.end first (0, 0, word_max) in
    elim (if first == 0 then some (0, 0, word_max) else walked) [
      | none ↦ none
      | some (blocks, max_size, min_size) ↦ some (record {
        available_heap_space_in_bytes = h.free_bytes_remaining;
        size_of_largest_free_block_in_bytes = max_size;
        size_of_smallest_free_block_in_bytes = min_size;
        number_of_free_blocks = blocks;
        minimum_ever_free_bytes_remaining = h.minimum_ever_free_bytes_remaining;
        number_of_successful_allocations = h.number_of_successful_allocations;
        number_of_successful_frees = h.number_of_successful_frees;
      })
    ]

-- The specification of the walk: how many blocks of the row are free, and the sizes of the largest and
-- the smallest.
abbrev pub number_of_free : List Tile → ℕ
number_of_free [] = 0
number_of_free (free_tile s ∷ tiles) = suc (number_of_free tiles)
number_of_free (used_tile s ∷ tiles) = number_of_free tiles

abbrev pub largest_free : List Tile → ℕ
largest_free [] = 0
largest_free (free_tile s ∷ tiles) = max s (largest_free tiles)
largest_free (used_tile s ∷ tiles) = largest_free tiles

abbrev pub smallest_free : List Tile → ℕ
smallest_free [] = word_max
smallest_free (free_tile s ∷ tiles) = min s (smallest_free tiles)
smallest_free (used_tile s ∷ tiles) = smallest_free tiles

number_of_free-le : (tiles : List Tile) → number_of_free tiles ≤ length tiles
number_of_free-le [] = omega arith
number_of_free-le (free_tile s ∷ tiles) = omega (arith, number_of_free-le tiles)
number_of_free-le (used_tile s ∷ tiles) = omega (arith, number_of_free-le tiles)

smallest_free-le : (tiles : List Tile) → smallest_free tiles ≤ word_max
smallest_free-le [] = omega arith
smallest_free-le (free_tile s ∷ tiles) = omega (arith, smallest_free-le tiles)
smallest_free-le (used_tile s ∷ tiles) = smallest_free-le tiles

walk_lem :
    (m : Blocks) (lo end rounds at : ℕ) (tiles : List Tile) (blocks max_size min_size : ℕ)
    → end < lo + heap_block_allocated_bitmask
    → lo ≤ at
    → length tiles < rounds
    → blocks + length tiles < word_mod
    → min_size ≤ word_max
    → Tiled m end at tiles
    → walk rounds m end (first_free end at tiles) (blocks, max_size, min_size)
      ≡ some (
        blocks + number_of_free tiles,
        max max_size (largest_free tiles),
        min min_size (smallest_free tiles),
      )
unfolding walk
walk_lem m lo end zero at tiles blocks max_size min_size h low l fit least t = absurd (omega arith)
walk_lem m lo end (suc rounds) at [] blocks max_size min_size h low l fit least t =
    let stop : max max_size 0 ≡ max_size = omega arith in
    let least' : min min_size word_max ≡ min_size = omega arith in ground arith
walk_lem m lo end (suc rounds) at (used_tile s ∷ tiles) blocks max_size min_size h low l fit least
      t =
    walk_lem m lo end (suc rounds) (at + s) tiles blocks max_size min_size h (omega arith)
      (omega arith) (omega arith) least t.2
walk_lem m lo end (suc rounds) at (free_tile s ∷ tiles) blocks max_size min_size h low l fit least
      t =
    let fits = Tiled-le m (at + s) tiles t.3 in
    let size : get_block_size (m at) ≡ s = ground (arith, t.0, unmarked s) in
    let max_size' = if ltb max_size s then s else max_size in
    let min_size' = if ltb s min_size then s else min_size in
    let rest =
      walk_lem m lo end rounds (at + s) tiles (blocks + 1) max_size' min_size' h (omega arith)
        (omega arith) (omega arith) (ground arith) t.3 in
    let next : (m at).next_free_block ≡ first_free end (at + s) tiles = ground (arith, t.0) in
    let inner : (at == end) ≡ false = ground (arith, t.1) in
    let more : add_word blocks 1 ≡ blocks + 1 = omega arith in
    let largest : max max_size' (largest_free tiles) ≡ max max_size (max s (largest_free tiles)) =
      ground arith in
    let smallest : min min_size' (smallest_free tiles)
        ≡ min min_size (min s (smallest_free tiles)) =
      ground arith in
    let sum : blocks + 1 + number_of_free tiles ≡ blocks + suc (number_of_free tiles) =
      omega arith in
    ground arith

-- The statistics are those of the row that the heap stands for.
pub get_heap_stats_lem :
    (st : Statics) (lo : ℕ) (h : Heap) (tiles : List Tile)
    → IsHeap st lo h tiles
    → get_heap_stats st h
      ≡ some (record {
        available_heap_space_in_bytes = free_bytes tiles;
        size_of_largest_free_block_in_bytes = largest_free tiles;
        size_of_smallest_free_block_in_bytes = smallest_free tiles;
        number_of_free_blocks = number_of_free tiles;
        minimum_ever_free_bytes_remaining = h.minimum_ever_free_bytes_remaining;
        number_of_successful_allocations = h.number_of_successful_allocations;
        number_of_successful_frees = h.number_of_successful_frees;
      })
unfolding get_heap_stats
get_heap_stats_lem st lo h tiles r =
    let bounds = first_free-bounds h.blocks lo tiles r.row in
    let count = length-fits h.blocks lo tiles r.row in
    let first : (h.blocks st.x_start).next_free_block ≡ first_free h.end lo tiles =
      ground (arith, r.list) in
    let walked =
      walk_lem h.blocks lo h.end (suc st.total_heap_size) lo tiles 0 0 word_max r.span (omega arith)
        (omega (arith, r.rounds)) (omega (arith, r.high)) (omega arith) r.row in
    let started : ((h.blocks st.x_start).next_free_block == 0) ≡ false =
      ground (arith, bounds.0, r.low) in
    let smallest : min word_max (smallest_free tiles) ≡ smallest_free tiles =
      omega (arith, smallest_free-le tiles) in
    ground (arith, r.free_bytes_right)
