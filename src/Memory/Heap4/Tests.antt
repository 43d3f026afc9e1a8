-- ===== src/Memory/Heap4/Tests.antt =====
-- Runs of the heap, and what its theorems say of them.
use mathlib.Core.List.Perm
use freertos_in_rust.Prelude.{
  ℕ, ◌+◌, ◌-◌, ◌%◌, ◌≤◌, ◌≡◌, refl, ◌≢◌, ◌⊎◌, inl, inr, false, Option, none, some, [], ◌∷◌, arith,
  pow2,
}
use freertos_in_rust.Memory.Heap4.{
  byte_alignment, heap_struct_size, Statics, Heap, heap_init, find_before, link_block,
  insert_block_into_free_list, adjust_size, search, take_block, account, malloc_initialised, malloc,
  free,
}
use freertos_in_rust.Memory.Heap4.Tiles.{free_tile, used_tile, used_size, release}
use freertos_in_rust.Memory.Heap4.Shape.{IsHeap}
use freertos_in_rust.Memory.Heap4.Malloc.{allocate, Met, malloc-refines}
use freertos_in_rust.Memory.Heap4.Free.{free-refines}
use freertos_in_rust.Memory.Heap4.Init.{IsPlaced, heap_init-IsHeap}
use freertos_in_rust.Memory.Heap4.Runs.{
  Run, start, allocates, frees, Stands, Run-IsHeap, Run-all_freed, Run-ends,
}
use freertos_in_rust.Memory.Heap4.Blocks.{malloc-safe, malloc-free}
use freertos_in_rust.Memory.Heap4.Stats.{
  heap_reset_state, HeapStats, walk, get_heap_stats, get_heap_stats_lem,
}
use freertos_in_rust.Memory.Heap4.Alloc.{Layout, Store, alloc_layout, Results, alloc_layout_lem}

-- a misaligned region of 256 bytes
abbrev small_region : Statics
small_region = record { uc_heap = 0x2000_0004; x_start = 0x1000_0000; total_heap_size = 256 }

abbrev untouched : Heap
untouched = record {
  blocks = λ _. record { next_free_block = 0; block_size = 0 };
  end = 0;
  free_bytes_remaining = 0;
  minimum_ever_free_bytes_remaining = 0;
  number_of_successful_allocations = 0;
  number_of_successful_frees = 0;
}

small_region-IsPlaced : IsPlaced small_region
small_region-IsPlaced = record {
  placed = omega arith;
  room = omega arith;
  small = omega arith;
  fits = omega arith;
  apart = inl (omega arith);
  x_start_fits = omega arith;
}

abbrev ready : Heap
ready = heap_init small_region untouched

ready-IsHeap : IsHeap small_region 0x2000_0008 ready (free_tile 240 ∷ [])
ready-IsHeap = heap_init-IsHeap small_region untouched small_region-IsPlaced

abbrev pointer : Option (ℕ × Heap) → ℕ
pointer none = 0
pointer (some (p, h)) = p

abbrev after : Heap → Option (ℕ × Heap) → Heap
after h none = h
after h (some (p, h')) = h'

-- the free bytes, the number of free blocks and the size of the smallest
abbrev stats_of : Option HeapStats → ℕ × ℕ × ℕ
stats_of none = (0, 0, 0)
stats_of (some s) = (
  s.available_heap_space_in_bytes, s.number_of_free_blocks, s.size_of_smallest_free_block_in_bytes,
)

-- the heap with a block of 20 bytes
abbrev one_block : Heap
one_block = after ready (malloc small_region ready 20)

first_block : malloc small_region ready 20 ≡ some (0x2000_0010, one_block)
unfolding malloc malloc_initialised heap_init adjust_size search take_block account
first_block = refl

one_block-IsHeap : IsHeap small_region 0x2000_0008 one_block (used_tile 32 ∷ free_tile 208 ∷ [])
unfolding malloc malloc_initialised heap_init adjust_size search take_block account
one_block-IsHeap = record {
  list = refl;
  marker = refl;
  row = (refl, omega arith, (refl, omega arith, refl, refl));
  aligned = (refl, (refl, tt));
  lo_aligned = refl;
  low = omega arith;
  inside = omega arith;
  high = omega arith;
  span = omega arith;
  rounds = omega arith;
  outside = inl (omega arith);
  x_start_fits = omega arith;
  free_bytes_right = refl;
  least = omega arith;
}

abbrev two_blocks : Heap
two_blocks = after one_block (malloc small_region one_block 40)

second_block : malloc small_region one_block 40 ≡ some (0x2000_0030, two_blocks)
unfolding malloc malloc_initialised heap_init adjust_size search take_block account
second_block = refl

abbrev first_freed : Heap
first_freed = elim (free small_region one_block 0x2000_0010) [ none ↦ one_block | some h ↦ h ]

first_free_run : free small_region one_block 0x2000_0010 ≡ some first_freed
unfolding free insert_block_into_free_list find_before link_block malloc malloc_initialised
    heap_init adjust_size search take_block account
first_free_run = refl

malloc-refines_example :
    Met small_region 0x2000_0008 ready
      (malloc small_region ready 20)
      (allocate 20 0x2000_0008 (free_tile 240 ∷ []))
malloc-refines_example =
    malloc-refines small_region 0x2000_0008 ready (free_tile 240 ∷ []) ready-IsHeap 20

-- The second block stands behind the first.
malloc-safe_example :
    (0x2000_0030 % byte_alignment ≡ 0)
    × (0x2000_0008 + heap_struct_size ≤ 0x2000_0030)
    × (0x2000_0030 + 40 ≤ two_blocks.end)
    × ((c j : ℕ)
        → used_size c 0x2000_0008 (used_tile 32 ∷ free_tile 208 ∷ []) ≡ some j
        → (0x2000_0030 + 40 ≤ c) ⊎ (c + j + heap_struct_size ≤ 0x2000_0030))
malloc-safe_example =
    malloc-safe small_region 0x2000_0008 40 one_block (used_tile 32 ∷ free_tile 208 ∷ [])
      one_block-IsHeap 0x2000_0030 two_blocks second_block (λ e. absurd (omega arith))

malloc-free_example :
    (h : Heap) × (free small_region one_block 0x2000_0010 ≡ some h)
    × IsHeap small_region 0x2000_0008 h (free_tile 240 ∷ [])
    × (h.free_bytes_remaining ≡ ready.free_bytes_remaining)
malloc-free_example =
    malloc-free small_region 0x2000_0008 20 ready (free_tile 240 ∷ []) ready-IsHeap 0x2000_0010
      one_block first_block (λ e. absurd (omega arith))

free-refines_example :
    (h : Heap) × (free small_region one_block (0x2000_0008 + heap_struct_size) ≡ some h)
    × IsHeap small_region 0x2000_0008 h
        (release 0x2000_0008 0x2000_0008 (used_tile 32 ∷ free_tile 208 ∷ []))
    × (h.free_bytes_remaining ≡ one_block.free_bytes_remaining + 32)
free-refines_example =
    free-refines small_region 0x2000_0008 one_block (used_tile 32 ∷ free_tile 208 ∷ [])
      one_block-IsHeap 0x2000_0008 32 refl

one_allocated : Run small_region ready (0x2000_0010 ∷ []) one_block
one_allocated = allocates start 20 0x2000_0010 one_block first_block (λ e. absurd (omega arith))

Run-IsHeap_example : Stands small_region 0x2000_0008 (0x2000_0010 ∷ []) one_block
Run-IsHeap_example =
    Run-IsHeap small_region small_region-IsPlaced untouched (0x2000_0010 ∷ []) one_block
      one_allocated

Run-all_freed_example :
    IsHeap small_region 0x2000_0008 first_freed (free_tile (first_freed.end - 0x2000_0008) ∷ [])
    × (first_freed.free_bytes_remaining ≡ first_freed.end - 0x2000_0008)
Run-all_freed_example =
    Run-all_freed small_region small_region-IsPlaced untouched first_freed
      (frees one_allocated 0x2000_0010 [] (Perm.refl (0x2000_0010 ∷ [])) first_freed first_free_run)

get_heap_stats_lem_example :
    get_heap_stats small_region one_block
    ≡ some (record {
      available_heap_space_in_bytes = 208;
      size_of_largest_free_block_in_bytes = 208;
      size_of_smallest_free_block_in_bytes = 208;
      number_of_free_blocks = 1;
      minimum_ever_free_bytes_remaining = one_block.minimum_ever_free_bytes_remaining;
      number_of_successful_allocations = one_block.number_of_successful_allocations;
      number_of_successful_frees = one_block.number_of_successful_frees;
    })
get_heap_stats_lem_example =
    get_heap_stats_lem small_region 0x2000_0008 one_block (used_tile 32 ∷ free_tile 208 ∷ [])
      one_block-IsHeap

-- After a reset the walk still follows the old free list, and counts the end marker as a block.
stale_stats : stats_of (get_heap_stats small_region (heap_reset_state ready)) ≡ (0, 2, 0)
unfolding get_heap_stats walk heap_init
stale_stats = refl

abbrev wide : Layout
wide = record { size = 100; align = 64 }

abbrev wide_store : Store
wide_store = record { heap = ready; raws = λ _. 0 }

six : 64 ≡ pow2 6
unfolding pow2
six = refl

-- Memory aligned to 64 bytes.
alloc_layout_lem_example :
    Results small_region 0x2000_0008 wide
      (free_tile 240 ∷ [])
      (alloc_layout small_region false wide wide_store)
alloc_layout_lem_example =
    alloc_layout_lem small_region 0x2000_0008 wide wide_store (free_tile 240 ∷ []) ready-IsHeap 6
      six

Run-ends_example :
    (malloc small_region one_block 40 ≢ none) × (free small_region one_block 0x2000_0010 ≢ none)
Run-ends_example =
    Run-ends small_region small_region-IsPlaced untouched (0x2000_0010 ∷ []) one_block one_allocated
      40 0x2000_0010 [] (inr (Perm.refl (0x2000_0010 ∷ [])))
