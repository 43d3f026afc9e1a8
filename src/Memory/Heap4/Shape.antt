-- ===== src/Memory/Heap4/Shape.antt =====
-- How a heap stands for a row of blocks, and how `pvPortMalloc` rounds the size of a request.
use freertos_in_rust.Prelude.{
  ℕ, ◌+◌, ◌*◌, ◌/◌, ◌%◌, ◌≤◌, ◌<◌, ◌≡◌, refl, ◌⊎◌, List, arith, word_mod, bit_and-seven,
}
use freertos_in_rust.Memory.Heap4.{
  byte_alignment, byte_alignment_mask, heap_struct_size, heap_block_allocated_bitmask, Statics,
  Heap, adjust_size,
}
use freertos_in_rust.Memory.Heap4.Tiles.{Tile, first_free, Tiled}
use freertos_in_rust.Memory.Heap4.Link.{header}
use freertos_in_rust.Memory.Heap4.Rows.{free_bytes, AllAligned}

-- The heap `h` is the row `tiles` from `lo` on: the headers are those of the row, the start of the list
-- is outside of it, the addresses fit their words, and the counters are right.
pub record IsHeap (st : Statics) (lo : ℕ) (h : Heap) (tiles : List Tile) : Type 0 where
  pub list : h.blocks st.x_start ≡ header (first_free h.end lo tiles) 0
  pub marker : h.blocks h.end ≡ header 0 0
  pub row : Tiled h.blocks h.end lo tiles
  pub aligned : AllAligned tiles
  pub lo_aligned : lo % byte_alignment ≡ 0
  pub low : 0 < lo
  pub inside : lo < h.end
  pub high : h.end + heap_struct_size ≤ word_mod
  pub span : h.end < lo + heap_block_allocated_bitmask
  pub rounds : h.end < lo + st.total_heap_size
  pub outside : (st.x_start < lo) ⊎ (h.end < st.x_start)
  pub x_start_fits : st.x_start < word_mod
  pub free_bytes_right : h.free_bytes_remaining ≡ free_bytes tiles
  pub least : h.minimum_ever_free_bytes_remaining ≤ h.free_bytes_remaining

-- the size of a request with the header, rounded up to the alignment
abbrev pub rounded : ℕ → ℕ
rounded n = (n + heap_struct_size + byte_alignment_mask) / byte_alignment * byte_alignment

pub adjust_size_some : (n : ℕ) → 0 < n → rounded n < word_mod → adjust_size n ≡ rounded n
unfolding adjust_size
adjust_size_some n pos h = ground (arith, bit_and-seven (n + heap_struct_size))

pub adjust_size_over : (n : ℕ) → word_mod ≤ rounded n → adjust_size n ≡ 0
unfolding adjust_size
adjust_size_over n h = ground (arith, bit_and-seven (n + heap_struct_size))

pub adjust_size_zero : adjust_size 0 ≡ 0
unfolding adjust_size
adjust_size_zero = refl
