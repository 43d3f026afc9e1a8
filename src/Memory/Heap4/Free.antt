-- ===== src/Memory/Heap4/Free.antt =====
-- `vPortFree` gives a used block back as the specification on rows says.
use Prim.Native.Nat.{bit_and}
use freertos_in_rust.Prelude.{
  ℕ, ◌+◌, ◌<◌, ◌≡◌, refl, ◌∙◌, inr, some, List, arith, word_mod, add_word, sub_word, and_not,
  and_not-sub, bit_and-top,
}
use freertos_in_rust.Memory.Heap4.{
  heap_struct_size, heap_block_allocated_bitmask, Blocks, write, Statics, Heap, free_block,
  find_before, link_block, insert_block_into_free_list, free,
}
use freertos_in_rust.Memory.Heap4.Tiles.{Tile, used_header, used_size, used_size-bounds, release}
use freertos_in_rust.Memory.Heap4.Link.{unmarked, header}
use freertos_in_rust.Memory.Heap4.Freeing.{insert_lem}
use freertos_in_rust.Memory.Heap4.Rows.{free_bytes-fit, length-fits}
use freertos_in_rust.Memory.Heap4.Given.{release_lem}
use freertos_in_rust.Memory.Heap4.Shape.{IsHeap}

-- the heap after the block, of size `k`, is back on the list with the headers `m`
abbrev given_back : Heap → Blocks → ℕ → Heap
given_back h m k = record h {
  blocks = m;
  free_bytes_remaining = add_word h.free_bytes_remaining k;
  number_of_successful_frees = add_word h.number_of_successful_frees 1;
}

module _ (st : Statics) (h : Heap) where
  free_inserts :
      (b k iterator : ℕ)
      → b + heap_struct_size < word_mod
      → k < heap_block_allocated_bitmask
      → h.blocks b ≡ used_header k
      → find_before st.total_heap_size (write h.blocks b (header 0 k)) st.x_start b ≡ some iterator
      → free st h (b + heap_struct_size)
        ≡ some (given_back h (link_block (write h.blocks b (header 0 k)) h.end iterator b) k)
  unfolding free insert_block_into_free_list
  free_inserts b k iterator fits small used found =
      let block : sub_word (b + heap_struct_size) heap_struct_size ≡ b = omega arith in
      let size : and_not (k + heap_block_allocated_bitmask) heap_block_allocated_bitmask ≡ k =
        ground (
          arith,
          and_not-sub (k + heap_block_allocated_bitmask) heap_block_allocated_bitmask,
          bit_and-top (k + heap_block_allocated_bitmask),
        ) in
      let marked_bit : bit_and (k + heap_block_allocated_bitmask) heap_block_allocated_bitmask
          ≡ heap_block_allocated_bitmask =
        ground (arith, bit_and-top (k + heap_block_allocated_bitmask)) in
      let header_freed : free_block (h.blocks b) ≡ header 0 k = ground arith in
      ground (arith, unmarked k small)

module _ (st : Statics) (lo : ℕ) (h : Heap) (tiles : List Tile) (r : IsHeap st lo h tiles) where
  -- `vPortFree` of a used block of the row that a heap stands for always returns, with a heap that stands
  -- for the row in which the block is free and joined with the free blocks before and behind it. The free
  -- bytes grow by the size of the block.
  pub free-refines :
      (b k : ℕ)
      → used_size b lo tiles ≡ some k
      → (h' : Heap) × (free st h (b + heap_struct_size) ≡ some h')
        × IsHeap st lo h' (release b lo tiles)
        × (h'.free_bytes_remaining ≡ h.free_bytes_remaining + k)
  free-refines b k e =
      let place = used_size-bounds h.blocks b k lo tiles r.row e in
      let (it, found, f) =
        insert_lem h.blocks lo h.end b k (omega (arith, r.high)) r.span st.total_heap_size
          st.x_start 0 lo tiles (omega (arith, length-fits h.blocks lo tiles r.row, r.rounds))
          (ground (arith, r.list, r.outside, place.0, place.1)) r.row e (omega arith)
          (inr (refl, ground (arith, r.outside)))
          (λ z. absurd (ground (arith, r.outside, r.inside))) (omega (arith, r.x_start_fits))
          (λ z. absurd (ground (arith, r.outside, place.0, place.1, place.2))) in
      let m = link_block (write h.blocks b (header 0 k)) h.end it b in
      let (list, row) = f.apart (λ z. absurd (ground (arith, r.outside, r.inside))) in
      let q = release_lem b k lo tiles e in
      let room = free_bytes-fit m lo (release b lo tiles) row in
      let bytes : add_word h.free_bytes_remaining k ≡ h.free_bytes_remaining + k =
        omega (arith, r.free_bytes_right, q.bytes, r.high) in
      (
        given_back h m k,
        free_inserts st h b k it (omega (arith, place.1, place.2, r.high))
            (omega (arith, place.0, place.1, r.span)) place.3 found,
        record {
          list = list;
          marker =
              f.frame h.end (λ z. absurd (ground (arith, r.outside, r.inside))) (inr (omega arith))
              ∙ ground (arith, place.1, place.2, r.marker);
          row = row;
          aligned = q.aligned r.aligned;
          lo_aligned = r.lo_aligned;
          low = r.low;
          inside = r.inside;
          high = r.high;
          span = r.span;
          rounds = r.rounds;
          outside = r.outside;
          x_start_fits = r.x_start_fits;
          free_bytes_right = omega (arith, bytes, q.bytes, r.free_bytes_right);
          least = omega (arith, r.least);
        },
        bytes,
      )
