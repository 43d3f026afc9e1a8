-- ===== src/Memory/Heap4/Init.antt =====
-- The first request initialises the heap: the region without its misaligned ends is one free block.
use mathlib.Core.Path.{subst}
use Prim.Native.Nat.{bit_and}
use freertos_in_rust.Prelude.{
  ℕ, ◌+◌, ◌-◌, ◌*◌, ◌/◌, ◌≤◌, ◌<◌, ◌≡◌, refl, sym, ap, ◌∙◌, ◌≢◌, ◌⊎◌, inl, inr, [], ◌∷◌, arith,
  ◌==◌, Bool-cases, word_mod, add_word, sub_word, and_not, bit_and-seven, and_not-sub,
}
use freertos_in_rust.Memory.Heap4.{
  byte_alignment, byte_alignment_mask, heap_struct_size, heap_block_allocated_bitmask, write,
  Statics, Heap, heap_init, malloc,
}
use freertos_in_rust.Memory.Heap4.Tiles.{free_tile}
use freertos_in_rust.Memory.Heap4.Shape.{IsHeap}
use freertos_in_rust.Memory.Heap4.Malloc.{allocate, Met, malloc-refines}

-- The linker puts the region into the address space with `X_START` outside of it, and the region has
-- room for a block and the end marker, whatever its alignment.
pub record IsPlaced (st : Statics) : Type 0 where
  pub placed : 0 < st.uc_heap
  pub room : 24 ≤ st.total_heap_size
  pub small : st.total_heap_size ≤ heap_block_allocated_bitmask
  pub fits : st.uc_heap + st.total_heap_size ≤ word_mod
  pub apart : (st.x_start < st.uc_heap) ⊎ (st.uc_heap + st.total_heap_size ≤ st.x_start)
  pub x_start_fits : st.x_start < word_mod

-- the first and the last aligned address, the last with room for the end marker
abbrev pub heap_start : Statics → ℕ
heap_start st = (st.uc_heap + byte_alignment_mask) / byte_alignment * byte_alignment

abbrev pub heap_end : Statics → ℕ
heap_end st = (st.uc_heap + st.total_heap_size - heap_struct_size) / byte_alignment * byte_alignment

and_not-seven :
    (x : ℕ) → x < word_mod → and_not x byte_alignment_mask ≡ x / byte_alignment * byte_alignment
and_not-seven x h = omega (arith, and_not-sub x byte_alignment_mask h, bit_and-seven x)

module _ (st : Statics) (c : IsPlaced st) where
  end_eq :
      (start total : ℕ)
      → start + total ≡ st.uc_heap + st.total_heap_size
      → 24 ≤ start + total
      → and_not (sub_word (add_word start total) heap_struct_size) byte_alignment_mask ≡ heap_end st
  end_eq start total e l =
      let word : sub_word (add_word start total) heap_struct_size
          ≡ start + total - heap_struct_size =
        omega (arith, c.fits) in
      ap (λ x. and_not x byte_alignment_mask) word
      ∙ and_not-seven (start + total - heap_struct_size) (omega (arith, c.fits))
      ∙ ap (λ x. (x - heap_struct_size) / byte_alignment * byte_alignment) e

  size_eq : sub_word (heap_end st) (heap_start st) ≡ heap_end st - heap_start st
  size_eq = omega (arith, c.fits, c.room)

module _ (st : Statics) (h : Heap) (c : IsPlaced st) where
  heap_init_lem : heap_init st h ≡ record h {
    blocks =
        write
          (write
            (write h.blocks (heap_end st) (record { next_free_block = 0; block_size = 0 }))
            st.x_start
            (record { next_free_block = heap_start st; block_size = 0 }))
          (heap_start st)
          (record { next_free_block = heap_end st; block_size = heap_end st - heap_start st });
    end = heap_end st;
    free_bytes_remaining = heap_end st - heap_start st;
    minimum_ever_free_bytes_remaining = heap_end st - heap_start st;
  }
  unfolding heap_init
  heap_init_lem = elim (Bool-cases (bit_and st.uc_heap byte_alignment_mask == 0)) [
    | inl aligned ↦
        let start : st.uc_heap ≡ heap_start st = ground (arith, bit_and-seven st.uc_heap) in
        ground (
          arith,
          size_eq st c,
          end_eq st c st.uc_heap st.total_heap_size refl (omega (arith, c.room)),
        )
    | inr misaligned ↦
        let up : add_word st.uc_heap byte_alignment_mask ≡ st.uc_heap + byte_alignment_mask =
          omega (arith, c.fits, c.room) in
        let start : and_not (add_word st.uc_heap byte_alignment_mask) byte_alignment_mask
            ≡ heap_start st =
          ap (λ x. and_not x byte_alignment_mask) up
          ∙ and_not-seven (st.uc_heap + byte_alignment_mask) (omega (arith, c.fits, c.room)) in
        let total : sub_word st.total_heap_size (sub_word (heap_start st) st.uc_heap)
            ≡ st.uc_heap + st.total_heap_size - heap_start st =
          omega (arith, c.fits, c.room) in
        let last =
          end_eq st c (heap_start st) (st.uc_heap + st.total_heap_size - heap_start st)
            (omega (arith, c.room)) (omega (arith, c.room)) in
        ground (arith, size_eq st c)
  ]

  pub heap_init-IsHeap :
      IsHeap st (heap_start st) (heap_init st h) (free_tile (heap_end st - heap_start st) ∷ [])
  heap_init-IsHeap =
      subst (λ x. IsHeap st (heap_start st) x (free_tile (heap_end st - heap_start st) ∷ []))
        (sym heap_init_lem)
        (record {
          list = ground (arith, c.apart, c.room);
          marker = ground (arith, c.apart, c.room);
          row = (ground (arith, c.room), omega (arith, c.room), refl, omega (arith, c.room));
          aligned = (omega arith, tt);
          lo_aligned = omega arith;
          low = omega (arith, c.placed);
          inside = omega (arith, c.room);
          high = omega (arith, c.fits, c.room);
          span = omega (arith, c.small, c.room);
          rounds = omega (arith, c.room);
          outside = ground (arith, c.apart, c.room);
          x_start_fits = c.x_start_fits;
          free_bytes_right = omega arith;
          least = omega arith;
        })

  malloc_twice : (n : ℕ) → h.end ≡ 0 → malloc st (heap_init st h) n ≡ malloc st h n
  unfolding malloc
  malloc_twice n e =
      let r = heap_init-IsHeap in
      let inside : (heap_init st h).end ≢ 0 = λ z. absurd (omega (arith, r.inside)) in ground arith

  -- The first request is met from the whole region.
  pub malloc-first :
      (n : ℕ)
      → h.end ≡ 0
      → Met st
          (heap_start st)
          (heap_init st h)
          (malloc st h n)
          (allocate n (heap_start st) (free_tile (heap_end st - heap_start st) ∷ []))
  malloc-first n e =
      subst
        (λ x.
          Met st (heap_start st) (heap_init st h) x
            (allocate n (heap_start st) (free_tile (heap_end st - heap_start st) ∷ [])))
        (malloc_twice n e)
        (malloc-refines st (heap_start st) (heap_init st h)
          (free_tile (heap_end st - heap_start st) ∷ []) heap_init-IsHeap n)
