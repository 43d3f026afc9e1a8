-- ===== src/Memory/Heap4/Malloc.antt =====
-- `pvPortMalloc` meets a request as the specification on rows says.
use mathlib.Core.Path.{subst}
use Prim.Native.Nat.{bit_or}
use freertos_in_rust.Prelude.{
  ℕ, ◌+◌, ◌%◌, ◌<◌, min, ◌≡◌, refl, sym, ap, ◌∙◌, ◌≢◌, inl, inr, Bool, true, false, ◌&&◌, Option,
  none, some, List, arith, ltb, leb, ◌==◌, if◌then◌else◌, Bool-cases, word_mod, add_word, sub_word,
  bit_and-top, bit_or-top,
}
use freertos_in_rust.Memory.Heap4.{
  byte_alignment, heap_struct_size, heap_block_allocated_bitmask, Blocks, write, Statics, Heap,
  block_size_is_valid, allocate_block, get_block_size, adjust_size, search, take_block, account,
  malloc_initialised, malloc,
}
use freertos_in_rust.Memory.Heap4.Tiles.{Tile, used_size-bounds}
use freertos_in_rust.Memory.Heap4.Link.{unmarked}
use freertos_in_rust.Memory.Heap4.Taking.{reserve, marked}
use freertos_in_rust.Memory.Heap4.Search.{Searched, search_lem}
use freertos_in_rust.Memory.Heap4.Passing.{Took}
use freertos_in_rust.Memory.Heap4.Rows.{
  free_bytes, free_bytes-fit, length-fits, Reserved, Reserves, reserve_lem,
}
use freertos_in_rust.Memory.Heap4.Shape.{
  IsHeap, rounded, adjust_size_some, adjust_size_over, adjust_size_zero,
}

-- The specification of a request for `n` bytes: the first free block of the rounded size or more.
unfoldable pub allocate : ℕ → ℕ → List Tile → Option (ℕ × List Tile)
allocate n at tiles = if n == 0 then none else reserve (rounded n) at tiles

-- The result of `pvPortMalloc` is the one of the specification: null and the same heap if there is no
-- such block, and otherwise the address behind its header and a heap of the new row.
abbrev pub Met : Statics → ℕ → Heap → Option (ℕ × Heap) → Option (ℕ × List Tile) → Type 0
Met st lo h result none = result ≡ some (0, h)
Met st lo h result (some (b, tiles)) =
    (h' : Heap) × (result ≡ some (b + heap_struct_size, h'))
    × IsHeap st lo h' tiles
    × (h'.number_of_successful_allocations ≡ add_word h.number_of_successful_allocations 1)
    × (h'.minimum_ever_free_bytes_remaining
        ≡ min h.minimum_ever_free_bytes_remaining h'.free_bytes_remaining)

-- the tests in front of the search
abbrev can_meet : Heap → ℕ → Bool
can_meet h n =
    block_size_is_valid (adjust_size n)
    && (ltb 0 (adjust_size n) && leb (adjust_size n) h.free_bytes_remaining)

module _ (st : Statics) (h : Heap) (n : ℕ) where
  malloc_fails : h.end ≢ 0 → can_meet h n ≡ false → malloc st h n ≡ some (0, h)
  unfolding malloc malloc_initialised
  malloc_fails e f = ground arith

  malloc_searches :
      (w previous block : ℕ)
      → h.end ≢ 0
      → can_meet h n ≡ true
      → adjust_size n ≡ w
      → search st.total_heap_size h.blocks st.x_start (h.blocks st.x_start).next_free_block w
        ≡ some (previous, block)
      → malloc st h n
        ≡ some (
            if block == h.end then (0, h) else (
              add_word (h.blocks previous).next_free_block heap_struct_size,
              account h (take_block h.blocks previous block w) block,
            ))
  unfolding malloc malloc_initialised
  malloc_searches w previous block e f a s = ground arith

module _ (st : Statics) (lo : ℕ) (h : Heap) (tiles : List Tile) (r : IsHeap st lo h tiles) where
  -- what the search finds, in the words of the specification
  found :
      (w : ℕ)
      → 0 < w
      → Searched h.blocks h.end w st.x_start 0 lo
          (search st.total_heap_size h.blocks st.x_start (h.blocks st.x_start).next_free_block w)
          (reserve w lo tiles)
  found w pos =
      subst
        (λ x.
          Searched h.blocks h.end w st.x_start 0 lo
            (search st.total_heap_size h.blocks st.x_start x w) (reserve w lo tiles))
        (sym (ap (λ b. b.next_free_block) r.list))
        (search_lem h.blocks lo h.end w (omega (arith, r.high)) pos r.span r.marker r.low
          st.total_heap_size st.x_start 0 lo tiles
          (omega (arith, length-fits h.blocks lo tiles r.row, r.rounds)) r.list r.row (omega arith)
          (ground (arith, r.outside)) (λ e. ground (arith, r.outside, r.inside)))

  can_meet-rounded : (n : ℕ) → 0 < n → can_meet h n ≡ true → adjust_size n ≡ rounded n
  can_meet-rounded n pos can = elim (Bool-cases (ltb (rounded n) word_mod)) [
    | inl fits ↦ adjust_size_some n pos (ground arith)
    | inr over ↦ absurd (ground (arith, adjust_size_over n))
  ]

  pub malloc-none :
      (n : ℕ) → 0 < n → reserve (rounded n) lo tiles ≡ none → malloc st h n ≡ some (0, h)
  malloc-none n pos e = elim (Bool-cases (can_meet h n)) [
    | inl can ↦
        let (prev, same) =
          subst
            (Searched h.blocks h.end (rounded n) st.x_start 0 lo (
              search st.total_heap_size h.blocks st.x_start (h.blocks st.x_start).next_free_block
                (rounded n)))
            e (found (rounded n) (omega arith)) in
        malloc_searches st h n (rounded n) prev h.end (λ z. absurd (omega (arith, r.inside))) can
          (can_meet-rounded n pos can) same
        ∙ ground arith
    | inr cannot ↦ malloc_fails st h n (λ z. absurd (omega (arith, r.inside))) cannot
  ]

  module _ (w b : ℕ) (tiles' : List Tile) (q : Reserved w lo tiles b tiles')
      (aligned : w % byte_alignment ≡ 0) (m : Blocks)
      (bound : (m b).block_size < heap_block_allocated_bitmask)
      (k : Took h.blocks
        (write m b (record (allocate_block (m b)) { next_free_block = 0 }))
        h.end
        st.x_start
        0
        lo
        tiles') where
    taken_block_size : get_block_size (m b) ≡ q.size
    taken_block_size =
        let (lo_b, fits, pos, same) =
          used_size-bounds (write m b (record (allocate_block (m b)) { next_free_block = 0 })) b
            q.size lo tiles' k.row q.taken in
        let marked_size : bit_or (m b).block_size heap_block_allocated_bitmask
            ≡ q.size + heap_block_allocated_bitmask =
          ground arith in
        unmarked (m b).block_size bound
        ∙ omega (arith, marked_size, bit_or-top (m b).block_size bound)

    account-IsHeap : IsHeap st lo (account h m b) tiles'
    unfolding account
    account-IsHeap =
        let room = free_bytes-fit h.blocks lo tiles r.row in
        let free : sub_word h.free_bytes_remaining (get_block_size (m b)) ≡ free_bytes tiles' =
          omega (arith, taken_block_size, q.bytes, r.free_bytes_right, r.high) in
        record {
          list = k.into;
          marker =
              k.frame h.end (λ e. ground (arith, r.outside, r.inside)) (inr (omega arith))
              ∙ r.marker;
          row = k.row;
          aligned = (q.aligned aligned r.lo_aligned r.aligned).1;
          lo_aligned = r.lo_aligned;
          low = r.low;
          inside = r.inside;
          high = r.high;
          span = r.span;
          rounds = r.rounds;
          outside = r.outside;
          x_start_fits = r.x_start_fits;
          free_bytes_right = free;
          least = ground (arith, r.least);
        }

  block_found :
      (prev b : ℕ) (h' : Heap)
      → b < h.end
      → (h.blocks prev).next_free_block ≡ b
      → b + heap_struct_size < word_mod
      → ◌≡◌ {A = ℕ × Heap}
          (if b == h.end
            then (0, h)
            else (add_word (h.blocks prev).next_free_block heap_struct_size, h'))
          (b + heap_struct_size, h')
  block_found prev b h' below leads fits = ground arith

  count_found :
      (m : Blocks) (b : ℕ)
      → (account h m b).number_of_successful_allocations
        ≡ add_word h.number_of_successful_allocations 1
  unfolding account
  count_found m b = refl

  mark_found :
      (m : Blocks) (b : ℕ)
      → (account h m b).minimum_ever_free_bytes_remaining
        ≡ min h.minimum_ever_free_bytes_remaining (account h m b).free_bytes_remaining
  unfolding account
  mark_found m b = ground arith

  pub malloc-some :
      (n b : ℕ) (tiles' : List Tile)
      → 0 < n
      → reserve (rounded n) lo tiles ≡ some (b, tiles')
      → Met st lo h (malloc st h n) (some (b, tiles'))
  malloc-some n b tiles' pos e =
      let w = rounded n in
      let q : Reserved w lo tiles b tiles' =
        subst (Reserves w lo tiles) e (reserve_lem h.blocks h.end w lo tiles (omega arith) r.row) in
      let room = free_bytes-fit h.blocks lo tiles r.row in
      let small : w < heap_block_allocated_bitmask = omega (arith, q.bytes, q.enough, r.span) in
      let a : adjust_size n ≡ w = adjust_size_some n pos (omega arith) in
      let can : can_meet h n ≡ true =
        ground (arith, bit_and-top w, q.bytes, q.enough, r.free_bytes_right) in
      let (prev, same, leads, below, size, took) =
        subst
          (Searched h.blocks h.end w st.x_start 0 lo
            (search st.total_heap_size h.blocks st.x_start (h.blocks st.x_start).next_free_block w))
          e (found w (omega arith)) in
      let place = used_size-bounds (marked h.blocks prev b w) b q.size lo tiles' took.row q.taken in
      let m = take_block h.blocks prev b w in
      (
        account h m b,
        malloc_searches st h n w prev b (λ z. absurd (omega (arith, r.inside))) can a same
            ∙ ap some (
                block_found prev b (account h m b) below leads
                  (omega (arith, place.1, q.enough, r.high))),
        account-IsHeap w b tiles' q (omega arith) m size took,
        count_found m b,
        mark_found m b,
      )

  -- `pvPortMalloc` on a heap that stands for a row of blocks always returns. It gives null and leaves the
  -- heap alone if `n` is 0 or no free block holds `n` bytes and a header, rounded up to a multiple of 8.
  -- Otherwise it gives the address behind the header of the first such block, and a heap that stands for
  -- the row with that block used and split off, whose count of free bytes is that of the row, whose count of
  -- allocations is one more, and whose least count of free bytes is the smaller one of that before and
  -- the new count.
  pub malloc-refines : (n : ℕ) → Met st lo h (malloc st h n) (allocate n lo tiles)
  unfolding allocate
  malloc-refines n = elim (Bool-cases (n == 0)) [
    | inl none_wanted ↦ subst (Met st lo h (malloc st h n)) {x = none} (ground arith) (
        malloc_fails st h n (λ z. absurd (omega (arith, r.inside)))
          (ground (arith, adjust_size_zero)))
    | inr wanted ↦
        subst (Met st lo h (malloc st h n)) {x = reserve (rounded n) lo tiles} (ground arith)
          (go (reserve (rounded n) lo tiles) refl (ground arith))
  ]
    where
      go :
          (x : Option (ℕ × List Tile))
          → reserve (rounded n) lo tiles ≡ x
          → 0 < n
          → Met st lo h (malloc st h n) x
      go none e pos = malloc-none n pos e
      go (some (b, l)) e pos = malloc-some n b l pos e
