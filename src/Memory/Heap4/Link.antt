-- ===== src/Memory/Heap4/Link.antt =====
-- Putting a block on the free list behind a given one: the four cases of the merging.
use freertos_in_rust.Prelude.{
  ℕ, ◌+◌, ◌<◌, ◌≡◌, ◌≢◌, true, false, not, ◌&&◌, arith, ◌==◌, word_mod, add_word, and_not,
  and_not-sub, bit_and-top,
}
use freertos_in_rust.Memory.Heap4.{
  heap_block_allocated_bitmask, BlockLink, Blocks, write, get_block_size, link_block, meets,
}

-- Below the mark the size of a block is what it says.
pub unmarked :
    (x : ℕ) → x < heap_block_allocated_bitmask → and_not x heap_block_allocated_bitmask ≡ x
unmarked x h = ground (arith, and_not-sub x heap_block_allocated_bitmask, bit_and-top x)

abbrev pub header : ℕ → ℕ → BlockLink
header next size = record { next_free_block = next; block_size = size }

module _ (m : Blocks) (end p sp a n next : ℕ) (hp : m p ≡ header next sp) (ha : m a ≡ header 0 n)
    (small : sp + n < heap_block_allocated_bitmask) (p_fits : p + sp < word_mod)
    (a_fits : a + n < word_mod) where
  size_p : get_block_size (m p) ≡ sp
  size_p = ground (arith, unmarked sp)

  size_a : get_block_size (m a) ≡ n
  size_a = ground (arith, unmarked n)

  reaches : (add_word p (get_block_size (m p)) == a) ≡ (p + sp == a)
  reaches = ground (arith, size_p)

  -- The block before it takes it in.
  pub link_merged :
      p + sp ≡ a
      → ((a + n == next) && not (next == end)) ≡ false
      → link_block m end p a ≡ write m p (header next (sp + n))
  unfolding link_block
  link_merged e stop =
      let merged = write m p (header next (sp + n)) in
      let at_p : merged p ≡ header next (sp + n) = ground arith in
      ground (arith, size_p, size_a, reaches, unmarked (sp + n))

  pub link_apart :
      p + sp ≢ a
      → p ≢ a
      → ((a + n == next) && not (next == end)) ≡ false
      → link_block m end p a ≡ write (write m a (header next n)) p (header a sp)
  unfolding link_block
  link_apart e f stop = ground (arith, size_p, size_a, reaches)

  -- With the free block `next` behind the new one, that is taken in as well.
  module _ (next' t : ℕ) (hn : m next ≡ header next' t) (touch : a + n ≡ next) (inner : next ≢ end)
      (small_t : sp + n + t < heap_block_allocated_bitmask) where
    pub link_merged_in :
        p + sp ≡ a
        → p ≢ next
        → link_block m end p a
          ≡ write (write m p (header next (sp + n))) p (header next' (sp + n + t))
    unfolding link_block
    link_merged_in e f =
        let merged = write m p (header next (sp + n)) in
        let at_p : merged p ≡ header next (sp + n) = ground arith in
        let at_next : merged next ≡ header next' t = ground arith in
        let tests : meets merged end p next ≡ true = ground (arith, unmarked (sp + n)) in
        let sum : add_word (sp + n) (get_block_size (merged next)) ≡ sp + n + t =
          ground (arith, unmarked t) in
        ground (arith, size_p, size_a, reaches)

    pub link_apart_in :
        p + sp ≢ a
        → p ≢ a
        → link_block m end p a ≡ write (write m a (header next' (n + t))) p (header a sp)
    unfolding link_block
    link_apart_in e f = ground (arith, size_p, size_a, reaches, unmarked t)
