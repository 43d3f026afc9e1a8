-- ===== src/Memory/Heap4/Taking.antt =====
-- `pvPortMalloc` finds the first free block that is large enough, and splits it.
use mathlib.Core.Option
use freertos_in_rust.Prelude.{
  ℕ, ◌+◌, ◌-◌, ◌≤◌, ◌<◌, ◌≡◌, ◌≢◌, inl, inr, true, false, Option, none, some, List, [], ◌∷◌, arith,
  ltb, leb, if◌then◌else◌, Bool-cases, word_mod, add_word, sub_word, bit_or-top,
}
use freertos_in_rust.Memory.Heap4.{
  heap_minimum_block_size, heap_block_allocated_bitmask, Blocks, write, allocate_block, take_block,
}
use freertos_in_rust.Memory.Heap4.Tiles.{Tile, free_tile, used_tile, used_header}
use freertos_in_rust.Memory.Heap4.Link.{unmarked, header}

-- The specification of a request for a block of `size` bytes, header included: the first free block
-- that is large enough becomes used. What is left of it stays free if it is larger than the minimum,
-- and otherwise goes with it.
unfoldable pub reserve : ℕ → ℕ → List Tile → Option (ℕ × List Tile)
reserve size at [] = none
reserve size at (used_tile s ∷ tiles) =
    Option.map (λ r. (r.0, used_tile s ∷ r.1)) (reserve size (at + s) tiles)
reserve size at (free_tile s ∷ tiles) =
    if leb size s
    then some (
      at,
      if ltb heap_minimum_block_size (s - size)
          then used_tile size ∷ free_tile (s - size) ∷ tiles
          else used_tile s ∷ tiles,
    )
    else Option.map (λ r. (r.0, free_tile s ∷ r.1)) (reserve size (at + s) tiles)

-- the headers after a block is taken and marked
abbrev pub marked : Blocks → ℕ → ℕ → ℕ → Blocks
marked m previous block size =
    let taken = take_block m previous block size in
    write taken block (record (allocate_block (taken block)) { next_free_block = 0 })

module _ (m : Blocks) (p sp b s w next : ℕ) (hp : m p ≡ header b sp) (hb : m b ≡ header next s)
    (np : p ≢ b) (pos : 0 < w) (enough : w ≤ s) (small : s < heap_block_allocated_bitmask)
    (b_fits : b + s < word_mod) where
  pub taken_whole :
      ltb heap_minimum_block_size (s - w) ≡ false
      → marked m p b w ≡ write (write m p (header next sp)) b (used_header s)
  unfolding take_block
  taken_whole h = ground (arith, unmarked s, bit_or-top s)

  pub taken_split :
      ltb heap_minimum_block_size (s - w) ≡ true
      → p ≢ b + w
      → marked m p b w
        ≡ write
            (write
              (write
                (write (write m p (header next sp)) (b + w) (header next (s - w)))
                b
                (header next w))
              p
              (header (b + w) sp))
            b
            (used_header w)
  unfolding take_block
  taken_split h nr =
      let rest : add_word b w ≡ b + w = omega arith in
      let size : sub_word s w ≡ s - w = omega arith in ground (arith, unmarked s, bit_or-top w)

  pub taken_size : (take_block m p b w b).block_size ≤ s
  unfolding take_block
  taken_size =
      let rest : add_word b w ≡ b + w = omega arith in
      let size : sub_word s w ≡ s - w = omega arith in
      elim (Bool-cases (ltb heap_minimum_block_size (s - w))) [
        | inl split ↦ ground (arith, unmarked s)
        | inr whole ↦ ground (arith, unmarked s)
      ]
