-- ===== src/Memory/Heap4.antt =====
-- memory/heap_4.rs: first fit over one region, with coalescing. Addresses are numbers, null is 0, and
-- the headers are a function from addresses, the free list's start `X_START` among them. A block of
-- `BlockLink` takes 8 bytes and `portBYTE_ALIGNMENT` is 8, as on the 32-bit ports. A loop has as many
-- rounds as the region has bytes, and gives `none` if they are used up.
pub mod Tiles
pub mod Link
pub mod Release
pub mod Freeing
pub mod Taking
pub mod Search
pub mod Rows
pub mod Given
pub mod Shape
pub mod Malloc
pub mod Free
pub mod Blocks
pub mod Runs
pub mod Passing
pub mod Init
pub mod Stats
pub mod Alloc
mod Tests
use Prim.Native.Nat.{bit_and, bit_or}
use freertos_in_rust.Prelude.{
  ℕ, zero, suc, ◌+◌, ◌-◌, Bool, true, false, not, ◌&&◌, Option, none, some, ltb, leb, ◌==◌,
  if◌then◌else◌, word_mod, add_word, sub_word, and_not,
}

-- `PORT_BYTE_ALIGNMENT_MASK`, `HEAP_STRUCT_SIZE`, `HEAP_MINIMUM_BLOCK_SIZE`,
-- `HEAP_BLOCK_ALLOCATED_BITMASK`
abbrev pub byte_alignment : ℕ
byte_alignment = 8

abbrev pub byte_alignment_mask : ℕ
byte_alignment_mask = 7

abbrev pub heap_struct_size : ℕ
heap_struct_size = 8

abbrev pub heap_minimum_block_size : ℕ
heap_minimum_block_size = 16

abbrev pub heap_block_allocated_bitmask : ℕ
heap_block_allocated_bitmask = 0x8000_0000

-- `BlockLink`
pub record BlockLink : Type 0 where
  pub next_free_block : ℕ
  pub block_size : ℕ

abbrev pub Blocks : Type 0
Blocks = ℕ → BlockLink

abbrev pub write : Blocks → ℕ → BlockLink → Blocks
write m p b q = if q == p then b else m q

-- where the linker puts `UC_HEAP` and `X_START`, and `configTOTAL_HEAP_SIZE`
pub record Statics : Type 0 where
  pub uc_heap : ℕ
  pub x_start : ℕ
  pub total_heap_size : ℕ

pub record Heap : Type 0 where
  pub blocks : Blocks
  pub end : ℕ
  pub free_bytes_remaining : ℕ
  pub minimum_ever_free_bytes_remaining : ℕ
  pub number_of_successful_allocations : ℕ
  pub number_of_successful_frees : ℕ

abbrev pub block_size_is_valid : ℕ → Bool
block_size_is_valid size = bit_and size heap_block_allocated_bitmask == 0

abbrev pub block_is_allocated : BlockLink → Bool
block_is_allocated b = not (bit_and b.block_size heap_block_allocated_bitmask == 0)

abbrev pub allocate_block : BlockLink → BlockLink
allocate_block b = record b { block_size = bit_or b.block_size heap_block_allocated_bitmask }

abbrev pub free_block : BlockLink → BlockLink
free_block b = record b { block_size = and_not b.block_size heap_block_allocated_bitmask }

abbrev pub get_block_size : BlockLink → ℕ
get_block_size b = and_not b.block_size heap_block_allocated_bitmask

-- `prv_heap_init`
unfoldable pub heap_init : Statics → Heap → Heap
heap_init st h =
    let misaligned = not (bit_and st.uc_heap byte_alignment_mask == 0) in
    let start =
      if misaligned
      then and_not (add_word st.uc_heap byte_alignment_mask) byte_alignment_mask
      else st.uc_heap in
    let total =
      if misaligned
      then sub_word st.total_heap_size (sub_word start st.uc_heap)
      else st.total_heap_size in
    let end = and_not (sub_word (add_word start total) heap_struct_size) byte_alignment_mask in
    let size = sub_word end start in
    let m = write h.blocks end (record { next_free_block = 0; block_size = 0 }) in
    let m' = write m st.x_start (record { next_free_block = start; block_size = 0 }) in
    record h {
      blocks = write m' start (record { next_free_block = end; block_size = size });
      end = end;
      free_bytes_remaining = size;
      minimum_ever_free_bytes_remaining = size;
    }

-- the loop of `prv_insert_block_into_free_list`
unfoldable pub find_before : ℕ → Blocks → ℕ → ℕ → Option ℕ
find_before zero m iterator block = none
find_before (suc rounds) m iterator block = elim (ltb (m iterator).next_free_block block) [
  | true ↦ find_before rounds m (m iterator).next_free_block block
  | false ↦ some iterator
]

-- whether the block behind `p` is the free block `next`, and not the end marker
abbrev meets : Blocks → ℕ → ℕ → ℕ → Bool
meets m end p next = (add_word p (get_block_size (m p)) == next) && not (next == end)

-- `p` takes in the free block `next`
abbrev take_in : Blocks → ℕ → ℕ → Blocks
take_in m p next = write m p (record {
  next_free_block = (m next).next_free_block;
  block_size = add_word (m p).block_size (get_block_size (m next));
})

-- the rest of `prv_insert_block_into_free_list`
unfoldable pub link_block : Blocks → ℕ → ℕ → ℕ → Blocks
link_block m end iterator block =
    let next = (m iterator).next_free_block in
    if add_word iterator (get_block_size (m iterator)) == block
    then (let merged = write m iterator (record (m iterator) {
      block_size = add_word (m iterator).block_size (get_block_size (m block));
    }) in
        if meets merged end iterator next then take_in merged iterator next else merged)
    else (let linked =
          if meets m end block next
          then take_in m block next
          else write m block (record (m block) { next_free_block = next }) in
        write linked iterator (record (linked iterator) { next_free_block = block }))

-- `prv_insert_block_into_free_list`
unfoldable pub insert_block_into_free_list : Statics → Blocks → ℕ → ℕ → Option Blocks
insert_block_into_free_list st m end block =
    elim (find_before st.total_heap_size m st.x_start block) [
      | none ↦ none
      | some iterator ↦ some (link_block m end iterator block)
    ]

-- the size of the block for a request: header and alignment added, 0 on overflow
unfoldable pub adjust_size : ℕ → ℕ
adjust_size wanted =
    let size = wanted + heap_struct_size in
    let over = bit_and size byte_alignment_mask in
    let aligned = if over == 0 then size else size + (byte_alignment - over) in
    if wanted == 0
    then 0
    else if ltb size word_mod
    then if ltb aligned word_mod then aligned else 0
    else 0

-- the loop of `pvPortMalloc`: the block found, or the end marker, and the block before it in the list
unfoldable pub search : ℕ → Blocks → ℕ → ℕ → ℕ → Option (ℕ × ℕ)
search zero m previous block wanted = none
search (suc rounds) m previous block wanted =
    elim (ltb (get_block_size (m block)) wanted && not ((m block).next_free_block == 0)) [
      | true ↦ search rounds m block (m block).next_free_block wanted
      | false ↦ some (previous, block)
    ]

-- The block is taken off the list, and what is left of it put there if that is not too small.
unfoldable pub take_block : Blocks → ℕ → ℕ → ℕ → Blocks
take_block m previous block wanted =
    let after = (m block).next_free_block in
    let size = get_block_size (m block) in
    let removed = write m previous (record (m previous) { next_free_block = after }) in
    if ltb heap_minimum_block_size (sub_word size wanted)
    then (let rest = add_word block wanted in
        let split =
          write removed rest
            (record { next_free_block = after; block_size = sub_word size wanted }) in
        let shrunk = write split block (record (split block) { block_size = wanted }) in
        write shrunk previous (record (shrunk previous) { next_free_block = rest }))
    else removed

-- the statistics, and the mark on the block
unfoldable pub account : Heap → Blocks → ℕ → Heap
account h m block =
    let free = sub_word h.free_bytes_remaining (get_block_size (m block)) in
    record h {
      blocks = write m block (record (allocate_block (m block)) { next_free_block = 0 });
      free_bytes_remaining = free;
      minimum_ever_free_bytes_remaining =
          if ltb free h.minimum_ever_free_bytes_remaining
          then free
          else h.minimum_ever_free_bytes_remaining;
      number_of_successful_allocations = add_word h.number_of_successful_allocations 1;
    }

-- `pvPortMalloc` of an initialised heap: the pointer, or null, and the heap
unfoldable pub malloc_initialised : Statics → Heap → ℕ → Option (ℕ × Heap)
malloc_initialised st h wanted =
    let size = adjust_size wanted in
    let first = (h.blocks st.x_start).next_free_block in
    if block_size_is_valid size && (ltb 0 size && leb size h.free_bytes_remaining)
    then elim (search st.total_heap_size h.blocks st.x_start first size) [
      | none ↦ none
      | some (previous, block) ↦ some (
          if block == h.end then (0, h) else (
            add_word (h.blocks previous).next_free_block heap_struct_size,
            account h (take_block h.blocks previous block size) block,
          ))
    ]
    else some (0, h)

-- `pvPortMalloc`
unfoldable pub malloc : Statics → Heap → ℕ → Option (ℕ × Heap)
malloc st h wanted = malloc_initialised st (if h.end == 0 then heap_init st h else h) wanted

-- `vPortFree` in release builds, where its `debug_assert!`s are not compiled in
unfoldable pub free : Statics → Heap → ℕ → Option Heap
free st h p =
    let block = sub_word p heap_struct_size in
    if not (p == 0)
      && (block_is_allocated (h.blocks block) && ((h.blocks block).next_free_block == 0))
    then (let freed = write h.blocks block (free_block (h.blocks block)) in
        elim (insert_block_into_free_list st freed h.end block) [
          | none ↦ none
          | some m ↦ some (record h {
            blocks = m;
            free_bytes_remaining = add_word h.free_bytes_remaining (get_block_size (freed block));
            number_of_successful_frees = add_word h.number_of_successful_frees 1;
          })
        ])
    else some h
