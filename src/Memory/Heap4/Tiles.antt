-- ===== src/Memory/Heap4/Tiles.antt =====
-- The region of the heap as a row of blocks without gaps, free and used, and the free list that
-- threads the free ones.
use freertos_in_rust.Prelude.{
  ℕ, ◌+◌, ◌≤◌, ◌<◌, ◌≡◌, ◌∙◌, inl, inr, Bool, true, false, Option, none, some, List, [], ◌∷◌, arith,
  ◌==◌, if◌then◌else◌, Bool-cases,
}
use freertos_in_rust.Memory.Heap4.{heap_block_allocated_bitmask, BlockLink, Blocks}

pub data Tile : Type 0 where
  free_tile used_tile : ℕ → Tile

-- whether the row starts with a free block
abbrev pub starts_free : List Tile → Bool
starts_free [] = false
starts_free (free_tile s ∷ tiles) = true
starts_free (used_tile s ∷ tiles) = false

-- the address of the first free block of the row that starts at `at`, or the end marker
abbrev pub first_free : ℕ → ℕ → List Tile → ℕ
first_free end at [] = end
first_free end at (free_tile s ∷ tiles) = at
first_free end at (used_tile s ∷ tiles) = first_free end (at + s) tiles

abbrev pub used_header : ℕ → BlockLink
used_header s = record { next_free_block = 0; block_size = s + heap_block_allocated_bitmask }

-- From `at` to the end marker the headers are those of the row: every free block leads to the next
-- one, and no two free blocks touch.
abbrev pub Tiled : Blocks → ℕ → ℕ → List Tile → Type 0
Tiled m end at [] = at ≡ end
Tiled m end at (free_tile s ∷ tiles) =
    (m at ≡ record { next_free_block = first_free end (at + s) tiles; block_size = s })
    × (0 < s)
    × (starts_free tiles ≡ false)
    × Tiled m end (at + s) tiles
Tiled m end at (used_tile s ∷ tiles) = (m at ≡ used_header s) × (0 < s) × Tiled m end (at + s) tiles

pub Tiled-le : (m : Blocks) {end : ℕ} (at : ℕ) (tiles : List Tile) → Tiled m end at tiles → at ≤ end
Tiled-le m at [] t = omega arith
Tiled-le m at (free_tile s ∷ tiles) t = omega (arith, Tiled-le m (at + s) tiles t.3)
Tiled-le m at (used_tile s ∷ tiles) t = omega (arith, Tiled-le m (at + s) tiles t.2)

-- The row does not depend on headers outside of it.
pub Tiled-frame :
    {m m' : Blocks} {end : ℕ} (at : ℕ) (tiles : List Tile)
    → ((q : ℕ) → at ≤ q → q < end → m' q ≡ m q)
    → Tiled m end at tiles
    → Tiled m' end at tiles
Tiled-frame {m = m} at [] same t = t
Tiled-frame {m = m} at (free_tile s ∷ tiles) same t = (
  same at (omega arith) (omega (arith, Tiled-le m (at + s) tiles t.3)) ∙ t.0,
  t.1,
  t.2,
  Tiled-frame (at + s) tiles (λ q l. same q (omega arith)) t.3,
)
Tiled-frame {m = m} at (used_tile s ∷ tiles) same t = (
  same at (omega arith) (omega (arith, Tiled-le m (at + s) tiles t.2)) ∙ t.0,
  t.1,
  Tiled-frame (at + s) tiles (λ q l. same q (omega arith)) t.2,
)

pub first_free-bounds :
    (m : Blocks) {end : ℕ} (at : ℕ) (tiles : List Tile)
    → Tiled m end at tiles
    → (at ≤ first_free end at tiles) × (first_free end at tiles ≤ end)
first_free-bounds m at [] t = (omega arith, omega arith)
first_free-bounds m at (free_tile s ∷ tiles) t =
    (omega arith, Tiled-le m at (free_tile s ∷ tiles) t)
first_free-bounds m at (used_tile s ∷ tiles) t =
    let below = first_free-bounds m (at + s) tiles t.2 in (omega (arith, below.0), below.1)

-- The row starts free exactly if the free list does there.
pub first_free-starts :
    (m : Blocks) {end : ℕ} (at : ℕ) (tiles : List Tile)
    → Tiled m end at tiles
    → at < end
    → (first_free end at tiles == at) ≡ starts_free tiles
first_free-starts m at [] t h = absurd (omega arith)
first_free-starts m at (free_tile s ∷ tiles) t h = ground arith
first_free-starts m at (used_tile s ∷ tiles) t h =
    ground (arith, first_free-bounds m (at + s) tiles t.2)

-- the size of the used block at `block`
abbrev pub used_size : ℕ → ℕ → List Tile → Option ℕ
used_size block at [] = none
used_size block at (free_tile s ∷ tiles) = used_size block (at + s) tiles
used_size block at (used_tile s ∷ tiles) =
    if at == block then some s else used_size block (at + s) tiles

pub used_size-bounds :
    (m : Blocks) {end : ℕ} (block s at : ℕ) (tiles : List Tile)
    → Tiled m end at tiles
    → used_size block at tiles ≡ some s
    → (at ≤ block) × (block + s ≤ end) × (0 < s) × (m block ≡ used_header s)
used_size-bounds m block s at [] t e = absurd (ground arith)
used_size-bounds m block s at (free_tile n ∷ tiles) t e =
    let below = used_size-bounds m block s (at + n) tiles t.3 e in
    (omega (arith, below.0), below.1, below.2, below.3)
used_size-bounds m block s at (used_tile n ∷ tiles) t e = elim (Bool-cases (at == block)) [
  | inl here ↦ ground (arith, Tiled-le m (at + n) tiles t.2)
  | inr later ↦ ground (arith, used_size-bounds m block s (at + n) tiles t.2)
]

-- Two free blocks that touch are made one.
abbrev pub join : ℕ → List Tile → List Tile
join s (free_tile n ∷ tiles) = free_tile (s + n) ∷ tiles
join s tiles = free_tile s ∷ tiles

-- The specification of a free: the used block at `block` becomes free, and is joined with its free
-- neighbours.
unfoldable pub release : ℕ → ℕ → List Tile → List Tile
release block at [] = []
release block at (free_tile s ∷ tiles) = join s (release block (at + s) tiles)
release block at (used_tile s ∷ tiles) =
    if at == block then join s tiles else used_tile s ∷ release block (at + s) tiles
