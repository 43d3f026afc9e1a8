-- ===== src/Memory/Heap4/Passing.antt =====
-- The block found by the search of `pvPortMalloc` is taken out of the row; those before it are passed.
use mathlib.Core.Option
use mathlib.Core.Path.{subst}
use freertos_in_rust.Prelude.{
  ℕ, suc, ◌+◌, ◌-◌, ◌≤◌, ◌<◌, ◌≡◌, refl, sym, ◌∙◌, ◌≢◌, ◌⊎◌, inl, inr, true, false, not, ◌&&◌,
  Option, none, some, List, [], ◌∷◌, arith, ltb, leb, ◌==◌, if◌then◌else◌, Bool-cases, word_mod,
}
use freertos_in_rust.Memory.Heap4.{
  heap_minimum_block_size, heap_block_allocated_bitmask, Blocks, write, get_block_size, search,
}
use freertos_in_rust.Memory.Heap4.Tiles.{
  Tile, free_tile, used_tile, starts_free, first_free, used_header, Tiled, Tiled-le, Tiled-frame,
}
use freertos_in_rust.Memory.Heap4.Link.{header}
use freertos_in_rust.Memory.Heap4.Release.{free_in_front}
use freertos_in_rust.Memory.Heap4.Taking.{reserve, marked, taken_whole, taken_split}

-- How the headers `m'` come from `m`, for a row from `at` on and the free block `p` before it on the
-- list, which still leads into it.
pub record Took (m m' : Blocks) (end p sp at : ℕ) (tiles : List Tile) : Type 0 where
  pub into : m' p ≡ header (first_free end at tiles) sp
  pub row : Tiled m' end at tiles
  pub frame : (q : ℕ) → q ≢ p → (q < at) ⊎ (end ≤ q) → m' q ≡ m q

module _ (m : Blocks) (p block rounds size : ℕ) where
  pub search_stop :
      (ltb (get_block_size (m block)) size && not ((m block).next_free_block == 0)) ≡ false
      → search (suc rounds) m p block size ≡ some (p, block)
  unfolding search
  search_stop h = ground arith

  pub search_go :
      (ltb (get_block_size (m block)) size && not ((m block).next_free_block == 0)) ≡ true
      → search (suc rounds) m p block size ≡ search rounds m block (m block).next_free_block size
  unfolding search
  search_go h = ground arith

-- what is left of a free block of size `s` for a request of `size`
abbrev pub split_off : ℕ → ℕ → List Tile → List Tile
split_off size s tiles =
    if ltb heap_minimum_block_size (s - size)
    then used_tile size ∷ free_tile (s - size) ∷ tiles
    else used_tile s ∷ tiles

-- A request does not make a row start with a free block.
pub starts_free-reserve :
    (size at b : ℕ) (tiles tiles' : List Tile)
    → starts_free tiles ≡ false
    → reserve size at tiles ≡ some (b, tiles')
    → starts_free tiles' ≡ false
unfolding reserve
starts_free-reserve size at b [] tiles' f e = absurd (ground arith)
starts_free-reserve size at b (free_tile s ∷ tiles) tiles' f e = absurd (ground arith)
starts_free-reserve size at b (used_tile s ∷ tiles) tiles' f e = go (reserve size (at + s) tiles) e
  where
    go :
        (r : Option (ℕ × List Tile))
        → Option.map {B = ℕ × List Tile} (λ x. (x.0, used_tile s ∷ x.1)) r ≡ some (b, tiles')
        → starts_free tiles' ≡ false
    go none h = absurd (ground arith)
    go (some (c, l)) h = let same : tiles' ≡ used_tile s ∷ l = ground arith in rw same refl

module _ (m : Blocks) (end w : ℕ) (high : end < word_mod) (pos : 0 < w) where
  pub take_here :
      (p sp at s : ℕ) (tiles : List Tile)
      → m p ≡ header at sp
      → Tiled m end at (free_tile s ∷ tiles)
      → (p < at) ⊎ (end ≤ p)
      → s < heap_block_allocated_bitmask
      → w ≤ s
      → Took m (marked m p at w) end p sp at (split_off w s tiles)
  take_here p sp at s tiles hp t out small enough =
      let below = Tiled-le m (at + s) tiles t.3 in
      let next = first_free end (at + s) tiles in
      let np : p ≢ at = λ h. absurd (ground (arith, t.1)) in
      elim (Bool-cases (ltb heap_minimum_block_size (s - w))) [
        | inl split ↦
            let m' =
              write
                (write
                  (write (write (write m p (header next sp)) (at + w) (header next (s - w))) at
                    (header next w))
                  p (header (at + w) sp))
                at (used_header w) in
            let row : Tiled m' end (at + s) tiles =
              Tiled-frame {m = m} (at + s) tiles (λ q l k. ground arith) t.3 in
            let apart : p ≢ at + w = λ h. absurd (ground arith) in
            let shape : used_tile w ∷ free_tile (s - w) ∷ tiles ≡ split_off w s tiles =
              ground arith in
            subst (λ x. Took m x end p sp at (split_off w s tiles))
              (sym (
                taken_split m p sp at s w next hp t.0 np pos enough small (omega arith) split
                  apart))
              (subst (λ x. Took m m' end p sp at x) shape
                (record {
                  into = ground arith;
                  row = (
                    ground arith,
                    pos,
                    free_in_front m' end (at + w) (s - w) (at + s) tiles (omega arith)
                        (ground arith) t.2 (ground arith) row,
                  );
                  frame = λ q h o. ground (arith, t.1);
                }))
        | inr whole ↦
            let m' = write (write m p (header next sp)) at (used_header s) in
            let row : Tiled m' end (at + s) tiles =
              Tiled-frame {m = m} (at + s) tiles (λ q l k. ground (arith)) t.3 in
            let shape : used_tile s ∷ tiles ≡ split_off w s tiles = ground arith in
            subst (λ x. Took m x end p sp at (split_off w s tiles))
              (sym (taken_whole m p sp at s w next hp t.0 np pos enough small (omega arith) whole))
              (subst (λ x. Took m m' end p sp at x) shape
                (record {
                  into = ground arith;
                  row = (ground arith, t.1, row);
                  frame = λ q h o. ground (arith, t.1);
                }))
      ]

  -- A used block is passed over.
  pub used_skipped :
      (m' : Blocks) (p sp at s : ℕ) (tiles : List Tile)
      → Took m m' end p sp (at + s) tiles
      → p ≢ at
      → 0 < s
      → m at ≡ used_header s
      → Took m m' end p sp at (used_tile s ∷ tiles)
  used_skipped m' p sp at s tiles k np q used = record {
    into = k.into;
    row = (k.frame at (λ h. absurd (np (sym h))) (inl (omega arith)) ∙ used, q, k.row);
    frame = λ r h o. k.frame r h (ground arith);
  }

  -- So is a free block that is too small, and the one before it leads to it as before.
  pub free_skipped :
      (m' : Blocks) (p sp at s : ℕ) (tiles : List Tile)
      → Took m m' end at s (at + s) tiles
      → starts_free tiles ≡ false
      → m p ≡ header at sp
      → p ≢ at
      → (p < at + s) ⊎ (end ≤ p)
      → at < end
      → 0 < s
      → Took m m' end p sp at (free_tile s ∷ tiles)
  free_skipped m' p sp at s tiles k f hp np out inside q = record {
    into = k.frame p np out ∙ hp;
    row = (k.into, q, f, k.row);
    frame = λ r h o. k.frame r (λ e. absurd (ground arith)) (ground arith);
  }

pub reserve_here :
    (w : ℕ) (at s : ℕ) (tiles : List Tile)
    → leb w s ≡ true
    → reserve w at (free_tile s ∷ tiles) ≡ some (at, split_off w s tiles)
unfolding reserve
reserve_here w at s tiles h = ground arith

pub reserve_go :
    (w : ℕ) (at s : ℕ) (tiles : List Tile)
    → leb w s ≡ false
    → reserve w at (free_tile s ∷ tiles)
      ≡ Option.map (λ r. (r.0, free_tile s ∷ r.1)) (reserve w (at + s) tiles)
unfolding reserve
reserve_go w at s tiles h = ground arith
