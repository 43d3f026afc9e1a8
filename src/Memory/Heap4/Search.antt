-- ===== src/Memory/Heap4/Search.antt =====
-- The search of `pvPortMalloc` along the row of blocks.
use mathlib.Core.Option
use mathlib.Core.Path.{subst}
use freertos_in_rust.Prelude.{
  ℕ, zero, suc, ◌+◌, ◌≤◌, ◌<◌, ◌≡◌, refl, sym, ap, ◌∙◌, ◌≢◌, ◌⊎◌, inl, inr, false, Option, none,
  some, List, [], ◌∷◌, arith, leb, Bool-cases, length, word_mod,
}
use freertos_in_rust.Memory.Heap4.{
  heap_block_allocated_bitmask, Blocks, get_block_size, search, take_block,
}
use freertos_in_rust.Memory.Heap4.Tiles.{
  Tile, free_tile, used_tile, starts_free, first_free, used_header, Tiled, Tiled-le,
  first_free-bounds,
}
use freertos_in_rust.Memory.Heap4.Link.{unmarked, header}
use freertos_in_rust.Memory.Heap4.Taking.{reserve, marked, taken_size}
use freertos_in_rust.Memory.Heap4.Passing.{
  Took, search_stop, search_go, starts_free-reserve, take_here, used_skipped, free_skipped,
  reserve_here, reserve_go,
}

-- What the search finds from the free block `p` on, as the specification says.
abbrev pub Searched : Blocks → ℕ → ℕ → ℕ → ℕ → ℕ → Option (ℕ × ℕ) → Option (ℕ × List Tile) → Type 0
Searched m end w p sp at found none = (previous : ℕ) × (found ≡ some (previous, end))
Searched m end w p sp at found (some (b, tiles)) =
    (previous : ℕ) × (found ≡ some (previous, b))
    × ((m previous).next_free_block ≡ b)
    × (b < end)
    × ((take_block m previous b w b).block_size < heap_block_allocated_bitmask)
    × Took m (marked m previous b w) end p sp at tiles

module _ (m : Blocks) (lo end w : ℕ) (high : end < word_mod) (pos : 0 < w)
    (span : end < lo + heap_block_allocated_bitmask) (marker : m end ≡ header 0 0)
    (low : 0 < lo) where
  used_on :
      (p sp at s : ℕ) (tiles : List Tile) (found : Option (ℕ × ℕ)) (r : Option (ℕ × List Tile))
      → p ≢ at
      → 0 < s
      → m at ≡ used_header s
      → Searched m end w p sp (at + s) found r
      → Searched m end w p sp at found
          (Option.map {B = ℕ × List Tile} (λ x. (x.0, used_tile s ∷ x.1)) r)
  used_on p sp at s tiles found none np q used k = k
  used_on p sp at s tiles found (some (b, l)) np q used (prev, same, leads, inside, size, took) = (
    prev,
    same,
    leads,
    inside,
    size,
    used_skipped m end w high pos (marked m prev b w) p sp at s l took np q used,
  )

  free_on :
      (p sp at s : ℕ) (tiles : List Tile) (found : Option (ℕ × ℕ)) (r : Option (ℕ × List Tile))
      → r ≡ reserve w (at + s) tiles
      → starts_free tiles ≡ false
      → m p ≡ header at sp
      → p ≢ at
      → (p < at + s) ⊎ (end ≤ p)
      → at < end
      → 0 < s
      → Searched m end w at s (at + s) found r
      → Searched m end w p sp at found
          (Option.map {B = ℕ × List Tile} (λ x. (x.0, free_tile s ∷ x.1)) r)
  free_on p sp at s tiles found none e f hp np out inside q k = k
  free_on p sp at s tiles found (some (b, l)) e f hp np out inside q
        (prev, same, leads, into, size, took) =
      (
        prev,
        same,
        leads,
        into,
        size,
        free_skipped m end w high pos (marked m prev b w) p sp at s l took
            (starts_free-reserve w (at + s) b tiles l f (sym e)) hp np out inside q,
      )

  pub search_lem :
      (rounds p sp at : ℕ) (tiles : List Tile)
      → length tiles < rounds
      → m p ≡ header (first_free end at tiles) sp
      → Tiled m end at tiles
      → lo ≤ at
      → (p < at) ⊎ (end ≤ p)
      → p ≢ end
      → Searched m end w p sp at
          (search rounds m p (first_free end at tiles) w)
          (reserve w at tiles)
  unfolding reserve
  search_lem zero p sp at tiles l hp t lo_at out ne = absurd (omega arith)
  search_lem (suc rounds) p sp at [] l hp t lo_at out ne =
      (p, search_stop m p end rounds w (ground (arith, marker)))
  search_lem (suc rounds) p sp at (used_tile s ∷ tiles) l hp t lo_at out ne =
      let below = Tiled-le m (at + s) tiles t.2 in
      used_on p sp at s tiles (search (suc rounds) m p (first_free end (at + s) tiles) w)
        (reserve w (at + s) tiles) (λ h. absurd (ground (arith, t.1))) t.1 t.0
        (search_lem (suc rounds) p sp (at + s) tiles (omega arith) hp t.2 (omega arith)
          (ground arith) ne)
  search_lem (suc rounds) p sp at (free_tile s ∷ tiles) l hp t lo_at out ne =
      let below = Tiled-le m (at + s) tiles t.3 in
      let next = first_free-bounds m (at + s) tiles t.3 in
      let np : p ≢ at = λ h. absurd (ground (arith, t.1)) in
      let size : get_block_size (m at) ≡ s = ground (arith, t.0, unmarked s) in
      elim (Bool-cases (leb w s)) [
        | inl fits ↦
            subst (Searched m end w p sp at (search (suc rounds) m p at w))
              (sym (reserve_here w at s tiles fits))
              (
                p,
                search_stop m p at rounds w (ground arith),
                ground arith,
                omega (arith, t.1),
                (let bound =
                      taken_size m p sp at s w (first_free end (at + s) tiles) hp t.0 np pos
                        (ground arith) (omega arith) (omega arith) in
                    omega arith),
                take_here m end w high pos p sp at s tiles hp t out (omega arith) (ground arith),
              )
        | inr small ↦
            subst (Searched m end w p sp at (search (suc rounds) m p at w))
              (sym (reserve_go w at s tiles small))
              (subst
                (λ x.
                  Searched m end w p sp at x
                    (Option.map (λ r. (r.0, free_tile s ∷ r.1)) (reserve w (at + s) tiles)))
                (sym (
                  search_go m p at rounds w (ground (arith, t.0))
                  ∙ ap (λ x. search rounds m at x w) (ap (λ b. b.next_free_block) t.0)))
                (free_on p sp at s tiles (search rounds m at (first_free end (at + s) tiles) w)
                  (reserve w (at + s) tiles) refl t.2 hp np (ground arith) (omega (arith, t.1)) t.1
                  (search_lem rounds at s (at + s) tiles (omega arith) (ground (arith, t.0)) t.3
                    (omega arith) (inl (omega (arith, t.1))) (λ h. absurd (omega (arith, t.1))))))
      ]
