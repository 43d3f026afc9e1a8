-- ===== src/Memory/Heap4/Release.antt =====
-- `vPortFree` gives a used block back: its tile becomes free and is joined with its neighbours.
use mathlib.Core.Path.{subst}
use freertos_in_rust.Prelude.{
  ℕ, ◌+◌, ◌≤◌, ◌<◌, ◌≡◌, refl, sym, ◌≢◌, ◌⊎◌, inl, inr, false, not, ◌&&◌, List, ◌∷◌, arith, ◌==◌,
  Bool-cases, word_mod,
}
use freertos_in_rust.Memory.Heap4.{heap_block_allocated_bitmask, Blocks, write, link_block}
use freertos_in_rust.Memory.Heap4.Tiles.{
  Tile, free_tile, starts_free, first_free, Tiled, Tiled-le, Tiled-frame, first_free-bounds,
  first_free-starts, join,
}
use freertos_in_rust.Memory.Heap4.Link.{
  header, link_merged, link_apart, link_merged_in, link_apart_in,
}

-- How the headers `m'` come from `m`, for a row from `at` on and the free block `p` of size `sp` before
-- it on the list: if the two touch, `p` and the row make one row, and otherwise `p` leads into the row.
pub record Freed (m m' : Blocks) (end p sp at : ℕ) (tiles : List Tile) : Type 0 where
  pub joined : p + sp ≡ at → Tiled m' end p (join sp tiles)
  pub apart : p + sp ≢ at → (m' p ≡ header (first_free end at tiles) sp) × Tiled m' end at tiles
  pub frame : (q : ℕ) → q ≢ p → (q < at) ⊎ (end ≤ q) → m' q ≡ m q

-- A free block in front of what follows it.
pub free_in_front :
    (m : Blocks) (end p s c : ℕ) (tiles : List Tile)
    → p + s ≡ c
    → 0 < s
    → starts_free tiles ≡ false
    → m p ≡ header (first_free end c tiles) s
    → Tiled m end c tiles
    → Tiled m end p (free_tile s ∷ tiles)
free_in_front m end p s c tiles e q f h t =
    subst
      (λ x.
        (m p ≡ header (first_free end x tiles) s)
        × (0 < s)
        × (starts_free tiles ≡ false)
        × Tiled m end x tiles)
      (sym e) (h, q, f, t)

module _ (m : Blocks) (end p sp a n : ℕ) (ha : m a ≡ header 0 n) (np : p ≢ a) (pos : 0 < n)
    (out : (p < a) ⊎ (end ≤ p)) (high : end < word_mod) (p_fits : p + sp < word_mod) where
  -- No free block stands behind the new one.
  pub link_plain :
      (tiles : List Tile)
      → m p ≡ header (first_free end (a + n) tiles) sp
      → starts_free tiles ≡ false
      → Tiled m end (a + n) tiles
      → sp + n < heap_block_allocated_bitmask
      → Freed m (link_block m end p a) end p sp a (free_tile n ∷ tiles)
  link_plain tiles hp f t small =
      let next = first_free end (a + n) tiles in
      let below = Tiled-le m (a + n) tiles t in
      let stop : ((a + n == next) && not (next == end)) ≡ false =
        ground (arith, first_free-starts m (a + n) tiles t, first_free-bounds m (a + n) tiles t) in
      elim (Bool-cases (p + sp == a)) [
        | inl touch ↦
            let e : p + sp ≡ a = ground arith in
            let m' = write m p (header next (sp + n)) in
            let t' : Tiled m' end (a + n) tiles =
              Tiled-frame {m = m} (a + n) tiles (λ q l k. ground arith) t in
            subst (λ x. Freed m x end p sp a (free_tile n ∷ tiles))
              (sym (link_merged m end p sp a n next hp ha small p_fits (omega arith) e stop))
              (record {
                joined = λ e.
                    free_in_front m' end p (sp + n) (a + n) tiles (omega arith) (omega arith) f
                      (ground arith) t';
                apart = λ f. absurd (f e);
                frame = λ q f o. ground arith;
              })
        | inr gap ↦
            let e : p + sp ≢ a = λ h. absurd (ground arith) in
            let m' = write (write m a (header next n)) p (header a sp) in
            let t' : Tiled m' end (a + n) tiles =
              Tiled-frame {m = m} (a + n) tiles (λ q l k. ground arith) t in
            subst (λ x. Freed m x end p sp a (free_tile n ∷ tiles))
              (sym (link_apart m end p sp a n next hp ha small p_fits (omega arith) e np stop))
              (record {
                joined = λ h. absurd (e h);
                apart = λ f'. (ground arith, (ground arith, pos, f, t'));
                frame = λ q f o. ground arith;
              })
      ]

  -- A free block stands behind the new one.
  pub link_touching :
      (s : ℕ) (tiles : List Tile)
      → m p ≡ header (a + n) sp
      → Tiled m end (a + n) (free_tile s ∷ tiles)
      → sp + n + s < heap_block_allocated_bitmask
      → Freed m (link_block m end p a) end p sp a (free_tile (n + s) ∷ tiles)
  link_touching s tiles hp t small =
      let next' = first_free end (a + n + s) tiles in
      let below = Tiled-le m (a + n + s) tiles t.3 in
      let inner : a + n ≢ end = λ h. absurd (omega (arith, t.1)) in
      let assoc : a + n + s ≡ a + (n + s) = omega arith in
      elim (Bool-cases (p + sp == a)) [
        | inl touch ↦
            let e : p + sp ≡ a = ground arith in
            let m' = write (write m p (header (a + n) (sp + n))) p (header next' (sp + n + s)) in
            let t' : Tiled m' end (a + n + s) tiles =
              Tiled-frame {m = m} (a + n + s) tiles (λ q l k. ground arith) t.3 in
            subst (λ x. Freed m x end p sp a (free_tile (n + s) ∷ tiles))
              (sym (
                link_merged_in m end p sp a n (a + n) hp ha (omega arith) p_fits (omega arith) next'
                  s t.0 refl inner small e (λ h. absurd (omega arith))))
              (record {
                joined = λ e.
                    free_in_front m' end p (sp + (n + s)) (a + n + s) tiles (omega arith)
                      (omega arith) t.2 (ground arith) t';
                apart = λ f. absurd (f e);
                frame = λ q f o. ground arith;
              })
        | inr gap ↦
            let e : p + sp ≢ a = λ h. absurd (ground arith) in
            let m' = write (write m a (header next' (n + s))) p (header a sp) in
            let t' : Tiled m' end (a + n + s) tiles =
              Tiled-frame {m = m} (a + n + s) tiles (λ q l k. ground arith) t.3 in
            subst (λ x. Freed m x end p sp a (free_tile (n + s) ∷ tiles))
              (sym (
                link_apart_in m end p sp a n (a + n) hp ha (omega arith) p_fits (omega arith) next'
                  s t.0 refl inner small e np))
              (record {
                joined = λ h. absurd (e h);
                apart = λ f'. (
                  ground arith,
                  free_in_front m' end a (n + s) (a + n + s) tiles (omega arith) (omega arith) t.2
                      (ground arith) t',
                );
                frame = λ q f o. ground arith;
              })
      ]
