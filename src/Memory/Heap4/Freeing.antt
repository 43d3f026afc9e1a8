-- ===== src/Memory/Heap4/Freeing.antt =====
-- `prv_insert_block_into_free_list` finds the place of a block that was used and joins it with its
-- free neighbours.
use mathlib.Core.Path.{subst}
use freertos_in_rust.Prelude.{
  ℕ, zero, suc, ◌+◌, ◌≤◌, ◌<◌, ◌≡◌, refl, sym, ap, ◌∙◌, ◌≢◌, ◌⊎◌, inl, inr, true, false, some, List,
  [], ◌∷◌, arith, ltb, ◌==◌, Bool-cases, length, word_mod,
}
use freertos_in_rust.Memory.Heap4.{
  heap_block_allocated_bitmask, Blocks, write, find_before, link_block,
}
use freertos_in_rust.Memory.Heap4.Tiles.{
  Tile, free_tile, used_tile, starts_free, first_free, used_header, Tiled, Tiled-le, Tiled-frame,
  first_free-bounds, used_size, used_size-bounds, join, release,
}
use freertos_in_rust.Memory.Heap4.Link.{header}
use freertos_in_rust.Memory.Heap4.Release.{Freed, free_in_front, link_plain, link_touching}

module _ (m : Blocks) (p a rounds : ℕ) where
  find_stop : ltb (m p).next_free_block a ≡ false → find_before (suc rounds) m p a ≡ some p
  unfolding find_before
  find_stop h = ground arith

  find_go :
      ltb (m p).next_free_block a ≡ true
      → find_before (suc rounds) m p a ≡ find_before rounds m (m p).next_free_block a
  unfolding find_before
  find_go h = ground arith

first_free-join : (end at s : ℕ) (tiles : List Tile) → first_free end at (join s tiles) ≡ at
first_free-join end at s [] = refl
first_free-join end at s (free_tile n ∷ tiles) = refl
first_free-join end at s (used_tile n ∷ tiles) = refl

module _ (m m' : Blocks) (end p sp at s : ℕ) (tiles : List Tile) (np : p ≢ at) (inside : at < end)
    (pos : 0 < s) where
  -- A used block is passed over.
  used_passed :
      Freed m m' end p sp (at + s) tiles
      → p + sp ≢ at + s
      → m at ≡ used_header s
      → (p + sp ≡ at → 0 < sp)
      → Freed m m' end p sp at (used_tile s ∷ tiles)
  used_passed f ne used q =
      let (into, row) = f.apart ne in
      let row' : Tiled m' end at (used_tile s ∷ tiles) =
        (f.frame at (λ h. absurd (np (sym h))) (inl (omega arith)) ∙ used, pos, row) in
      record {
        joined = λ e. free_in_front m' end p sp at (used_tile s ∷ tiles) e (q e) refl into row';
        apart = λ _. (into, row');
        frame = λ r h o. f.frame r h (ground arith);
      }

  -- A free block is joined with what follows it, and the one before it leads to it as before.
  free_passed :
      Freed m m' end at s (at + s) tiles
      → m p ≡ header at sp
      → (p < at + s) ⊎ (end ≤ p)
      → p + sp ≢ at
      → Freed m m' end p sp at (join s tiles)
  free_passed f leads out ne = record {
    joined = λ e. absurd (ne e);
    apart = λ _. (
      f.frame p np out ∙ leads ∙ ap (λ x. header x sp) (sym (first_free-join end at s tiles)),
      f.joined refl,
    );
    frame = λ r h o. f.frame r (λ e. absurd (ground arith)) (ground arith);
  }

-- where a free block `p` may stand on the list before a row from `at` on: within the region and in
-- front of the row, or outside of it as the list's start
abbrev pub Before : ℕ → ℕ → ℕ → ℕ → ℕ → Type 0
Before lo end p sp at = ((lo ≤ p) × (p < at) × (p + sp ≤ at)) ⊎ ((sp ≡ 0) × ((p < at) ⊎ (end ≤ p)))

module _ (m : Blocks) (lo end a n : ℕ) (high : end < word_mod)
    (span : end < lo + heap_block_allocated_bitmask) where
  abbrev pub freed : Blocks
  freed = write m a (header 0 n)

  -- The block stands first in the row.
  insert_here :
      (p sp : ℕ) (tiles : List Tile)
      → freed p ≡ header (first_free end (a + n) tiles) sp
      → Tiled m end (a + n) tiles
      → 0 < n
      → lo ≤ a
      → Before lo end p sp a
      → p + sp < word_mod
      → p ≢ a
      → Freed freed (link_block freed end p a) end p sp a (join n tiles)
  insert_here p sp [] hp t pos low o fits np =
      link_plain freed end p sp a n (ground arith) np pos (ground arith) high fits [] hp refl t
        (ground arith)
  insert_here p sp (used_tile s ∷ tiles) hp t pos low o fits np =
      let below = Tiled-le m (a + n + s) tiles t.2 in
      link_plain freed end p sp a n (ground arith) np pos (ground arith) high fits
        (used_tile s ∷ tiles) hp refl
        (Tiled-frame {m = m} (a + n) (used_tile s ∷ tiles) (λ q l k. ground arith) t) (ground arith)
  insert_here p sp (free_tile s ∷ tiles) hp t pos low o fits np =
      let below = Tiled-le m (a + n + s) tiles t.3 in
      link_touching freed end p sp a n (ground arith) np pos (ground arith) high fits s tiles hp
        (Tiled-frame {m = m} (a + n) (free_tile s ∷ tiles) (λ q l k. ground arith) t) (ground arith)

  pub insert_lem :
      (rounds p sp at : ℕ) (tiles : List Tile)
      → length tiles < rounds
      → freed p ≡ header (first_free end at tiles) sp
      → Tiled m end at tiles
      → used_size a at tiles ≡ some n
      → lo ≤ at
      → Before lo end p sp at
      → ((p + sp ≡ at) → starts_free tiles ≡ false)
      → p + sp < word_mod
      → p ≢ a
      → (iterator : ℕ) × (find_before rounds freed p a ≡ some iterator)
        × Freed freed (link_block freed end iterator a) end p sp at (release a at tiles)
  unfolding release
  insert_lem rounds p sp at [] l hp t e low o nf fits np = absurd (ground arith)
  insert_lem zero p sp at (tile ∷ tiles) l hp t e low o nf fits np = absurd (omega arith)
  insert_lem (suc rounds) p sp at (used_tile s ∷ tiles) l hp t e low o nf fits np =
      let next = first_free-bounds m (at + s) tiles t.2 in
      elim (Bool-cases (at == a)) [
        | inl here ↦
            let same : at ≡ a = ground arith in
            let size : s ≡ n = ground arith in
            let together : at + s ≡ a + n = omega arith in
            subst
              (λ x.
                (iterator : ℕ) × (find_before (suc rounds) freed p a ≡ some iterator)
                × Freed freed (link_block freed end iterator a) end p sp x
                    (release a x (used_tile s ∷ tiles)))
              (sym same)
              (
                p,
                find_stop freed p a rounds (ground (arith, t.1)),
                subst (λ r. Freed freed (link_block freed end p a) end p sp a r) (ground arith)
                    (insert_here p sp tiles
                      (hp ∙ ap (λ x. header (first_free end x tiles) sp) together)
                      (subst (λ x. Tiled m end x tiles) together t.2) (omega (arith, t.1))
                      (omega arith) (ground arith) fits np),
              )
        | inr later ↦
            let e' : used_size a (at + s) tiles ≡ some n = ground arith in
            let place = used_size-bounds m a n (at + s) tiles t.2 e' in
            let (it, found, f) =
              insert_lem (suc rounds) p sp (at + s) tiles (omega arith) hp t.2 e' (omega arith)
                (ground (arith, t.1, place.0))
                (λ h. absurd (ground (arith, t.1, place.0, place.1, place.2))) fits np in
            let at_in : at ≢ a = λ h. absurd (ground arith) in
            let passed =
              used_passed freed (link_block freed end it a) end p sp at s (release a (at + s) tiles)
                (λ h. absurd (ground arith)) (omega (arith, place.1, place.2)) t.1 f
                (λ h. absurd (ground (arith, t.1, place.0, place.1, place.2))) (ground (arith, t.0))
                (λ h. ground arith) in
            (
              it,
              found,
              subst (λ x. Freed freed (link_block freed end it a) end p sp at x) (ground arith)
                  passed,
            )
      ]
  insert_lem (suc rounds) p sp at (free_tile s ∷ tiles) l hp t e low o nf fits np =
      let place = used_size-bounds m a n (at + s) tiles t.3 e in
      let ne : p + sp ≢ at = λ h. absurd (ground (arith, nf h)) in
      let apart : at ≢ a = λ h. absurd (omega (arith, t.1, place.0)) in
      let (it, found, f) =
        insert_lem rounds at s (at + s) tiles (omega arith) (ground (arith, t.0)) t.3 e
          (omega arith) (inl (low, omega (arith, t.1), omega arith)) (λ _. t.2)
          (omega (arith, place.0, place.1)) apart in
      (
        it,
        find_go freed p a rounds (ground (arith, t.1, place.0))
            ∙ ap (λ x. find_before rounds freed x a) (ap (λ b. b.next_free_block) hp)
            ∙ found,
        free_passed freed (link_block freed end it a) end p sp at s (release a (at + s) tiles)
            (λ h. absurd (ground arith)) (omega (arith, t.1, place.0, place.1, place.2)) t.1 f
            (ground arith) (ground arith) ne,
      )
