-- ===== src/Memory/Heap4/Given.antt =====
-- What giving a used block back does to a row: its free bytes, its used blocks, their alignment.
use mathlib.Core.List.{Perm, Mem, mem-cons, not-mem-nil}
use mathlib.Core.List.Perm
use mathlib.Core.Logic.Or
use mathlib.Core.Path.{subst}
use native.Mathlib.Bridge.{le_prop}
use freertos_in_rust.Prelude.{
  ℕ, ◌+◌, ◌-◌, ◌%◌, ◌≤◌, ◌<◌, ◌≡◌, refl, sym, ap, ◌≢◌, inl, inr, none, some, List, [], ◌∷◌, arith,
  ◌==◌, Bool-cases,
}
use freertos_in_rust.Memory.Heap4.{byte_alignment, heap_struct_size, Blocks}
use freertos_in_rust.Memory.Heap4.Tiles.{
  Tile, free_tile, used_tile, Tiled, used_size, join, release,
}
use freertos_in_rust.Memory.Heap4.Rows.{free_bytes, used_pointers, AllAligned}

free_bytes-join : (s : ℕ) (tiles : List Tile) → free_bytes (join s tiles) ≡ s + free_bytes tiles
free_bytes-join s [] = refl
free_bytes-join s (free_tile n ∷ tiles) = omega arith
free_bytes-join s (used_tile n ∷ tiles) = refl

used_pointers-join :
    (at s : ℕ) (tiles : List Tile) → used_pointers at (join s tiles) ≡ used_pointers (at + s) tiles
used_pointers-join at s [] = refl
used_pointers-join at s (free_tile n ∷ tiles) = ap (λ x. used_pointers x tiles) (omega arith)
used_pointers-join at s (used_tile n ∷ tiles) = refl

join-AllAligned :
    (s : ℕ) (tiles : List Tile)
    → s % byte_alignment ≡ 0
    → AllAligned tiles
    → AllAligned (join s tiles)
join-AllAligned s [] h al = (h, al)
join-AllAligned s (free_tile n ∷ tiles) h al = (omega (arith, al.0), al.1)
join-AllAligned s (used_tile n ∷ tiles) h al = (h, al)

-- What giving back the used block at `b`, of size `n`, makes of the row.
pub record Returned (b n at : ℕ) (tiles tiles' : List Tile) : Type 0 where
  pub bytes : free_bytes tiles' ≡ n + free_bytes tiles
  pub pointers : Perm (used_pointers at tiles) ((b + heap_struct_size) ∷ used_pointers at tiles')
  pub aligned : AllAligned tiles → AllAligned tiles'

pub release_lem :
    (b n at : ℕ) (tiles : List Tile)
    → used_size b at tiles ≡ some n
    → Returned b n at tiles (release b at tiles)
unfolding release
release_lem b n at [] e = absurd (ground arith)
release_lem b n at (free_tile s ∷ tiles) e =
    let r = release_lem b n (at + s) tiles e in
    let rest = release b (at + s) tiles in
    record {
      bytes = omega (arith, free_bytes-join s rest, r.bytes);
      pointers =
          subst (λ x. Perm (used_pointers (at + s) tiles) ((b + heap_struct_size) ∷ x))
            (sym (used_pointers-join at s rest)) r.pointers;
      aligned = λ al. join-AllAligned s rest al.0 (r.aligned al.1);
    }
release_lem b n at (used_tile s ∷ tiles) e = elim (Bool-cases (at == b)) [
  | inl here ↦
      subst (Returned b n at (used_tile s ∷ tiles)) {x = join s tiles} (ground arith) (record {
        bytes = ground (arith, free_bytes-join s tiles);
        pointers =
            subst
              (λ x.
                Perm ((at + heap_struct_size) ∷ used_pointers (at + s) tiles)
                  ((x + heap_struct_size) ∷ used_pointers at (join s tiles)))
              {x = at} (ground arith)
              (subst
                (λ x.
                  Perm ((at + heap_struct_size) ∷ used_pointers (at + s) tiles)
                    ((at + heap_struct_size) ∷ x))
                (sym (used_pointers-join at s tiles))
                (Perm.refl ((at + heap_struct_size) ∷ used_pointers (at + s) tiles)));
        aligned = λ al. join-AllAligned s tiles al.0 al.1;
      })
  | inr later ↦
      let r = release_lem b n (at + s) tiles (ground arith) in
      subst (Returned b n at (used_tile s ∷ tiles)) {x = used_tile s ∷ release b (at + s) tiles}
        (ground arith)
        (record {
          bytes = r.bytes;
          pointers = Perm.trans (Perm.cons (at + heap_struct_size) r.pointers) (
              Perm.swap (b + heap_struct_size) (at + heap_struct_size)
                (used_pointers (at + s) (release b (at + s) tiles)));
          aligned = λ al. (al.0, r.aligned al.1);
        })
]

-- Every pointer to a used block has a block with a size in front of it.
pub used_size-pointer :
    (p at : ℕ) (tiles : List Tile)
    → Mem p (used_pointers at tiles)
    → (heap_struct_size ≤ p) × (used_size (p - heap_struct_size) at tiles ≢ none)
used_size-pointer p at [] m = absurd (not-mem-nil m)
used_size-pointer p at (free_tile s ∷ tiles) m = used_size-pointer p (at + s) tiles m
used_size-pointer p at (used_tile s ∷ tiles) m = (
  Or.elim le_prop (mem-cons.0 m) (λ h. omega arith) (λ k. (used_size-pointer p (at + s) tiles k).0),
  λ e.
      Or.elim (λ x y. absurd x) (mem-cons.0 m) (λ h. absurd (ground arith))
        (λ k. (used_size-pointer p (at + s) tiles k).1 (ground arith)),
)

-- With no used block the row is at most one free block.
pub one_free :
    (m : Blocks) (end at : ℕ) (tiles : List Tile)
    → at < end
    → Tiled m end at tiles
    → used_pointers at tiles ≡ []
    → tiles ≡ free_tile (end - at) ∷ []
one_free m end at [] l t e = absurd (omega arith)
one_free m end at (free_tile s ∷ []) l t e = ap (λ x. free_tile x ∷ []) (omega (arith, t.3))
one_free m end at (free_tile s ∷ free_tile n ∷ tiles) l t e = absurd (ground (arith, t.2))
one_free m end at (free_tile s ∷ used_tile n ∷ tiles) l t e = absurd (ground arith)
one_free m end at (used_tile s ∷ tiles) l t e = absurd (ground arith)
