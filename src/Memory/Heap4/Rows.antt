-- ===== src/Memory/Heap4/Rows.antt =====
-- What taking and giving back a block does to a row: its free bytes, its used blocks, their alignment.
use mathlib.Core.List.{Perm}
use mathlib.Core.List.Perm
use mathlib.Core.Option
use mathlib.Core.Path.{subst}
use freertos_in_rust.Prelude.{
  ℕ, ◌+◌, ◌-◌, ◌%◌, ◌≤◌, ◌<◌, ◌≡◌, refl, sym, ap, ◌∙◌, ◌≢◌, inl, inr, false, Option, none, some,
  List, [], ◌∷◌, arith, ltb, leb, ◌==◌, Bool-cases, length,
}
use freertos_in_rust.Memory.Heap4.{
  heap_struct_size, byte_alignment, heap_minimum_block_size, Blocks,
}
use freertos_in_rust.Memory.Heap4.Tiles.{
  Tile, free_tile, used_tile, starts_free, Tiled, used_size, join, release,
}
use freertos_in_rust.Memory.Heap4.Taking.{reserve}
use freertos_in_rust.Memory.Heap4.Passing.{split_off, reserve_here, reserve_go}

abbrev pub free_bytes : List Tile → ℕ
free_bytes [] = 0
free_bytes (free_tile s ∷ tiles) = s + free_bytes tiles
free_bytes (used_tile s ∷ tiles) = free_bytes tiles

-- the pointers to what lies behind the headers of the used blocks
abbrev pub used_pointers : ℕ → List Tile → List ℕ
used_pointers at [] = []
used_pointers at (free_tile s ∷ tiles) = used_pointers (at + s) tiles
used_pointers at (used_tile s ∷ tiles) = (at + heap_struct_size) ∷ used_pointers (at + s) tiles

abbrev pub AllAligned : List Tile → Type 0
AllAligned [] = Unit
AllAligned (free_tile s ∷ tiles) = (s % byte_alignment ≡ 0) × AllAligned tiles
AllAligned (used_tile s ∷ tiles) = (s % byte_alignment ≡ 0) × AllAligned tiles

pub free_bytes-fit :
    (m : Blocks) {end : ℕ} (at : ℕ) (tiles : List Tile)
    → Tiled m end at tiles
    → at + free_bytes tiles ≤ end
free_bytes-fit m at [] t = omega arith
free_bytes-fit m at (free_tile s ∷ tiles) t = omega (arith, free_bytes-fit m (at + s) tiles t.3)
free_bytes-fit m at (used_tile s ∷ tiles) t = omega (arith, free_bytes-fit m (at + s) tiles t.2)

pub length-fits :
    (m : Blocks) {end : ℕ} (at : ℕ) (tiles : List Tile)
    → Tiled m end at tiles
    → at + length tiles ≤ end
length-fits m at [] t = omega arith
length-fits m at (free_tile s ∷ tiles) t = omega (arith, t.1, length-fits m (at + s) tiles t.3)
length-fits m at (used_tile s ∷ tiles) t = omega (arith, t.1, length-fits m (at + s) tiles t.2)

-- What a request of `w` bytes that is met at `b` makes of the row.
pub record Reserved (w at : ℕ) (tiles : List Tile) (b : ℕ) (tiles' : List Tile) : Type 0 where
  pub size : ℕ
  pub behind : at ≤ b
  pub taken : used_size b at tiles' ≡ some size
  pub enough : w ≤ size
  pub bytes : free_bytes tiles ≡ size + free_bytes tiles'
  pub kept : (c j : ℕ) → used_size c at tiles ≡ some j → (c ≢ b) × (used_size c at tiles' ≡ some j)
  pub back : release b at tiles' ≡ tiles
  pub pointers : Perm (used_pointers at tiles') ((b + heap_struct_size) ∷ used_pointers at tiles)
  pub aligned :
      w % byte_alignment ≡ 0
      → at % byte_alignment ≡ 0
      → AllAligned tiles
      → (b % byte_alignment ≡ 0) × AllAligned tiles'

used_size-le : (c j at : ℕ) (tiles : List Tile) → used_size c at tiles ≡ some j → at ≤ c
used_size-le c j at [] e = absurd (ground arith)
used_size-le c j at (free_tile s ∷ tiles) e = omega (arith, used_size-le c j (at + s) tiles e)
used_size-le c j at (used_tile s ∷ tiles) e = elim (Bool-cases (at == c)) [
  | inl here ↦ ground arith
  | inr later ↦ let below = used_size-le c j (at + s) tiles (ground arith) in omega (arith, below)
]

join-apart :
    (s : ℕ) (tiles : List Tile) → starts_free tiles ≡ false → join s tiles ≡ free_tile s ∷ tiles
join-apart s [] f = refl
join-apart s (free_tile n ∷ tiles) f = absurd (ground arith)
join-apart s (used_tile n ∷ tiles) f = refl

Reserved-here :
    (w at s : ℕ) (tiles : List Tile)
    → 0 < w
    → w ≤ s
    → starts_free tiles ≡ false
    → Reserved w at (free_tile s ∷ tiles) at (split_off w s tiles)
unfolding release
Reserved-here w at s tiles pos enough f =
    let sum : w + (s - w) ≡ s = omega arith in
    elim (Bool-cases (ltb heap_minimum_block_size (s - w))) [
      | inl split ↦
          subst (Reserved w at (free_tile s ∷ tiles) at)
            {x = used_tile w ∷ free_tile (s - w) ∷ tiles} (ground arith)
            (record {
              size = w;
              behind = omega arith;
              taken = ground arith;
              enough = omega arith;
              bytes = omega arith;
              kept = λ c j e.
                  (let low = used_size-le c j (at + s) tiles e in
                    (
                      λ z. absurd (omega arith),
                      (let pl : at + w + (s - w) ≡ at + s = omega arith in ground arith),
                    ));
              back = ground arith;
              pointers =
                  subst
                    (λ x.
                      Perm ((at + heap_struct_size) ∷ used_pointers x tiles)
                        ((at + heap_struct_size) ∷ used_pointers (at + s) tiles))
                    {x = at + s} (omega arith)
                    (Perm.refl ((at + heap_struct_size) ∷ used_pointers (at + s) tiles));
              aligned = λ a e al. (e, (a, (omega (arith, al.0), al.1)));
            })
      | inr whole ↦
          subst (Reserved w at (free_tile s ∷ tiles) at) {x = used_tile s ∷ tiles} (ground arith)
            (record {
              size = s;
              behind = omega arith;
              taken = ground arith;
              enough = omega arith;
              bytes = omega arith;
              kept = λ c j e.
                  (let low = used_size-le c j (at + s) tiles e in
                    (λ z. absurd (omega arith), ground arith));
              back = ground (arith, join-apart s tiles f);
              pointers = Perm.refl ((at + heap_struct_size) ∷ used_pointers (at + s) tiles);
              aligned = λ a e al. (e, al);
            })
    ]

Reserved-used :
    (w at s b : ℕ) (tiles tiles' : List Tile)
    → 0 < s
    → Reserved w (at + s) tiles b tiles'
    → Reserved w at (used_tile s ∷ tiles) b (used_tile s ∷ tiles')
unfolding release
Reserved-used w at s b tiles tiles' pos r =
    let behind = r.behind in
    let other : (at == b) ≡ false = ground arith in
    record {
      size = r.size;
      behind = omega arith;
      taken = ground (arith, r.taken);
      enough = r.enough;
      bytes = r.bytes;
      kept = λ c j e. elim (Bool-cases (at == c)) [
        | inl here ↦ (λ z. absurd (ground arith), ground arith)
        | inr later ↦ let (x, y) = r.kept c j (ground arith) in (x, ground arith)
      ];
      back = ground (arith, r.back);
      pointers =
          Perm.trans (Perm.cons (at + heap_struct_size) r.pointers) (
            Perm.swap (b + heap_struct_size) (at + heap_struct_size)
              (used_pointers (at + s) tiles));
      aligned = λ a e al. let (x, y) = r.aligned a (omega (arith, al.0)) al.1 in (x, (al.0, y));
    }

Reserved-free :
    (w at s b : ℕ) (tiles tiles' : List Tile)
    → 0 < s
    → starts_free tiles ≡ false
    → Reserved w (at + s) tiles b tiles'
    → Reserved w at (free_tile s ∷ tiles) b (free_tile s ∷ tiles')
unfolding release
Reserved-free w at s b tiles tiles' pos f r =
    let behind = r.behind in
    let other : (at == b) ≡ false = ground arith in
    record {
      size = r.size;
      behind = omega arith;
      taken = r.taken;
      enough = r.enough;
      bytes = omega (arith, r.bytes);
      kept = λ c j e. r.kept c j e;
      back = ap (join s) r.back ∙ join-apart s tiles f;
      pointers = r.pointers;
      aligned = λ a e al. let (x, y) = r.aligned a (omega (arith, al.0)) al.1 in (x, (al.0, y));
    }

-- a request that is met makes of a row what `Reserved` says
abbrev pub Reserves : ℕ → ℕ → List Tile → Option (ℕ × List Tile) → Type 0
Reserves w at tiles none = Unit
Reserves w at tiles (some (b, tiles')) = Reserved w at tiles b tiles'

pub reserve_lem :
    (m : Blocks) (end w at : ℕ) (tiles : List Tile)
    → 0 < w
    → Tiled m end at tiles
    → Reserves w at tiles (reserve w at tiles)
unfolding reserve
reserve_lem m end w at [] pos t = tt
reserve_lem m end w at (used_tile s ∷ tiles) pos t =
    go (reserve w (at + s) tiles) (reserve_lem m end w (at + s) tiles pos t.2)
  where
    go :
        (r : Option (ℕ × List Tile))
        → Reserves w (at + s) tiles r
        → Reserves w at
            (used_tile s ∷ tiles)
            (Option.map {B = ℕ × List Tile} (λ x. (x.0, used_tile s ∷ x.1)) r)
    go none k = tt
    go (some (b, l)) k = Reserved-used w at s b tiles l t.1 k
reserve_lem m end w at (free_tile s ∷ tiles) pos t = elim (Bool-cases (leb w s)) [
  | inl fits ↦
      subst (Reserves w at (free_tile s ∷ tiles)) (sym (reserve_here w at s tiles fits))
        (Reserved-here w at s tiles pos (ground arith) t.2)
  | inr small ↦
      subst (Reserves w at (free_tile s ∷ tiles)) (sym (reserve_go w at s tiles small))
        (go (reserve w (at + s) tiles) (reserve_lem m end w (at + s) tiles pos t.3))
]
  where
    go :
        (r : Option (ℕ × List Tile))
        → Reserves w (at + s) tiles r
        → Reserves w at
            (free_tile s ∷ tiles)
            (Option.map {B = ℕ × List Tile} (λ x. (x.0, free_tile s ∷ x.1)) r)
    go none k = tt
    go (some (b, l)) k = Reserved-free w at s b tiles l t.1 t.2 k
