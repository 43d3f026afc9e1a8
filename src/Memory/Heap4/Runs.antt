-- ===== src/Memory/Heap4/Runs.antt =====
-- Runs of the heap: its blocks are those of the clients, and are never lost.
use mathlib.Core.List.{Perm, mem-cons_self}
use mathlib.Core.List.Perm
use mathlib.Core.Path.{subst}
use freertos_in_rust.Prelude.{
  ℕ, ◌+◌, ◌-◌, ◌≤◌, ◌≡◌, refl, sym, ◌∙◌, ◌≢◌, ◌⊎◌, inl, inr, Option, none, some, List, [], ◌∷◌,
  arith,
}
use freertos_in_rust.Memory.Heap4.{heap_struct_size, Statics, Heap, heap_init, malloc, free}
use freertos_in_rust.Memory.Heap4.Tiles.{Tile, free_tile, used_size, release}
use freertos_in_rust.Memory.Heap4.Rows.{used_pointers}
use freertos_in_rust.Memory.Heap4.Given.{release_lem, used_size-pointer, one_free}
use freertos_in_rust.Memory.Heap4.Shape.{IsHeap}
use freertos_in_rust.Memory.Heap4.Malloc.{allocate, Met, malloc-refines}
use freertos_in_rust.Memory.Heap4.Free.{free-refines}
use freertos_in_rust.Memory.Heap4.Init.{IsPlaced, heap_start, heap_end, heap_init-IsHeap}
use freertos_in_rust.Memory.Heap4.Blocks.{given}

-- A run of the heap from `h₀` on, with the pointers that are allocated: requests of any size, and frees
-- of allocated pointers.
pub data Run (st : Statics) (h₀ : Heap) : List ℕ → Heap → Type 0 where
  start : Run st h₀ [] h₀
  allocates :
      {live : List ℕ} {h : Heap}
      → Run st h₀ live h
      → (n p : ℕ) (h' : Heap) → malloc st h n ≡ some (p, h')
      → p ≢ 0
      → Run st h₀ (p ∷ live) h'
  refuses :
      {live : List ℕ} {h : Heap}
      → Run st h₀ live h
      → (n : ℕ) (h' : Heap) → malloc st h n ≡ some (0, h')
      → Run st h₀ live h'
  frees :
      {live : List ℕ} {h : Heap}
      → Run st h₀ live h
      → (p : ℕ) (rest : List ℕ) → Perm live (p ∷ rest)
      → (h' : Heap) → free st h p ≡ some h'
      → Run st h₀ rest h'

-- The row that a heap is in a run, and its used blocks, which are those of the allocated pointers.
abbrev pub Stands : Statics → ℕ → List ℕ → Heap → Type 0
Stands st lo live h =
    (tiles : List Tile) × IsHeap st lo h tiles × Perm (used_pointers lo tiles) live

module _ (st : Statics) (lo : ℕ) where
  Stands-allocated :
      (live : List ℕ) (h : Heap) (n p : ℕ) (h' : Heap)
      → Stands st lo live h
      → malloc st h n ≡ some (p, h')
      → p ≢ 0
      → Stands st lo (p ∷ live) h'
  Stands-allocated live h n p h' (tiles, r, same) e np =
      let g = given st lo n h tiles r p h' e np in
      (
        g.row,
        g.heap,
        subst (λ x. Perm (used_pointers lo g.row) (x ∷ live)) (sym g.pointer)
            (Perm.trans g.reserved.pointers (Perm.cons (g.block + heap_struct_size) same)),
      )

  Stands-refused :
      (live : List ℕ) (h : Heap) (n : ℕ) (h' : Heap)
      → Stands st lo live h
      → malloc st h n ≡ some (0, h')
      → Stands st lo live h'
  Stands-refused live h n h' (tiles, r, same) e =
      go (allocate n lo tiles) (malloc-refines st lo h tiles r n)
    where
      go : (x : Option (ℕ × List Tile)) → Met st lo h (malloc st h n) x → Stands st lo live h'
      go none k =
          let one : h ≡ h' = ground arith in (tiles, subst (λ x. IsHeap st lo x tiles) one r, same)
      go (some (b, l)) (h1, k, _, _, _) = absurd (ground arith)

  Stands-freed :
      (live : List ℕ) (h : Heap) (p : ℕ) (rest : List ℕ) (h' : Heap)
      → Stands st lo live h
      → Perm live (p ∷ rest)
      → free st h p ≡ some h'
      → Stands st lo rest h'
  Stands-freed live h p rest h' (tiles, r, same) perm e =
      let (large, some_size) =
        used_size-pointer p lo tiles
          ((Perm.mem_iff (Perm.symm (Perm.trans same perm))).0 (mem-cons_self)) in
      go (used_size (p - heap_struct_size) lo tiles) refl large some_size
    where
      go :
          (x : Option ℕ)
          → used_size (p - heap_struct_size) lo tiles ≡ x
          → heap_struct_size ≤ p
          → used_size (p - heap_struct_size) lo tiles ≢ none
          → Stands st lo rest h'
      go none q large ns = absurd (ns q)
      go (some k) q large ns =
          let b = p - heap_struct_size in
          let pointer : b + heap_struct_size ≡ p = omega arith in
          let (h1, done, heap, _) = free-refines st lo h tiles r b k q in
          let one : h1 ≡ h' = ground (arith, done, e) in
          let back = release_lem b k lo tiles q in
          (
            release b lo tiles,
            subst (λ x. IsHeap st lo x (release b lo tiles)) one heap,
            Perm.cons_inv (
                Perm.trans
                  (Perm.symm (
                    subst
                      (λ x.
                        Perm (used_pointers lo tiles) (x ∷ used_pointers lo (release b lo tiles)))
                      pointer back.pointers))
                  (Perm.trans same perm)),
          )

  Run-Stands :
      {h₀ : Heap} {live : List ℕ} {h : Heap}
      → Stands st lo [] h₀
      → Run st h₀ live h
      → Stands st lo live h
  Run-Stands s start = s
  Run-Stands s (allocates run n p h' e np) = Stands-allocated _ _ n p h' (Run-Stands s run) e np
  Run-Stands s (refuses run n h' e) = Stands-refused _ _ n h' (Run-Stands s run) e
  Run-Stands s (frees run p rest perm h' e) = Stands-freed _ _ p rest h' (Run-Stands s run) perm e

free_null : (st : Statics) (h : Heap) (p : ℕ) → p ≡ 0 → free st h p ≡ some h
unfolding free
free_null st h p e = ground arith

-- The heap after the first initialisation.
module _ (st : Statics) (c : IsPlaced st) (h₀ : Heap) where
  fresh : Stands st (heap_start st) [] (heap_init st h₀)
  fresh = (free_tile (heap_end st - heap_start st) ∷ [], heap_init-IsHeap st h₀ c, Perm.nil)

  -- In every run of requests and frees from the initialised heap on, the heap stands for a row of blocks
  -- whose used ones are those of the pointers allocated and not yet freed.
  pub Run-IsHeap :
      (live : List ℕ) (h : Heap)
      → Run st (heap_init st h₀) live h
      → Stands st (heap_start st) live h
  Run-IsHeap live h run = Run-Stands st (heap_start st) fresh run

  -- When every allocated pointer has been freed, in whatever order, the heap is one free block again, and
  -- all bytes are free.
  pub Run-all_freed :
      (h : Heap)
      → Run st (heap_init st h₀) [] h
      → IsHeap st (heap_start st) h (free_tile (h.end - heap_start st) ∷ [])
        × (h.free_bytes_remaining ≡ h.end - heap_start st)
  Run-all_freed h run =
      let (tiles, r, none_used) = Run-IsHeap [] h run in
      let whole =
        subst (IsHeap st (heap_start st) h)
          (one_free h.blocks h.end (heap_start st) tiles r.inside r.row (Perm.eq-nil none_used))
          r in
      (whole, whole.free_bytes_right ∙ omega arith)

  -- In every run of requests and frees from the initialised heap on, the next request, of any size, and
  -- the free of any allocated pointer or of null end: their loops do not use up their rounds.
  pub Run-ends :
      (live : List ℕ) (h : Heap)
      → Run st (heap_init st h₀) live h
      → (n p : ℕ) (rest : List ℕ) → (p ≡ 0) ⊎ Perm live (p ∷ rest)
      → (malloc st h n ≢ none) × (free st h p ≢ none)
  Run-ends live h run n p rest pointer =
      let (tiles, r, same) = Run-IsHeap live h run in
      (
        met (allocate n (heap_start st) tiles) (malloc-refines st (heap_start st) h tiles r n),
        elim pointer [
          | inl null ↦ λ z. absurd (let e = free_null st h p null in ground arith)
          | inr perm ↦
              let (large, used) =
                used_size-pointer p (heap_start st) tiles
                  ((Perm.mem_iff (Perm.symm (Perm.trans same perm))).0 mem-cons_self) in
              freed r (used_size (p - heap_struct_size) (heap_start st) tiles) refl large used
        ],
      )
    where
      met :
          (x : Option (ℕ × List Tile))
          → Met st (heap_start st) h (malloc st h n) x
          → malloc st h n ≢ none
      met none e z = absurd (ground arith)
      met (some (b, l)) (h', e, _, _, _) z = absurd (ground arith)

      freed :
          {tiles : List Tile}
          → IsHeap st (heap_start st) h tiles
          → (x : Option ℕ) → used_size (p - heap_struct_size) (heap_start st) tiles ≡ x
          → heap_struct_size ≤ p
          → used_size (p - heap_struct_size) (heap_start st) tiles ≢ none
          → free st h p ≢ none
      freed r none q large used z = used q
      freed {tiles} r (some k) q large used z =
          let (h', done, _, _) =
            free-refines st (heap_start st) h tiles r (p - heap_struct_size) k q in
          let pointer : p - heap_struct_size + heap_struct_size ≡ p = omega arith in
          absurd (ground arith)
