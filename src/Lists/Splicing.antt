-- ===== src/Lists/Splicing.antt =====
-- Putting an item between two neighbours, and taking one out, as changes of segments.
use freertos_in_rust.Prelude.{ℕ, ◌≡◌, sym, ◌∙◌, ◌≢◌, List, [], ◌∷◌, ◌++◌}
use freertos_in_rust.Lists.{Items}
use freertos_in_rust.Lists.Segments.{
  Seg, Fresh, Distinct, last, first, Fresh-append, last-Fresh, first-Fresh,
}

-- `m'` is `m` with the item `x` put between the neighbours `a` and `b`.
pub record Spliced (m m' : Items) (a x b : ℕ) : Type 0 where
  pub x_next : (m' x).next ≡ b
  pub x_previous : (m' x).previous ≡ a
  pub a_next : (m' a).next ≡ x
  pub b_previous : (m' b).previous ≡ x
  pub nexts : (r : ℕ) → r ≢ a → r ≢ x → (m' r).next ≡ (m r).next
  pub previouses : (r : ℕ) → r ≢ b → r ≢ x → (m' r).previous ≡ (m r).previous

-- `m'` is `m` with the neighbours `a` and `b` of an item linked to each other.
pub record Unspliced (m m' : Items) (a b : ℕ) : Type 0 where
  pub a_next : (m' a).next ≡ b
  pub b_previous : (m' b).previous ≡ a
  pub nexts : (r : ℕ) → r ≢ a → (m' r).next ≡ (m r).next
  pub previouses : (r : ℕ) → r ≢ b → (m' r).previous ≡ (m r).previous

-- A segment without `a`, `b` and `x` is kept if only the next item of `a`, the previous one of `b` and the
-- links of `x` change.
module _ (m m' : Items) (a x b : ℕ) (nexts : (r : ℕ) → r ≢ a → r ≢ x → (m' r).next ≡ (m r).next)
    (previouses : (r : ℕ) → r ≢ b → r ≢ x → (m' r).previous ≡ (m r).previous) where
  Seg-frame :
      (p q : ℕ) (xs : List ℕ)
      → Seg m p xs q
      → p ≢ a
      → Fresh a xs
      → Fresh b xs
      → q ≢ b
      → p ≢ x
      → Fresh x xs
      → q ≢ x
      → Seg m' p xs q
  Seg-frame p q [] t pa fa fb qb px fx qx = (nexts p pa px ∙ t.0, previouses q qb qx ∙ t.1)
  Seg-frame p q (y ∷ xs) t pa fa fb qb px fx qx = (
    nexts p pa px ∙ t.0,
    previouses y (λ e. absurd (fb.0 (sym e))) (λ e. absurd (fx.0 (sym e))) ∙ t.1,
    Seg-frame y q xs t.2 (λ e. absurd (fa.0 (sym e))) fa.1 fb.1 qb (λ e. absurd (fx.0 (sym e))) fx.1
        qx,
  )

module _ (m m' : Items) (x q : ℕ) where
  pub Seg-insert :
      (p : ℕ) (ys zs : List ℕ)
      → Spliced m m' (last p ys) x (first zs q)
      → Seg m p (ys ++ zs) q
      → Distinct (p ∷ (ys ++ zs))
      → Fresh q (ys ++ zs)
      → x ≢ p
      → Fresh x (ys ++ zs)
      → x ≢ q
      → Seg m' p (ys ++ x ∷ zs) q
  Seg-insert p [] [] s t d fq xp fx xq = (s.a_next, s.x_previous, (s.x_next, s.b_previous))
  Seg-insert p [] (z ∷ zs) s t d fq xp fx xq = (
    s.a_next,
    s.x_previous,
    (
      s.x_next,
      s.b_previous,
      Seg-frame m m' p x z s.nexts s.previouses z q zs t.2 (λ e. absurd (d.0.0 (sym e))) d.0.1 d.1.0
          fq.0 (λ e. absurd (fx.0 (sym e))) fx.1 (λ e. absurd (xq (sym e))),
    ),
  )
  Seg-insert p (y ∷ ys) zs s t d fq xp fx xq =
      let (fl, fr) = Fresh-append p ys zs d.0.1 in
      let (ql, qr) = Fresh-append y ys zs d.1.0 in
      (
        s.nexts p (λ e. absurd (last-Fresh y p ys d.0.0 fl (sym e))) (λ e. absurd (xp (sym e)))
            ∙ t.0,
        s.previouses y (first-Fresh q y zs (λ e. absurd (fq.0 (sym e))) qr)
              (λ e. absurd (fx.0 (sym e)))
            ∙ t.1,
        Seg-insert y ys zs s t.2 d.1 fq.1 fx.0 fx.1 xq,
      )

  pub Seg-remove :
      (p : ℕ) (ys zs : List ℕ)
      → Unspliced m m' (last p ys) (first zs q)
      → Seg m p (ys ++ x ∷ zs) q
      → Distinct (p ∷ (ys ++ x ∷ zs))
      → Fresh q (ys ++ x ∷ zs)
      → Seg m' p (ys ++ zs) q
  Seg-remove p [] [] s t d fq = (s.a_next, s.b_previous)
  Seg-remove p [] (z ∷ zs) s t d fq = (
    s.a_next,
    s.b_previous,
    Seg-frame m m' p x z (λ r h _. s.nexts r h) (λ r h _. s.previouses r h) z q zs t.2.2
        (λ e. absurd (d.0.1.0 (sym e))) d.0.1.1 d.1.1.0 fq.1.0 (λ e. absurd (d.1.0.0 (sym e)))
        d.1.0.1 fq.0,
  )
  Seg-remove p (y ∷ ys) zs s t d fq =
      let (fl, fr) = Fresh-append p ys (x ∷ zs) d.0.1 in
      let (ql, qr) = Fresh-append y ys (x ∷ zs) d.1.0 in
      (
        s.nexts p (λ e. absurd (last-Fresh y p ys d.0.0 fl (sym e))) ∙ t.0,
        s.previouses y (first-Fresh q y zs (λ e. absurd (fq.0 (sym e))) qr.1) ∙ t.1,
        Seg-remove y ys zs s t.2 d.1 fq.1,
      )
