-- ===== src/Pmm/Free.antt =====
-- `default_free_pages` of kern/mm/default_pmm.c where a block above the freed one is free.
use oscmp.Base.{
  ℕ, ◌+◌, ◌^◌, ◌≤◌, ◌<◌, ◌≡◌, ◌≢◌, ◌∙◌, ◌-◌, ◌⊎◌, inl, inr, sym, true, ◌&&◌, ◌||◌, some, List, [],
  ◌∷◌, ◌++◌, arith, ltb, leb, update, length, Fresh, Fresh-append, Fresh-split, lt→ltb,
}
use oscmp.Dlist.{Links, IsList}
use oscmp.Pmm.Defs.{Pmm, Page, u32, edit, set_head, default_free_pages, merge_before, merge_after}
use oscmp.Pmm.Blocks.{
  Above, Blocks, IsValid, total-append, total-frame, Blocks-frame, Above-le, Above-Fresh, EndsBy,
  Blocks-split, Blocks-append, EndsBy-Fresh, EndsBy-frame, EndsBy-unframe,
}
use oscmp.Pmm.Join.{covers, covers-frame, covers-append}
use oscmp.Pmm.Release.{Releasable, Released, release_pages-Released}
use oscmp.Pmm.Merge.{merge_before-Kept, merge_after-Kept}
use oscmp.Pmm.Insert.{Below, insert_free_sorted}

-- The heap between the insertion of the freed block and the merges.
abbrev pub inserted : Pmm → (ℕ → Page) → Links → ℕ → ℕ → Pmm
inserted m pages links b n = record {
  pages = edit pages b (set_head n);
  links = links;
  nr_free = u32 (m.nr_free + n);
}

inserted-IsValid :
    (m : Pmm) (pages : ℕ → Page) (links : Links) (b n : ℕ) (l r : List ℕ)
    → IsValid m (l ++ r)
    → Blocks m.pages l
    → EndsBy m.pages l b
    → Blocks m.pages r
    → Above (b + n) r
    → 0 < n
    → m.nr_free + n < 2 ^ 32
    → Released m.pages pages l
    → Released m.pages pages r
    → IsList links 0 (l ++ (b ∷ r))
    → IsValid (inserted m pages links b n) (l ++ (b ∷ r))
inserted-IsValid m pages links b n l r v bl el br ab nz small dl dr il =
    let q : Page = set_head n (pages b) in
    let fl = EndsBy-Fresh m.pages l b b bl el (omega arith) in
    let fr = Above-Fresh (b + n) b r (omega arith) ab in
    let size : (update pages b q b).property ≡ n = ground arith in
    let flag : (update pages b q b).head ≡ true = ground arith in
    record {
      list = il;
      blocks =
          Blocks-append (update pages b q) l b (b ∷ r)
            (Blocks-frame pages b q l fl (dl.same_blocks bl))
            (EndsBy-frame pages b q l b fl (dl.same_ends b el))
            (omega arith, Above-le (b + n) b r (omega arith) ab)
            (
              flag,
              omega (arith, size),
              Above-le (b + n) _ r (omega (arith, size)) ab,
              Blocks-frame pages b q r fr (dr.same_blocks br),
            );
      counted = omega (
        arith,
        total-append (update pages b q) l (b ∷ r),
        total-frame pages b q l fl,
        total-frame pages b q r fr,
        dl.same_total,
        dr.same_total,
        total-append m.pages l r,
        v.counted,
        size,
      );
      small = omega arith;
    }

inserted-covers :
    (m : Pmm) (pages : ℕ → Page) (links : Links) (b n : ℕ) (l r : List ℕ) (k : ℕ)
    → n < 2 ^ 32
    → Fresh b l
    → Fresh b r
    → Released m.pages pages l
    → Released m.pages pages r
    → covers (inserted m pages links b n).pages (l ++ (b ∷ r)) k
      ≡ (covers m.pages (l ++ r) k || (leb b k && ltb k (b + n)))
inserted-covers m pages links b n l r k small fl fr dl dr =
    let q : Page = set_head n (pages b) in
    let size : (update pages b q b).property ≡ n = ground arith in
    ground (
      arith,
      covers-append (update pages b q) l (b ∷ r) k,
      covers-append m.pages l r k,
      covers-frame pages b q l k fl,
      covers-frame pages b q r k fr,
      dl.same_covers k,
      dr.same_covers k,
      size,
    )

pub EndsBy-Below : (pages : ℕ → Page) (xs : List ℕ) (b : ℕ) → EndsBy pages xs b → Below xs b
EndsBy-Below pages [] b e = tt
EndsBy-Below pages (x ∷ xs) b e = (omega arith, EndsBy-Below pages xs b e.1)

-- The block that the freed pages are in, between what is left of the blocks below and above.
merged :
    (pages pages' : ℕ → Page) (b b' n : ℕ) (l l' r' : List ℕ)
    → Fresh b l
    → Fresh b r'
    → Fresh (b + n) r'
    → Blocks pages' (l' ++ (b' ∷ r'))
    → 0 < n
    → b' ≤ b
    → (l' ++ (b' ∷ []) ≡ l) ⊎ ((l' ≡ l) × (b' ≡ b) × EndsBy pages l (b - 1))
    → Fresh (b + n) (l' ++ (b' ∷ r')) × (Fresh b (l' ++ (b' ∷ r')) ⊎ EndsBy pages l (b - 1))
merged pages pages' b b' n l l' r' fl fr gr bl nz le c =
    let (bl', el, _) = Blocks-split pages' l' b' r' bl in
    (
      Fresh-append (b + n) l' (b' ∷ r') (EndsBy-Fresh pages' l' b' (b + n) bl' el (omega arith))
          (omega arith, gr),
      elim c [
        | inl j ↦
            let (f, g) = Fresh-split b l' (b' ∷ []) (rw (sym j) at fl) in
            inl (Fresh-append b l' (b' ∷ r') f (g.0, fr))
        | inr (_, _, ends) ↦ inr ends
      ],
    )

-- Freeing `n` pages at `b` between the free blocks `l`, which end by `b`, and `y ∷ r`, which start
-- at `b + n` or above, keeps a valid heap valid: no page is lost or freed twice, `nr_free` grows by
-- `n`, and a page is free afterwards exactly if it was free before or is one of the `n`. The freed
-- pages are joined with the blocks that they touch: no block starts at `b + n` afterwards, and none
-- starts at `b` unless every block of `l` ended below `b`.
pub free_pages-IsValid :
    (fuel : ℕ) (m : Pmm) (b n : ℕ) (l : List ℕ) (y : ℕ) (r : List ℕ)
    → IsValid m (l ++ (y ∷ r))
    → length l < fuel
    → 0 < n
    → b ≢ 0
    → EndsBy m.pages l b
    → b + n ≤ y
    → Releasable n b m.pages
    → m.nr_free + n < 2 ^ 32
    → (m' : Pmm) × (xs : List ℕ) × (default_free_pages fuel m b n ≡ some m')
      × IsValid m' xs
      × (m'.nr_free ≡ m.nr_free + n)
      × ((k : ℕ)
          → covers m'.pages xs k ≡ (covers m.pages (l ++ (y ∷ r)) k || (leb b k && ltb k (b + n))))
      × Fresh (b + n) xs
      × (Fresh b xs ⊎ EndsBy m.pages l (b - 1))
unfolding default_free_pages
free_pages-IsValid fuel m b n l y r v h nz bz el le rel small =
    let (bl, _, br) = Blocks-split m.pages l y r v.blocks in
    let ab : Above (b + n) (y ∷ r) = (le, Above-le _ (b + n) r (omega (arith, br.1)) br.2) in
    let off_l = λ (k : ℕ) (p : b ≤ k). EndsBy-Fresh m.pages l b k bl el p in
    let off_r = λ (k : ℕ) (p : k < b + n). Above-Fresh (b + n) k (y ∷ r) p ab in
    let fl = off_l b (omega arith) in
    let fr = off_r b (omega arith) in
    let (links, ins, il) =
      insert_free_sorted fuel m.links b l y r v.list (EndsBy-Below m.pages l b el) (omega arith)
        (bz, Fresh-append b l (y ∷ r) fl fr) h in
    let (pages, released, same) = release_pages-Released n b m.pages rel in
    let dl = same l (λ k p _. off_l k p) in
    let dr = same (y ∷ r) (λ k _ p. off_r k p) in
    let m₁ = inserted m pages links b n in
    let v₁ = inserted-IsValid m pages links b n l (y ∷ r) v bl el br ab nz small dl dr il in
    let (l', k₁, (below, ends, sides)) = merge_before-Kept m₁ l b (y ∷ r) v₁ in
    let (m₂, b') : Pmm × ℕ = ((merge_before m₁ b).1, (merge_before m₁ b).0) in
    let (r', k₂, (gone, others)) = merge_after-Kept m₂ l' b' (y ∷ r) k₁.valid in
    let block_end : b' + (m₂.pages b').property ≡ b + n = ends ∙ ground arith in
    let before : (l' ++ (b' ∷ []) ≡ l) ⊎ ((l' ≡ l) × (b' ≡ b) × EndsBy m.pages l (b - 1)) =
      elim sides [
        | inl j ↦ inl j
        | inr (s, t, low) ↦
            inr (s, t, dl.same_ends_back (b - 1) (EndsBy-unframe pages b _ l (b - 1) fl low))
      ] in
    let (no_start, joined_below) =
      merged m.pages (merge_after m₂ b').pages b b' n l l' r' fl (others b fr)
        (rw block_end at gone) k₂.valid.blocks nz below before in
    (
      merge_after m₂ b',
      l' ++ (b' ∷ r'),
      rw (lt→ltb 0 n nz, released, ins),
      k₂.valid,
      k₂.nr_free ∙ k₁.nr_free ∙ omega arith,
      λ k.
          k₂.pages k
          ∙ k₁.pages k
          ∙ inserted-covers m pages links b n l (y ∷ r) k (omega arith) fl fr dl dr,
      no_start,
      joined_below,
    )
