-- ===== src/Pmm/Release.antt =====
-- The loop of `default_free_pages` of kern/mm/default_pmm.c over the freed pages.
use oscmp.Base.{
  ℕ, zero, suc, ◌+◌, ◌≤◌, ◌<◌, ◌≡◌, ◌∙◌, refl, false, some, List, arith, update, Fresh,
}
use oscmp.Pmm.Defs.{Page}
use oscmp.Pmm.Blocks.{
  total, Blocks, total-frame, Blocks-frame, EndsBy, EndsBy-frame, EndsBy-unframe, Small,
  Small-frame,
}
use oscmp.Pmm.Defs.{release_pages}
use oscmp.Pmm.Join.{covers, covers-frame}

-- The pages `p … p + n - 1` may be freed: none is reserved or heads a free block.
abbrev pub Releasable : ℕ → ℕ → (ℕ → Page) → Type 0
Releasable zero p pages = Unit
Releasable (suc n) p pages =
    ((pages p).reserved ≡ false) × ((pages p).head ≡ false) × Releasable n (p + 1) pages

-- Nothing of a list changes in a release of pages off the list.
pub record Released (pages pages' : ℕ → Page) (xs : List ℕ) : Type 0 where
  pub same_total : total pages' xs ≡ total pages xs
  pub same_blocks : Blocks pages xs → Blocks pages' xs
  pub same_ends : (k : ℕ) → EndsBy pages xs k → EndsBy pages' xs k
  pub same_ends_back : (k : ℕ) → EndsBy pages' xs k → EndsBy pages xs k
  pub same_small : (k : ℕ) → Small pages k xs → Small pages' k xs
  pub same_covers : (k : ℕ) → covers pages' xs k ≡ covers pages xs k

Releasable-frame :
    (n p i : ℕ) (q : Page) (pages : ℕ → Page)
    → i < p
    → Releasable n p pages
    → Releasable n p (update pages i q)
Releasable-frame zero p i q pages h r = tt
Releasable-frame (suc n) p i q pages h r =
    (ground arith, ground arith, Releasable-frame n (p + 1) i q pages (omega arith) r.2)

pub release_pages-Released :
    (n p : ℕ) (pages : ℕ → Page)
    → Releasable n p pages
    → (pages' : ℕ → Page) × (release_pages n p pages ≡ some pages')
      × ((xs : List ℕ) → ((k : ℕ) → p ≤ k → k < p + n → Fresh k xs) → Released pages pages' xs)
unfolding release_pages
release_pages-Released zero p pages r = (
  pages,
  refl,
  λ xs f. record {
    same_total = refl;
    same_blocks = λ b. b;
    same_ends = λ k e. e;
    same_ends_back = λ k e. e;
    same_small = λ k s. s;
    same_covers = λ k. refl;
  },
)
release_pages-Released (suc n) p pages r =
    let q : Page = record (pages p) { ref = 0; reserved = false; head = false } in
    let (pages', e, rest) =
      release_pages-Released n (p + 1) (update pages p q)
        (Releasable-frame n (p + 1) p q pages (omega arith) r.2) in
    (
      pages',
      rw (r.0, r.1) e,
      λ xs f.
          let g = f p (omega arith) (omega arith) in
          let d = rest xs (λ k h h'. f k (omega arith) (omega arith)) in
          record {
            same_total = d.same_total ∙ total-frame pages p q xs g;
            same_blocks = λ b. d.same_blocks (Blocks-frame pages p q xs g b);
            same_ends = λ k b. d.same_ends k (EndsBy-frame pages p q xs k g b);
            same_ends_back = λ k b. EndsBy-unframe pages p q xs k g (d.same_ends_back k b);
            same_small = λ k s. d.same_small k (Small-frame pages p q k xs g s);
            same_covers = λ k. d.same_covers k ∙ covers-frame pages p q xs k g;
          },
    )
