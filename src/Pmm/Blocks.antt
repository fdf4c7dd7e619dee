-- ===== src/Pmm/Blocks.antt =====
-- What the free list of kern/mm/default_pmm.c holds when it is well formed: blocks in the order of
-- their addresses that do not overlap, and `nr_free` pages in all.
use oscmp.Base.{ℕ, ◌+◌, ◌^◌, ◌≤◌, ◌<◌, ◌≡◌, refl, true, List, [], ◌∷◌, ◌++◌, arith, update, Fresh}
use oscmp.Dlist.{IsList}
use oscmp.Pmm.Defs.{Pmm, Page}

-- The pages of the blocks of a list, counted by `property`.
abbrev pub total : (ℕ → Page) → List ℕ → ℕ
total pages [] = 0
total pages (x ∷ xs) = (pages x).property + total pages xs

-- Every block of the list starts at `k` or above.
abbrev pub Above : ℕ → List ℕ → Type 0
Above k [] = Unit
Above k (y ∷ ys) = (k ≤ y) × Above k ys

-- Each block is flagged, is not empty, and ends before every block behind it starts.
abbrev pub Blocks : (ℕ → Page) → List ℕ → Type 0
Blocks pages [] = Unit
Blocks pages (x ∷ xs) =
    ((pages x).head ≡ true)
    × (0 < (pages x).property)
    × Above (x + (pages x).property) xs
    × Blocks pages xs

pub record IsValid (m : Pmm) (xs : List ℕ) : Type 0 where
  pub list : IsList m.links 0 xs
  pub blocks : Blocks m.pages xs
  pub counted : total m.pages xs ≡ m.nr_free
  pub small : m.nr_free < 2 ^ 32

pub total-append :
    (pages : ℕ → Page) (xs ys : List ℕ) → total pages (xs ++ ys) ≡ total pages xs + total pages ys
total-append pages [] ys = omega arith
total-append pages (x ∷ xs) ys = omega (arith, total-append pages xs ys)

-- A write of a descriptor off the list changes nothing of the list.
pub total-frame :
    (pages : ℕ → Page) (i : ℕ) (q : Page) (xs : List ℕ)
    → Fresh i xs
    → total (update pages i q) xs ≡ total pages xs
total-frame pages i q [] f = refl
total-frame pages i q (x ∷ xs) f = ground (arith, total-frame pages i q xs f.1)

pub Blocks-frame :
    (pages : ℕ → Page) (i : ℕ) (q : Page) (xs : List ℕ)
    → Fresh i xs
    → Blocks pages xs
    → Blocks (update pages i q) xs
Blocks-frame pages i q [] f b = tt
Blocks-frame pages i q (x ∷ xs) f b =
    (ground arith, ground arith, ground arith, Blocks-frame pages i q xs f.1 b.3)

pub Above-append : (k : ℕ) (xs ys : List ℕ) → Above k xs → Above k ys → Above k (xs ++ ys)
Above-append k [] ys a b = b
Above-append k (x ∷ xs) ys a b = (a.0, Above-append k xs ys a.1 b)

pub Above-split : (k : ℕ) (xs ys : List ℕ) → Above k (xs ++ ys) → Above k xs × Above k ys
Above-split k [] ys a = (tt, a)
Above-split k (x ∷ xs) ys a = let (b, c) = Above-split k xs ys a.1 in ((a.0, b), c)

pub Above-le : (k k' : ℕ) (xs : List ℕ) → k' ≤ k → Above k xs → Above k' xs
Above-le k k' [] h a = tt
Above-le k k' (x ∷ xs) h a = (omega arith, Above-le k k' xs h a.1)

pub Above-Fresh : (k n : ℕ) (xs : List ℕ) → n < k → Above k xs → Fresh n xs
Above-Fresh k n [] h a = tt
Above-Fresh k n (x ∷ xs) h a = (omega arith, Above-Fresh k n xs h a.1)

-- A valid list cut at a block: what lies before ends before the block, and is valid.
abbrev pub EndsBy : (ℕ → Page) → List ℕ → ℕ → Type 0
EndsBy pages [] k = Unit
EndsBy pages (x ∷ xs) k = (x + (pages x).property ≤ k) × EndsBy pages xs k

pub Blocks-split :
    (pages : ℕ → Page) (xs : List ℕ) (y : ℕ) (ys : List ℕ)
    → Blocks pages (xs ++ (y ∷ ys))
    → Blocks pages xs × EndsBy pages xs y × Blocks pages (y ∷ ys)
Blocks-split pages [] y ys b = (tt, tt, b)
Blocks-split pages (x ∷ xs) y ys b =
    let (u, v) = Above-split (x + (pages x).property) xs (y ∷ ys) b.2 in
    let (c, e, d) = Blocks-split pages xs y ys b.3 in ((b.0, b.1, u, c), (v.0, e), d)

pub Blocks-append :
    (pages : ℕ → Page) (xs : List ℕ) (k : ℕ) (ys : List ℕ)
    → Blocks pages xs
    → EndsBy pages xs k
    → Above k ys
    → Blocks pages ys
    → Blocks pages (xs ++ ys)
Blocks-append pages [] k ys b e a c = c
Blocks-append pages (x ∷ xs) k ys b e a c = (
  b.0,
  b.1,
  Above-append (x + (pages x).property) xs ys b.2 (Above-le k _ ys e.0 a),
  Blocks-append pages xs k ys b.3 e.1 a c,
)

-- A block that ends by `k` does not start at `k` or above it.
pub EndsBy-Fresh :
    (pages : ℕ → Page) (xs : List ℕ) (k n : ℕ)
    → Blocks pages xs
    → EndsBy pages xs k
    → k ≤ n
    → Fresh n xs
EndsBy-Fresh pages [] k n b e h = tt
EndsBy-Fresh pages (x ∷ xs) k n b e h = (omega arith, EndsBy-Fresh pages xs k n b.3 e.1 h)

pub EndsBy-frame :
    (pages : ℕ → Page) (i : ℕ) (q : Page) (xs : List ℕ) (k : ℕ)
    → Fresh i xs
    → EndsBy pages xs k
    → EndsBy (update pages i q) xs k
EndsBy-frame pages i q [] k f e = tt
EndsBy-frame pages i q (x ∷ xs) k f e = (ground arith, EndsBy-frame pages i q xs k f.1 e.1)

pub EndsBy-unframe :
    (pages : ℕ → Page) (i : ℕ) (q : Page) (xs : List ℕ) (k : ℕ)
    → Fresh i xs
    → EndsBy (update pages i q) xs k
    → EndsBy pages xs k
EndsBy-unframe pages i q [] k f e = tt
EndsBy-unframe pages i q (x ∷ xs) k f e = (ground arith, EndsBy-unframe pages i q xs k f.1 e.1)

pub EndsBy-le :
    (pages : ℕ → Page) (xs : List ℕ) (k k' : ℕ) → k ≤ k' → EndsBy pages xs k → EndsBy pages xs k'
EndsBy-le pages [] k k' h e = tt
EndsBy-le pages (x ∷ xs) k k' h e = (omega arith, EndsBy-le pages xs k k' h e.1)

pub EndsBy-append :
    (pages : ℕ → Page) (xs ys : List ℕ) (k : ℕ)
    → EndsBy pages xs k
    → EndsBy pages ys k
    → EndsBy pages (xs ++ ys) k
EndsBy-append pages [] ys k e f = f
EndsBy-append pages (x ∷ xs) ys k e f = (e.0, EndsBy-append pages xs ys k e.1 f)

-- Every block of the list has fewer than `n` pages.
abbrev pub Small : (ℕ → Page) → ℕ → List ℕ → Type 0
Small pages n [] = Unit
Small pages n (x ∷ xs) = ((pages x).property < n) × Small pages n xs

pub Small-frame :
    (pages : ℕ → Page) (i : ℕ) (q : Page) (n : ℕ) (xs : List ℕ)
    → Fresh i xs
    → Small pages n xs
    → Small (update pages i q) n xs
Small-frame pages i q n [] f s = tt
Small-frame pages i q n (x ∷ xs) f s = (ground arith, Small-frame pages i q n xs f.1 s.1)
