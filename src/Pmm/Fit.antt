-- ===== src/Pmm/Fit.antt =====
-- The walk of `default_alloc_pages` of kern/mm/default_pmm.c: it is first fit.
use oscmp.Base.{
  ℕ, zero, suc, ◌≤◌, ◌<◌, ◌≡◌, refl, ap, Option, none, some, List, [], ◌∷◌, ◌++◌, arith, leb,
  if◌then◌else◌, length, Fresh, Bool-cases, inl, inr,
}
use oscmp.Dlist.{Forward}
use oscmp.Pmm.Defs.{Pmm, Page, find_fit}
use oscmp.Pmm.Blocks.{Small}

-- First fit on the sequence of blocks.
abbrev pub first_fit : (ℕ → Page) → ℕ → List ℕ → Option ℕ
first_fit pages n [] = none
first_fit pages n (x ∷ xs) = if leb n (pages x).property then some x else first_fit pages n xs

-- The walk of the pointers finds what first fit finds.
pub find_fit-eq-first_fit :
    (xs : List ℕ) (fuel : ℕ) (m : Pmm) (a n : ℕ)
    → length xs < fuel
    → Forward m.links.next a xs 0
    → Fresh 0 xs
    → find_fit fuel m a n ≡ some (first_fit m.pages n xs)
unfolding find_fit
find_fit-eq-first_fit [] zero m a n h c f = absurd (omega arith)
find_fit-eq-first_fit [] (suc fuel) m a n h c f = ground arith
find_fit-eq-first_fit (x ∷ xs) zero m a n h c f = absurd (omega arith)
find_fit-eq-first_fit (x ∷ xs) (suc fuel) m a n h c f =
    ground (arith, find_fit-eq-first_fit xs fuel m x n)

-- `p` is the first block of at least `n` pages.
pub record FirstFit (pages : ℕ → Page) (n p : ℕ) (xs : List ℕ) : Type 0 where
  pub before : List ℕ
  pub after : List ℕ
  pub here : xs ≡ before ++ (p ∷ after)
  pub skipped : Small pages n before
  pub fits : n ≤ (pages p).property

pub first_fit-FirstFit :
    (pages : ℕ → Page) (n p : ℕ) (xs : List ℕ)
    → first_fit pages n xs ≡ some p
    → FirstFit pages n p xs
first_fit-FirstFit pages n p [] e = cc
first_fit-FirstFit pages n p (x ∷ xs) e = elim (Bool-cases (leb n (pages x).property)) [
  | inl t ↦ record {
    before = [];
    after = xs;
    here = ap (λ y. y ∷ xs) (ground arith);
    skipped = tt;
    fits = ground arith;
  }
  | inr t ↦
      let rest = first_fit-FirstFit pages n p xs (ground arith) in
      record {
        before = x ∷ rest.before;
        after = rest.after;
        here = ap (λ ys. x ∷ ys) rest.here;
        skipped = (ground arith, rest.skipped);
        fits = rest.fits;
      }
]

pub Small-first_fit :
    (pages : ℕ → Page) (n : ℕ) (xs : List ℕ) → Small pages n xs → first_fit pages n xs ≡ none
Small-first_fit pages n [] s = refl
Small-first_fit pages n (x ∷ xs) s = ground (arith, Small-first_fit pages n xs s.1)

pub first_fit-last :
    (pages : ℕ → Page) (n : ℕ) (xs : List ℕ) (b : ℕ)
    → Small pages n xs
    → (pages b).property ≡ n
    → first_fit pages n (xs ++ (b ∷ [])) ≡ some b
first_fit-last pages n [] b s e = ground arith
first_fit-last pages n (x ∷ xs) b s e = ground (arith, first_fit-last pages n xs b s.1 e)
