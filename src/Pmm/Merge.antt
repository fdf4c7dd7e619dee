-- ===== src/Pmm/Merge.antt =====
-- `merge_before` and `merge_after` of kern/mm/default_pmm.c keep a valid heap valid.
use oscmp.Base.{
  ℕ, ◌+◌, ◌-◌, ◌<◌, ◌≤◌, ◌≡◌, ◌∙◌, refl, ap, false, List, [], ◌∷◌, ◌++◌, arith, ◌==◌, Bool-cases,
  inl, inr, ◌⊎◌, Fresh, Fresh-split,
}
use mathlib.Core.List.{append_assoc}
use oscmp.Dlist.{Chain-cut, last_or, Chain-split}
use oscmp.Pmm.Defs.{Pmm, merge_before, merge_after}
use oscmp.Pmm.Blocks.{IsValid, Above-Fresh, Blocks-split, EndsBy, EndsBy-le, EndsBy-append}
use oscmp.Pmm.Join.{covers, join}

-- What a merge leaves of a heap: it is valid, with as many free pages, the same ones.
pub record Kept (m : Pmm) (xs : List ℕ) (m' : Pmm) (xs' : List ℕ) : Type 0 where
  pub valid : IsValid m' xs'
  pub nr_free : m'.nr_free ≡ m.nr_free
  pub pages : (k : ℕ) → covers m'.pages xs' k ≡ covers m.pages xs k

-- No block of `r'` starts where the block `b` ended, and none that was not in `r`.
abbrev After : Pmm → ℕ → List ℕ → List ℕ → Type 0
After m b r r' = Fresh (b + (m.pages b).property) r' × ((k : ℕ) → Fresh k r → Fresh k r')

pub merge_after-Kept :
    (m : Pmm) (l : List ℕ) (b : ℕ) (r : List ℕ)
    → IsValid m (l ++ (b ∷ r))
    → (r' : List ℕ) × Kept m (l ++ (b ∷ r)) (merge_after m b) (l ++ (b ∷ r')) × After m b r r'
unfolding merge_after
merge_after-Kept m l b [] v =
    let (_, c) = Chain-split m.links 0 l (b ∷ []) 0 v.list.chain in
    let e : m.links.next b ≡ 0 = c.2.0 in
    ([], rw e (record { valid = v; nr_free = refl; pages = λ k. refl }), (tt, λ k f. f))
merge_after-Kept m l b (q ∷ r) v =
    let (_, c) = Chain-split m.links 0 l (b ∷ q ∷ r) 0 v.list.chain in
    let e : m.links.next b ≡ q = c.2.0 in
    let (_, f) = Fresh-split 0 l (b ∷ q ∷ r) v.list.distinct.0 in
    let z : (q == 0) ≡ false = ground arith in
    let (_, _, bb) = Blocks-split m.pages l b (q ∷ r) v.blocks in
    let beyond = λ (k : ℕ) (h : k < q + (m.pages q).property). Above-Fresh _ k r h bb.3.2 in
    elim (Bool-cases (b + (m.pages b).property == q)) [
      | inl t ↦
          let j = join m l b q r v (ground arith) in
          (
            r,
            rw (e, z, t) (record { valid = j.valid; nr_free = refl; pages = j.pages }),
            (beyond _ (ground (arith, t, bb.3.1)), λ k f. f.1),
          )
      | inr t ↦ (
        q ∷ r,
        rw (e, z, t) (record { valid = v; nr_free = refl; pages = λ k. refl }),
        ((ground (arith, t), beyond _ (omega (arith, bb.2.0, bb.3.1))), λ k f. f),
      )
    ]

-- A list is empty or ends with an element.
pub snoc-cases : (xs : List ℕ) → (xs ≡ []) ⊎ ((ys : List ℕ) × (y : ℕ) × (xs ≡ ys ++ (y ∷ [])))
snoc-cases [] = inl refl
snoc-cases (x ∷ xs) = elim (snoc-cases xs) [
  | inl e ↦ inr ([], x, ap (λ t. x ∷ t) e)
  | inr (ys, y, e) ↦ inr (x ∷ ys, y, ap (λ t. x ∷ t) e)
]

last_or-snoc : (a : ℕ) (xs : List ℕ) (x : ℕ) → last_or a (xs ++ (x ∷ [])) ≡ x
last_or-snoc a [] x = refl
last_or-snoc a (y ∷ xs) x = last_or-snoc y xs x

-- The block that holds `b` after a merge: it ends where `b` ended. Either it was the last one before
-- `b`, or every block before `b` ended below `b`.
abbrev Before : Pmm → List ℕ → ℕ → Pmm → List ℕ → ℕ → Type 0
Before m l b m' l' b' =
    (b' ≤ b)
    × (b' + (m'.pages b').property ≡ b + (m.pages b).property)
    × ((l' ++ (b' ∷ []) ≡ l) ⊎ ((l' ≡ l) × (b' ≡ b) × EndsBy m.pages l (b - 1)))

merge_before-first : (m : Pmm) (b : ℕ) (r : List ℕ) → IsValid m (b ∷ r) → merge_before m b ≡ (b, m)
unfolding merge_before
merge_before-first m b r v = let e : m.links.prev b ≡ 0 = v.list.chain.1 in rw e

merge_before-inner :
    (m : Pmm) (l : List ℕ) (p b : ℕ) (r : List ℕ)
    → IsValid m (l ++ (p ∷ b ∷ r))
    → (l' : List ℕ) × Kept m
        (l ++ (p ∷ b ∷ r))
        (merge_before m b).1
        (l' ++ ((merge_before m b).0 ∷ r))
      × Before m (l ++ (p ∷ [])) b (merge_before m b).1 l' (merge_before m b).0
unfolding merge_before
merge_before-inner m l p b r v =
    let e : m.links.prev b ≡ p =
      (Chain-cut m.links 0 (l ++ (p ∷ [])) (b ∷ r) 0
        (rw (append_assoc l (p ∷ []) (b ∷ r)) v.list.chain)).1
      ∙ last_or-snoc 0 l p in
    let (_, f) = Fresh-split 0 l (p ∷ b ∷ r) v.list.distinct.0 in
    let z : (p == 0) ≡ false = ground arith in
    let (_, el, bp) = Blocks-split m.pages l p (b ∷ r) v.blocks in
    elim (Bool-cases (p + (m.pages p).property == b)) [
      | inl t ↦
          let j = join m l p b r v (ground arith) in
          (
            l,
            rw (e, z, t) (record { valid = j.valid; nr_free = refl; pages = j.pages }),
            rw (e, z, t) (omega (arith, bp.2.0), ground (arith, j.size, t), inl refl),
          )
      | inr t ↦ (
        l ++ (p ∷ []),
        rw (e, z, t, append_assoc) (record { valid = v; nr_free = refl; pages = λ k. refl }),
        rw (e, z, t)
            (
              omega arith,
              refl,
              inr (
                refl,
                refl,
                EndsBy-append m.pages l (p ∷ []) (b - 1)
                    (EndsBy-le m.pages l p (b - 1) (omega (arith, bp.1, bp.2.0)) el)
                    (ground (arith, t, bp.2.0), tt),
              ),
            ),
      )
    ]

pub merge_before-Kept :
    (m : Pmm) (l : List ℕ) (b : ℕ) (r : List ℕ)
    → IsValid m (l ++ (b ∷ r))
    → (l' : List ℕ) × Kept m (l ++ (b ∷ r)) (merge_before m b).1 (l' ++ ((merge_before m b).0 ∷ r))
      × Before m l b (merge_before m b).1 l' (merge_before m b).0
merge_before-Kept m l b r v = elim (snoc-cases l) [
  | inl e ↦ (
    [],
    rw (e, merge_before-first m b r (rw e at v))
        (record { valid = rw e at v; nr_free = refl; pages = λ k. refl }),
    rw (e, merge_before-first m b r (rw e at v)) (omega arith, refl, inr (refl, refl, tt)),
  )
  | inr (l₀, p, e) ↦
      rw (e, append_assoc) (merge_before-inner m l₀ p b r (rw append_assoc at (rw e at v)))
]
