-- ===== src/Pmm/Insert.antt =====
-- Where `default_free_pages` and `default_init_memmap` put a block.
use oscmp.Base.{
  ℕ, zero, suc, ◌+◌, ◌≤◌, ◌<◌, ◌≡◌, ◌≢◌, ◌∙◌, refl, some, List, [], ◌∷◌, ◌++◌, arith, length, Fresh,
}
use mathlib.Core.List.{append-nil}
use oscmp.Dlist.{
  Forward, Forward-same, Chain-Forward, Links, IsList, Chain, last_or, list_add, list_add_after,
  list_add_before, list_del, list_empty, list_empty_iff, list_add-next, list_add_self,
  list_del-next_self, list_add_before-IsList, list_add_after-IsList,
}
use oscmp.Pmm.Defs.{insert_walk, insert_free}

-- Every block of the list starts at or below `b`.
abbrev pub Below : List ℕ → ℕ → Type 0
Below [] b = Unit
Below (x ∷ xs) b = (x ≤ b) × Below xs b

-- The walk passes the blocks below `base`, and stops at the first one above it.
walk_stops :
    (xs : List ℕ) (fuel : ℕ) (s : Links) (a base y : ℕ) (ys : List ℕ)
    → length xs < fuel
    → Chain s a (xs ++ (y ∷ ys)) 0
    → Fresh 0 (xs ++ (y ∷ ys))
    → Below xs base
    → base < y
    → insert_walk fuel s a base ≡ some (list_add_before s y base)
unfolding insert_walk
walk_stops [] zero s a base y ys h c f b lt = absurd (omega arith)
walk_stops [] (suc fuel) s a base y ys h c f b lt = ground arith
walk_stops (x ∷ xs) zero s a base y ys h c f b lt = absurd (omega arith)
walk_stops (x ∷ []) (suc fuel) s a base y ys h c f b lt =
    ground (arith, walk_stops [] fuel s x base y ys)
walk_stops (x ∷ x' ∷ xs) (suc fuel) s a base y ys h c f b lt =
    ground (arith, walk_stops (x' ∷ xs) fuel s x base y ys)

walk_end :
    (fuel : ℕ) (s : Links) (a base : ℕ) → s.next a ≡ 0 → insert_walk (suc fuel) s a base ≡ some s
unfolding insert_walk
walk_end fuel s a base e = ground arith

walk_last :
    (fuel : ℕ) (s : Links) (a x base : ℕ)
    → s.next a ≡ x
    → x ≢ 0
    → x ≤ base
    → s.next x ≡ 0
    → insert_walk (suc fuel) s a base ≡ insert_walk fuel (list_add s x base) x base
unfolding insert_walk
walk_last fuel s a x base e nz le z = ground arith

walk_pass :
    (fuel : ℕ) (s : Links) (a x base : ℕ)
    → s.next a ≡ x
    → x ≢ 0
    → x ≤ base
    → s.next x ≢ 0
    → insert_walk (suc fuel) s a base ≡ insert_walk fuel s x base
unfolding insert_walk
walk_pass fuel s a x base e nz le z = ground arith

-- With every block below `base` the walk adds `base` behind the last block, and once more behind
-- itself.
walk_runs_out :
    (xs : List ℕ) (x fuel : ℕ) (s : Links) (a base : ℕ)
    → length xs + 2 < fuel
    → Chain s a (x ∷ xs) 0
    → Fresh 0 (x ∷ xs)
    → Below (x ∷ xs) base
    → Fresh base (0 ∷ x ∷ xs)
    → insert_walk fuel s a base ≡ some (list_add (list_add s (last_or x xs) base) base base)
walk_runs_out [] x (suc (suc (suc fuel))) s a base h c f b fb =
    let t = list_add s x base in
    let (nx, nb) = list_add-next s x base fb.1.0 in
    let (_, nn) = list_add_self t base base in
    walk_last (suc (suc fuel)) s a x base c.0 (omega arith) b.0 c.2.0
    ∙ walk_last (suc fuel) t x base base nx fb.0 (omega arith) (nb ∙ c.2.0)
    ∙ walk_end fuel (list_add t base base) base base (nn ∙ nb ∙ c.2.0)
walk_runs_out (x' ∷ xs) x (suc fuel) s a base h c f b fb =
    walk_pass fuel s a x base c.0 (omega arith) b.0 (omega arith)
    ∙ walk_runs_out xs x' fuel s x base (omega arith) c.2 f.1 b.1 (fb.0, fb.1.1)
walk_runs_out _ x _ s a base h c f b fb = absurd (omega arith)

insert_free_walk :
    (fuel : ℕ) (s : Links) (base x : ℕ) (xs : List ℕ)
    → IsList s 0 (x ∷ xs)
    → insert_free fuel s base ≡ insert_walk fuel s 0 base
unfolding insert_free list_empty
insert_free_walk fuel s base x xs l = ground arith

-- Into an empty free list `base` goes alone.
pub insert_free_empty :
    (fuel : ℕ) (s : Links) (base : ℕ)
    → IsList s 0 []
    → base ≢ 0
    → (s' : Links) × (insert_free fuel s base ≡ some s') × IsList s' 0 (base ∷ [])
unfolding insert_free list_add
insert_free_empty fuel s base l nz = (
  list_add_after s 0 base,
  rw ((list_empty_iff s 0 [] l).1 refl),
  list_add_after-IsList s 0 [] [] base l (nz, tt),
)

insert_free_stops :
    (fuel : ℕ) (s : Links) (base : ℕ) (xs : List ℕ) (y : ℕ) (ys : List ℕ)
    → IsList s 0 (xs ++ (y ∷ ys))
    → Below xs base
    → base < y
    → length xs < fuel
    → insert_free fuel s base ≡ some (list_add_before s y base)
insert_free_stops fuel s base [] y ys l b lt h =
    insert_free_walk fuel s base y ys l
    ∙ walk_stops [] fuel s 0 base y ys h l.chain l.distinct.0 b lt
insert_free_stops fuel s base (x ∷ xs) y ys l b lt h =
    insert_free_walk fuel s base x (xs ++ (y ∷ ys)) l
    ∙ walk_stops (x ∷ xs) fuel s 0 base y ys h l.chain l.distinct.0 b lt

-- If the free list holds a block above `base`, then `base` is put right before the first such block,
-- where it keeps the list sorted, and the list stays whole in both directions.
pub insert_free_sorted :
    (fuel : ℕ) (s : Links) (base : ℕ) (xs : List ℕ) (y : ℕ) (ys : List ℕ)
    → IsList s 0 (xs ++ (y ∷ ys))
    → Below xs base
    → base < y
    → Fresh base (0 ∷ (xs ++ (y ∷ ys)))
    → length xs < fuel
    → (s' : Links) × (insert_free fuel s base ≡ some s') × IsList s' 0 (xs ++ (base ∷ y ∷ ys))
insert_free_sorted fuel s base xs y ys l b lt f h = (
  list_add_before s y base,
  insert_free_stops fuel s base xs y ys l b lt h,
  list_add_before-IsList s 0 xs (y ∷ ys) base l f,
)

-- If every block of a free list that is not empty lies below `base`, then the `next` pointers lead
-- through the old blocks to `base` and end there, but `base` is left as its own predecessor; a later
-- `list_del` of `base` changes no `next` pointer, so that the list still leads to `base`.
pub insert_free_highest :
    (fuel : ℕ) (s : Links) (base x : ℕ) (xs : List ℕ)
    → IsList s 0 (x ∷ xs)
    → Below (x ∷ xs) base
    → Fresh base (0 ∷ x ∷ xs)
    → length xs + 2 < fuel
    → (s' : Links) × (insert_free fuel s base ≡ some s')
      × (s'.prev base ≡ base)
      × Forward s'.next 0 (x ∷ (xs ++ (base ∷ []))) 0
      × ((i : ℕ) → (list_del s' base).next i ≡ s'.next i)
unfolding list_add
insert_free_highest fuel s base x xs l b f h =
    let z = last_or x xs in
    let t = list_add s z base in
    (
      list_add t base base,
      insert_free_walk fuel s base x xs l
          ∙ walk_runs_out xs x fuel s 0 base h l.chain l.distinct.0 b f,
      (list_add_self t base base).0,
      Forward-same t.next (list_add t base base).next 0 (x ∷ (xs ++ (base ∷ []))) 0
          (λ i. (list_add_self t base i).1)
          (Chain-Forward t 0 (x ∷ (xs ++ (base ∷ []))) 0 (added.chain)),
      λ i. list_del-next_self (list_add t base base) base i (list_add_self t base base).0,
    )
  where
    added : IsList (list_add s (last_or x xs) base) 0 (x ∷ (xs ++ (base ∷ [])))
    added = list_add_after-IsList s 0 (x ∷ xs) [] base (rw append-nil l) (rw append-nil f)
