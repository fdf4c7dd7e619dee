-- ===== src/Pmm/Highest.antt =====
-- `default_free_pages` of kern/mm/default_pmm.c where the freed block lies above all others.
use oscmp.Base.{
  ℕ, ◌+◌, ◌^◌, ◌≤◌, ◌<◌, ◌≡◌, ◌≢◌, true, false, some, List, [], ◌∷◌, ◌++◌, arith, leb, ◌==◌, length,
  length-append, Fresh, Fresh-append, lt→ltb,
}
use oscmp.Dlist.{Forward, Forward-same, Forward-last, list_del}
use oscmp.Pmm.Defs.{
  Pmm, clear_head, set_head, default_alloc_pages, default_free_pages, merge_before, merge_after,
}
use oscmp.Pmm.Blocks.{IsValid, EndsBy, EndsBy-Fresh, Small, Small-frame}
use oscmp.Pmm.Fit.{find_fit-eq-first_fit, first_fit-last}
use oscmp.Pmm.Alloc.{take_block-eq-exact, exact_block}
use oscmp.Pmm.Release.{Releasable, release_pages-Released}
use oscmp.Pmm.Free.{inserted, EndsBy-Below}
use oscmp.Pmm.Insert.{insert_free_highest}

-- A block that is its own predecessor, and last, is merged with nothing.
unmerged :
    (m : Pmm) (b : ℕ)
    → b ≢ 0
    → 0 < (m.pages b).property
    → m.links.prev b ≡ b
    → m.links.next b ≡ 0
    → (merge_before m b ≡ (b, m)) × (merge_after m b ≡ m)
unfolding merge_before merge_after
unmerged m b nz pos p n =
    let t : (b + (m.pages b).property == b) ≡ false = ground arith in
    let z : (b == 0) ≡ false = ground arith in (rw (p, z, t), rw n)

-- Allocation of exactly the last block, where no block before it is large enough.
alloc_last :
    (fuel : ℕ) (m : Pmm) (b n : ℕ) (xs : List ℕ)
    → 0 < n
    → n ≤ m.nr_free
    → m.nr_free < 2 ^ 32
    → length (xs ++ (b ∷ [])) < fuel
    → Forward m.links.next 0 (xs ++ (b ∷ [])) 0
    → Fresh 0 (xs ++ (b ∷ []))
    → Small m.pages n xs
    → (m.pages b).property ≡ n
    → default_alloc_pages fuel m n ≡ some (some b, exact_block m b n)
unfolding default_alloc_pages
alloc_last fuel m b n xs nz le small h fw f s e =
    let t : leb n m.nr_free ≡ true = ground arith in
    ground (
      arith,
      find_fit-eq-first_fit (xs ++ (b ∷ [])) fuel m 0 n h fw f,
      first_fit-last m.pages n xs b s e,
      take_block-eq-exact m b n e le small,
    )

-- The heap after the free: the last entry `b` is its own predecessor.
record Stuck (m₁ : Pmm) (b n k : ℕ) (xs : List ℕ) : Type 0 where
  forward : Forward m₁.links.next 0 (xs ++ (b ∷ [])) 0
  stays : (i : ℕ) → (list_del m₁.links b).next i ≡ m₁.links.next i
  unjoined : Small m₁.pages n xs
  size : (m₁.pages b).property ≡ n
  counted : m₁.nr_free ≡ k + n

free_pages-Stuck :
    (fuel : ℕ) (m : Pmm) (b n x : ℕ) (xs : List ℕ)
    → IsValid m (x ∷ xs)
    → length xs + 2 < fuel
    → 0 < n
    → b ≢ 0
    → EndsBy m.pages (x ∷ xs) b
    → Releasable n b m.pages
    → m.nr_free + n < 2 ^ 32
    → Small m.pages n (x ∷ xs)
    → (m₁ : Pmm) × (default_free_pages fuel m b n ≡ some m₁) × Stuck m₁ b n m.nr_free (x ∷ xs)
unfolding default_free_pages
free_pages-Stuck fuel m b n x xs v h nz bz el rel small sm =
    let f = λ (k : ℕ) (p : b ≤ k). EndsBy-Fresh m.pages (x ∷ xs) b k v.blocks el p in
    let (links, ins, own, fw, keep) =
      insert_free_highest fuel m.links b x xs v.list (EndsBy-Below m.pages (x ∷ xs) b el)
        (bz, f b (omega arith)) h in
    let (pages, released, same) = release_pages-Released n b m.pages rel in
    let d = same (x ∷ xs) (λ k p _. f k p) in
    let m₁ = inserted m pages links b n in
    let size : (m₁.pages b).property ≡ n = ground arith in
    let last : m₁.links.next b ≡ 0 = Forward-last links.next 0 (x ∷ xs) b fw in
    let (mb, ma) = unmerged m₁ b bz (omega (arith, size)) own last in
    (
      m₁,
      rw (lt→ltb 0 n nz, released, ins, mb, ma),
      record {
        forward = fw;
        stays = keep;
        unjoined =
            Small-frame pages b (set_head n (pages b)) n (x ∷ xs) (f b (omega arith))
              (d.same_small n sm);
        size = size;
        counted = omega arith;
      },
    )

-- On a valid heap whose blocks all lie below `b` and all have fewer than `n` pages, with at least
-- `n` free pages in all: after `n` pages at `b` are freed, `default_alloc_pages` of `n` pages returns `b` twice in a row.
pub highest_allocated_twice :
    (fuel : ℕ) (m : Pmm) (b n x : ℕ) (xs : List ℕ)
    → IsValid m (x ∷ xs)
    → length xs + 2 < fuel
    → 0 < n
    → b ≢ 0
    → EndsBy m.pages (x ∷ xs) b
    → Releasable n b m.pages
    → m.nr_free + n < 2 ^ 32
    → Small m.pages n (x ∷ xs)
    → n ≤ m.nr_free
    → (m₁ : Pmm) × (m₂ : Pmm) × (m₃ : Pmm) × (default_free_pages fuel m b n ≡ some m₁)
      × (default_alloc_pages fuel m₁ n ≡ some (some b, m₂))
      × (default_alloc_pages fuel m₂ n ≡ some (some b, m₃))
highest_allocated_twice fuel m b n x xs v h nz bz el rel small sm le =
    let (m₁, freed, k) = free_pages-Stuck fuel m b n x xs v h nz bz el rel small sm in
    let m₂ = exact_block m₁ b n in
    let off : Fresh b (x ∷ xs) = EndsBy-Fresh m.pages (x ∷ xs) b b v.blocks el (omega arith) in
    let nil : Fresh 0 (x ∷ xs ++ (b ∷ [])) =
      Fresh-append 0 (x ∷ xs) (b ∷ []) v.list.distinct.0 (omega arith, tt) in
    let len : length (x ∷ xs ++ (b ∷ [])) < fuel = omega (arith, length-append (x ∷ xs) (b ∷ [])) in
    (
      m₁,
      m₂,
      exact_block m₂ b n,
      freed,
      alloc_last fuel m₁ b n (x ∷ xs) nz (omega (arith, k.counted)) (omega (arith, k.counted)) len
          k.forward nil k.unjoined k.size,
      alloc_last fuel m₂ b n (x ∷ xs) nz (omega (arith, k.counted)) (omega (arith, k.counted)) len
          (Forward-same m₁.links.next m₂.links.next 0 (x ∷ xs ++ (b ∷ [])) 0 k.stays k.forward) nil
          (Small-frame m₁.pages b (clear_head (m₁.pages b)) n (x ∷ xs) off k.unjoined)
          (ground (arith, k.size)),
    )
