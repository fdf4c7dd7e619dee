-- ===== src/Kmalloc/Limits.antt =====
-- Sizes that `kmalloc` of kern/mm/kmalloc.c does not serve as asked.
use oscmp.Base.{
  ℕ, ◌+◌, ◌*◌, ◌^◌, ◌≡◌, ◌≢◌, ◌<◌, ◌≤◌, refl, true, false, Option, none, some, ltb, ◌==◌, arith,
  ◌∷◌,
}
use oscmp.Kmalloc.Defs.{Slob, slob_alloc, kmalloc, find_big, is_page, ksize}
use oscmp.Kmalloc.Order.{pow_pos, find_order-short}

module _ {P : Type 0} (alloc_pages : ℕ → P → Option ℕ × P) (free_pages : ℕ → ℕ → P → P) where
  -- For a size above 2 ^ k pages by less than 2 ^ k bytes, where there is memory, `kmalloc` returns
  -- a block of 2 ^ k pages, as `ksize` tells: it is smaller than what was asked for.
  pub kmalloc_short :
      (fuel k size at p : ℕ) (s s₁ : Slob P) (q : P)
      → k < fuel
      → 4096 * 2 ^ k < size
      → size < 4097 * 2 ^ k
      → slob_alloc alloc_pages free_pages fuel 24 s ≡ some (some at, s₁)
      → alloc_pages k s₁.pages ≡ (some p, q)
      → p ≢ 0
      → is_page p ≡ true
      → (u : Slob P) × (kmalloc alloc_pages free_pages fuel size s ≡ some (some p, u))
        × (ksize alloc_pages free_pages p u ≡ 4096 * 2 ^ k)
        × (ksize alloc_pages free_pages p u < size)
  unfolding kmalloc ksize find_big
  kmalloc_short fuel k size at p s s₁ q f l h a g z page =
      let big : ltb size 4080 ≡ false = ground (arith, l, pow_pos k) in
      let order = find_order-short fuel k size f (omega (arith, l)) h in
      let some_block : (p == 0) ≡ false = ground (arith, z) in
      let same : (p == p) ≡ true = ground arith in
      (
        record s₁ {
          bigblocks = record { at = at; order = k; pages = p } ∷ s₁.bigblocks;
          pages = q;
        },
        rw (big, a) (rw order (rw g refl)),
        rw (some_block, page, same) refl,
        rw (some_block, page, same) l,
      )

  -- For 4064 to 4079 bytes, which `kmalloc` takes for a small block, the request is a panic: with its
  -- header the block does not pass the assertion of `slob_alloc`.
  pub kmalloc_window :
      (fuel size : ℕ) (s : Slob P)
      → 4064 ≤ size
      → size < 4080
      → kmalloc alloc_pages free_pages fuel size s ≡ none
  unfolding kmalloc slob_alloc
  kmalloc_window fuel size s l h =
      let small : ltb size 4080 ≡ true = ground (arith, h) in
      let refused : ltb (size + 16 + 16) 4096 ≡ false = ground (arith, l) in
      rw (small, refused) refl
