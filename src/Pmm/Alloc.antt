-- ===== src/Pmm/Alloc.antt =====
-- `default_alloc_pages` of kern/mm/default_pmm.c: which block it takes, and what it leaves.
use oscmp.Base.{
  ℕ, ◌+◌, ◌-◌, ◌%◌, ◌^◌, ◌≤◌, ◌<◌, ◌≡◌, true, false, none, some, List, ◌∷◌, ◌++◌, arith, ltb,
  if◌then◌else◌, update, length, Fresh, Fresh-append, Bool-cases, inl, inr,
}
use oscmp.Dlist.{
  IsList, Chain-Forward, Chain-cut, last_or, list_add, list_del, list_add_after-IsList,
  list_del-IsList,
}
use oscmp.Pmm.Defs.{Pmm, Page, edit, clear_head, take_block, default_alloc_pages}
use oscmp.Pmm.Blocks.{
  total, Above, Blocks, IsValid, total-append, total-frame, Blocks-frame, Above-le, Above-Fresh,
  EndsBy, Blocks-split, Blocks-append, EndsBy-Fresh, EndsBy-frame, Small,
}
use oscmp.Pmm.Fit.{first_fit, find_fit-eq-first_fit, FirstFit, first_fit-FirstFit, Small-first_fit}

-- The free list once a block `p` of it has given `n` pages: nothing of the block, or its rest.
abbrev pub remaining : Pmm → ℕ → ℕ → List ℕ → List ℕ
remaining m p n after = if ltb n (m.pages p).property then (p + n) ∷ after else after

-- The facts that the two cases of `take_block` share.
record Around (m : Pmm) (l : List ℕ) (p : ℕ) (r : List ℕ) : Type 0 where
  left : Blocks m.pages l
  ends : EndsBy m.pages l p
  right : Blocks m.pages r
  above : Above (p + (m.pages p).property) r
  sized : 0 < (m.pages p).property
  counted : total m.pages l + (m.pages p).property + total m.pages r ≡ m.nr_free
  off_left : (k : ℕ) → p ≤ k → Fresh k l
  off_right : (k : ℕ) → k < p + (m.pages p).property → Fresh k r
  prev : m.links.prev p ≡ last_or 0 l
  removed : IsList (list_del m.links p) 0 (l ++ r)

IsValid-Around :
    (m : Pmm) (l : List ℕ) (p : ℕ) (r : List ℕ) → IsValid m (l ++ (p ∷ r)) → Around m l p r
IsValid-Around m l p r v =
    let (b, e, c) = Blocks-split m.pages l p r v.blocks in
    record {
      left = b;
      ends = e;
      right = c.3;
      above = c.2;
      sized = c.1;
      counted = omega (arith, total-append m.pages l (p ∷ r), v.counted);
      off_left = λ k h. EndsBy-Fresh m.pages l p k b e h;
      off_right = λ k h. Above-Fresh _ k r h c.2;
      prev = (Chain-cut m.links 0 l (p ∷ r) 0 v.list.chain).1;
      removed = list_del-IsList m.links 0 l r p v.list;
    }

-- `take_block` in its two cases.
abbrev pub exact_block : Pmm → ℕ → ℕ → Pmm
exact_block m p n = record {
  pages = edit m.pages p clear_head;
  links = list_del m.links p;
  nr_free = m.nr_free - n;
}

abbrev split_pages : Pmm → ℕ → ℕ → ℕ → Page
split_pages m p n =
    edit m.pages (p + n) (λ q. record q { head = true; property = (m.pages p).property - n })

abbrev split_block : Pmm → ℕ → ℕ → Pmm
split_block m p n = record {
  pages = edit (split_pages m p n) p clear_head;
  links = list_add (list_del m.links p) (m.links.prev p) (p + n);
  nr_free = m.nr_free - n;
}

u32_sub : (a n : ℕ) → n ≤ a → a < 2 ^ 32 → (a + 2 ^ 32 - n) % 2 ^ 32 ≡ a - n
u32_sub a n h k = omega arith

pub take_block-eq-exact :
    (m : Pmm) (p n : ℕ)
    → (m.pages p).property ≡ n
    → n ≤ m.nr_free
    → m.nr_free < 2 ^ 32
    → take_block m p n ≡ exact_block m p n
unfolding take_block
take_block-eq-exact m p n e h k =
    let t : ltb n (m.pages p).property ≡ false = ground arith in rw (t, u32_sub m.nr_free n h k)

take_block-eq-split :
    (m : Pmm) (p n : ℕ)
    → n < (m.pages p).property
    → n ≤ m.nr_free
    → m.nr_free < 2 ^ 32
    → take_block m p n ≡ split_block m p n
unfolding take_block
take_block-eq-split m p n e h k =
    let t : ltb n (m.pages p).property ≡ true = ground arith in rw (t, u32_sub m.nr_free n h k)

-- A block that fits exactly leaves the list.
exact_block-IsValid :
    (m : Pmm) (n : ℕ) (l : List ℕ) (p : ℕ) (r : List ℕ)
    → IsValid m (l ++ (p ∷ r))
    → (m.pages p).property ≡ n
    → IsValid (exact_block m p n) (l ++ r)
exact_block-IsValid m n l p r v e =
    let a = IsValid-Around m l p r v in
    let fl = a.off_left p (omega arith) in
    let fr = a.off_right p (omega (arith, a.sized)) in
    let q = clear_head (m.pages p) in
    record {
      list = a.removed;
      blocks =
          Blocks-append (update m.pages p q) l p r (Blocks-frame m.pages p q l fl a.left)
            (EndsBy-frame m.pages p q l p fl a.ends) (Above-le _ p r (omega arith) a.above)
            (Blocks-frame m.pages p q r fr a.right);
      counted = omega (
        arith,
        total-append (update m.pages p q) l r,
        total-frame m.pages p q l fl,
        total-frame m.pages p q r fr,
        a.counted,
      );
      small = omega (arith, v.small);
    }

-- A larger block is replaced by its rest.
split_block-IsValid :
    (m : Pmm) (n : ℕ) (l : List ℕ) (p : ℕ) (r : List ℕ)
    → IsValid m (l ++ (p ∷ r))
    → 0 < n
    → n < (m.pages p).property
    → IsValid (split_block m p n) (l ++ ((p + n) ∷ r))
unfolding list_add
split_block-IsValid m n l p r v nz lt =
    let a = IsValid-Around m l p r v in
    let fl = a.off_left p (omega arith) in
    let fr = a.off_right p (omega (arith, a.sized)) in
    let gl = a.off_left (p + n) (omega arith) in
    let gr = a.off_right (p + n) (omega arith) in
    let s = split_pages m p n in
    let q = clear_head (s p) in
    let q' : Page = record (m.pages (p + n)) { head = true; property = (m.pages p).property - n } in
    let size : (update s p q (p + n)).property ≡ (m.pages p).property - n = ground arith in
    let head : (update s p q (p + n)).head ≡ true = ground arith in
    record {
      list = rw a.prev (
          list_add_after-IsList (list_del m.links p) 0 l r (p + n) a.removed
            (ground arith, Fresh-append (p + n) l r gl gr));
      blocks =
          Blocks-append (update s p q) l p ((p + n) ∷ r)
            (Blocks-frame s p q l fl (Blocks-frame m.pages (p + n) q' l gl a.left))
            (EndsBy-frame s p q l p fl (EndsBy-frame m.pages (p + n) q' l p gl a.ends))
            (omega arith, Above-le _ p r (omega arith) a.above)
            (
              head,
              omega (arith, size),
              Above-le _ _ r (omega (arith, size)) a.above,
              Blocks-frame s p q r fr (Blocks-frame m.pages (p + n) q' r gr a.right),
            );
      counted = omega (
        arith,
        total-append (update s p q) l ((p + n) ∷ r),
        total-frame s p q l fl,
        total-frame m.pages (p + n) q' l gl,
        total-frame s p q r fr,
        total-frame m.pages (p + n) q' r gr,
        size,
        a.counted,
      );
      small = omega (arith, v.small);
    }

take_block-IsValid :
    (m : Pmm) (n : ℕ) (l : List ℕ) (p : ℕ) (r : List ℕ)
    → IsValid m (l ++ (p ∷ r))
    → 0 < n
    → n ≤ (m.pages p).property
    → IsValid (take_block m p n) (l ++ remaining m p n r)
      × ((take_block m p n).nr_free + n ≡ m.nr_free)
take_block-IsValid m n l p r v nz fits =
    let le : n ≤ m.nr_free = omega (arith, (IsValid-Around m l p r v).counted) in
    elim (Bool-cases (ltb n (m.pages p).property)) [
      | inl t ↦
          rw (take_block-eq-split m p n (ground arith) le v.small, t)
            (split_block-IsValid m n l p r v nz (ground arith), omega arith)
      | inr t ↦
          rw (take_block-eq-exact m p n (ground arith) le v.small, t)
            (exact_block-IsValid m n l p r v (ground arith), omega arith)
    ]

-- On a valid heap `default_alloc_pages` of `n` pages returns the first block with at least `n` pages
-- if there is one and takes `n` pages off its front: the block leaves the free list, its rest takes its place there, the
-- heap stays valid and `nr_free` falls by `n`.
pub alloc_pages-first_fit :
    (fuel : ℕ) (m : Pmm) (n : ℕ) (xs : List ℕ) (p : ℕ)
    → IsValid m xs
    → length xs < fuel
    → 0 < n
    → first_fit m.pages n xs ≡ some p
    → (f : FirstFit m.pages n p xs) × (default_alloc_pages fuel m n
        ≡ some (some p, take_block m p n))
      × IsValid (take_block m p n) (f.before ++ remaining m p n f.after)
      × ((take_block m p n).nr_free + n ≡ m.nr_free)
unfolding default_alloc_pages
alloc_pages-first_fit fuel m n xs p v h nz e =
    let f = first_fit-FirstFit m.pages n p xs e in
    let v' : IsValid m (f.before ++ (p ∷ f.after)) = rw f.here at v in
    let le : n ≤ m.nr_free =
      omega (arith, (IsValid-Around m f.before p f.after v').counted, f.fits) in
    let (w, c) = take_block-IsValid m n f.before p f.after v' nz f.fits in
    (
      f,
      ground (
        arith,
        find_fit-eq-first_fit xs fuel m 0 n h (Chain-Forward m.links 0 xs 0 v.list.chain)
            v.list.distinct.0,
        e,
      ),
      w,
      c,
    )

-- On a valid heap whose blocks all have fewer than `n` pages `default_alloc_pages` returns NULL and
-- changes nothing.
pub alloc_pages-none :
    (fuel : ℕ) (m : Pmm) (n : ℕ) (xs : List ℕ)
    → IsValid m xs
    → length xs < fuel
    → 0 < n
    → Small m.pages n xs
    → default_alloc_pages fuel m n ≡ some (none, m)
unfolding default_alloc_pages
alloc_pages-none fuel m n xs v h nz s = ground (
  arith,
  find_fit-eq-first_fit xs fuel m 0 n h (Chain-Forward m.links 0 xs 0 v.list.chain)
      v.list.distinct.0,
  Small-first_fit m.pages n xs s,
)
