-- ===== src/Swap/Fifo.antt =====
-- swap_out of kern/mm/swap.c takes the pages in the order in which they came.
use oscmp.Base.{
  ℕ, zero, suc, ◌≤◌, ◌==◌, ◌≡◌, ◌≢◌, refl, sym, ap, Bool, true, false, some, List, [], ◌∷◌, ◌++◌,
  ◌>>=◌, update, arith, Bool-cases, inl, inr, length, length-append, Fresh, Distinct, Apart,
  Distinct-append,
}
use mathlib.Core.List.{map, append-nil}
use oscmp.Dlist.{IsList, list_add_before, list_del, list_add_before-IsList, list_del-IsList}
use oscmp.Swap.Defs.{
  Swap, fifo_map_swappable, fifo_swap_out_victim, swap_entry, pte_v, write_out, swap_out,
}

rotate-Distinct : (v : ℕ) (vs : List ℕ) → Distinct (v ∷ vs) → Distinct (vs ++ (v ∷ []))
rotate-Distinct v vs d = Distinct-append vs (v ∷ []) d.1 (tt, tt) (apart vs d.0)
  where
    apart : (xs : List ℕ) → Fresh v xs → Apart xs (v ∷ [])
    apart [] f = tt
    apart (x ∷ xs) f = ((λ e. f.0 (sym e), tt), apart xs f.1)

module _ (swapfs_write : ℕ → ℕ → ℕ) (va : ℕ → ℕ) where
  -- Whether a page can be written.
  abbrev pub written : ℕ → Bool
  written x = swapfs_write (swap_entry (va x)) x == 0

  -- The queue and the pages gone, the last one first: the first page goes, or moves to the back.
  abbrev pub rounds : ℕ → List ℕ → List ℕ → List ℕ × List ℕ
  rounds zero xs gone = (xs, gone)
  rounds (suc n) [] gone = ([], gone)
  rounds (suc n) (x ∷ xs) gone = elim (written x) [
    | true ↦ rounds n xs (x ∷ gone)
    | false ↦ rounds n (xs ++ (x ∷ [])) gone
  ]

  rounds_gone :
      (n x : ℕ) (xs gone : List ℕ)
      → written x ≡ true
      → rounds (suc n) (x ∷ xs) gone ≡ rounds n xs (x ∷ gone)
  rounds_gone n x xs gone w = rw (w, rounds) refl

  rounds_back :
      (n x : ℕ) (xs gone : List ℕ)
      → written x ≡ false
      → rounds (suc n) (x ∷ xs) gone ≡ rounds n (xs ++ (x ∷ [])) gone
  rounds_back n x xs gone w = rw (w, rounds) refl

  -- The pages of a queue are mapped.
  abbrev pub Mapped : (ℕ → ℕ) → List ℕ → Type 0
  Mapped pte [] = Unit
  Mapped pte (x ∷ xs) = (pte_v (pte (va x)) ≡ true) × Mapped pte xs

  Mapped-append :
      (pte : ℕ → ℕ) (xs ys : List ℕ) → Mapped pte xs → Mapped pte ys → Mapped pte (xs ++ ys)
  Mapped-append pte [] ys p q = q
  Mapped-append pte (x ∷ xs) ys p q = (p.0, Mapped-append pte xs ys p.1 q)

  Mapped-update :
      (pte : ℕ → ℕ) (v e : ℕ) (xs : List ℕ)
      → Fresh v (map va xs)
      → Mapped pte xs
      → Mapped (update pte v e) xs
  Mapped-update pte v e [] f p = tt
  Mapped-update pte v e (x ∷ xs) f p = (ground (arith, f.0, p.0), Mapped-update pte v e xs f.1 p.1)

  -- What swap_out needs of a queue, and keeps.
  pub record Holds (s : Swap) (xs : List ℕ) : Type 0 where
    pub queue : IsList s.links s.sm_priv xs
    pub mapped : Mapped s.pte xs
    pub apart : Distinct (map va xs)
    pub head : s.sm_priv ≢ 0
    pub addresses : s.pra_vaddr ≡ va

  map-rotate : (x : ℕ) (xs : List ℕ) → map va (xs ++ (x ∷ [])) ≡ map va xs ++ (va x ∷ [])
  map-rotate x [] = refl
  map-rotate x (y ∷ ys) = ap (λ l. va y ∷ l) (map-rotate x ys)

  victim :
      (s : Swap) (x : ℕ) (xs : List ℕ)
      → Holds s (x ∷ xs)
      → fifo_swap_out_victim s 0 ≡ some (x, record s { links = list_del s.links x })
  unfolding fifo_swap_out_victim
  victim s x xs h = ground (arith, h.queue.chain.0, h.head)

  module _ (s : Swap) (x : ℕ) (xs : List ℕ) (h : Holds s (x ∷ xs)) where
    unqueued : Swap
    unqueued = record s { links = list_del s.links x }

    unqueued-IsList : IsList (list_del s.links x) s.sm_priv xs
    unqueued-IsList = list_del-IsList s.links s.sm_priv [] xs x h.queue

    -- The page has gone to the disk.
    gone : Swap
    gone = record unqueued { pte = update s.pte (va x) (swap_entry (va x)); freed = x ∷ s.freed }

    gone-Holds : Holds gone xs
    unfolding gone unqueued
    gone-Holds = record {
      queue = unqueued-IsList;
      mapped = Mapped-update s.pte (va x) (swap_entry (va x)) xs h.apart.0 h.mapped.1;
      apart = h.apart.1;
      head = h.head;
      addresses = h.addresses;
    }

    -- The page has gone to the back of the queue.
    requeued : Swap
    requeued = record unqueued { links = list_add_before (list_del s.links x) s.sm_priv x }

    requeued-Holds : Holds requeued (xs ++ (x ∷ []))
    unfolding requeued unqueued
    requeued-Holds = record {
      queue =
          list_add_before-IsList (list_del s.links x) s.sm_priv xs [] x
            (rw (append-nil xs) unqueued-IsList)
            (rw (append-nil xs) (ground (arith, h.queue.distinct.0.0), h.queue.distinct.1.0));
      mapped = Mapped-append s.pte xs (x ∷ []) h.mapped.1 (h.mapped.0, tt);
      apart = rw (map-rotate x xs) (rotate-Distinct (va x) (map va xs) h.apart);
      head = h.head;
      addresses = h.addresses;
    }

    address : s.pra_vaddr x ≡ va x
    address = ap (λ (f : ℕ → ℕ). f x) h.addresses

    write_gone : written x ≡ true → write_out swapfs_write (x, unqueued) ≡ some gone
    unfolding gone unqueued
    write_gone w = rw address (rw (h.mapped.0) (rw w refl))

    write_back : written x ≡ false → write_out swapfs_write (x, unqueued) ≡ some requeued
    unfolding requeued unqueued fifo_map_swappable
    write_back w =
        let n : (s.sm_priv == 0) ≡ false = ground (arith, h.head) in
        rw address (rw (h.mapped.0) (rw w (rw n refl)))

    round_gone :
        written x ≡ true → (fifo_swap_out_victim s 0 >>= write_out swapfs_write) ≡ some gone
    unfolding unqueued
    round_gone w = rw (victim s x xs h) (write_gone w)

    round_back :
        written x ≡ false → (fifo_swap_out_victim s 0 >>= write_out swapfs_write) ≡ some requeued
    unfolding unqueued
    round_back w = rw (victim s x xs h) (write_back w)

  -- For a queue whose pages are mapped at different addresses and that has as many pages as are asked
  -- for: swap_out meets no failed assertion, takes the pages in the order in which they came, puts a
  -- page that cannot be written to the back of the queue, and gives the others to free_page; the
  -- queue holds the pages that are left, in that order, and these are still mapped.
  pub swap_out-rounds :
      (n : ℕ) (s : Swap) (xs : List ℕ)
      → Holds s xs
      → n ≤ length xs
      → (s' : Swap) × (swap_out swapfs_write n 0 s ≡ some s')
        × Holds s' (rounds n xs s.freed).0
        × (s'.freed ≡ (rounds n xs s.freed).1)
  unfolding swap_out gone requeued unqueued
  swap_out-rounds zero s xs h l = (s, refl, h, refl)
  swap_out-rounds (suc n) s [] h l = absurd (omega (arith, l))
  swap_out-rounds (suc n) s (x ∷ xs) h l = elim (Bool-cases (written x)) [
    | inl w ↦
        let (s', e, k, f) =
          swap_out-rounds n (gone s x xs h) xs (gone-Holds s x xs h) (omega (arith, l)) in
        rw (rounds_gone n x xs s.freed w) (s', rw (round_gone s x xs h w) e, k, f)
    | inr w ↦
        let more : n ≤ length (xs ++ (x ∷ [])) =
          omega (arith, l, length-append {0} {A = ℕ} xs (x ∷ [])) in
        let (s', e, k, f) =
          swap_out-rounds n (requeued s x xs h) (xs ++ (x ∷ [])) (requeued-Holds s x xs h) more in
        rw (rounds_back n x xs s.freed w) (s', rw (round_back s x xs h w) e, k, f)
  ]
