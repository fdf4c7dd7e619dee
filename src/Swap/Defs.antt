-- ===== src/Swap/Defs.antt =====
-- kern/mm/swap.c: swap_out, with the first-in first-out manager of kern/mm/swap_fifo.c. A page is the
-- address of its `pra_page_link`; the entry of the page table is found by the virtual address.
-- swapfs_write is not among the sources: its result for an entry and a page is an argument.
use oscmp.Base.{
  ℕ, zero, suc, ◌+◌, ◌*◌, ◌/◌, ◌%◌, ◌^◌, Bool, not, Option, some, List, ◌∷◌, ◌==◌, if◌then◌else◌,
  assert, ◌>>=◌, update,
}
use oscmp.Dlist.{Links, list_init, list_add_before, list_del}

-- What swap_out reads and writes: the queue with its head `sm_priv`, the virtual address of a page,
-- the page table, and the pages given to free_page, the last one first.
pub record Swap : Type 0 where
  pub links : Links
  pub sm_priv : ℕ
  pub pra_vaddr : ℕ → ℕ
  pub pte : ℕ → ℕ
  pub freed : List ℕ

unfoldable pub fifo_init_mm : Swap → ℕ → Swap
fifo_init_mm s pra_list_head = record s {
  links = list_init s.links pra_list_head;
  sm_priv = pra_list_head;
}

unfoldable pub fifo_map_swappable : Swap → ℕ → Option Swap
fifo_map_swappable s page =
    assert (not (s.sm_priv == 0))
      (some (record s { links = list_add_before s.links s.sm_priv page }))

-- The victim, and the queue without it.
unfoldable pub fifo_swap_out_victim : Swap → ℕ → Option (ℕ × Swap)
fifo_swap_out_victim s in_tick = assert (not (s.sm_priv == 0)) (
    assert (in_tick == 0) (
      let entry = s.links.next s.sm_priv in
      some (entry, record s { links = list_del s.links entry })))

-- `(page->pra_vaddr/PGSIZE+1)<<8`
abbrev pub swap_entry : ℕ → ℕ
swap_entry v = (v / 4096 + 1) * 2 ^ 8

abbrev pub pte_v : ℕ → Bool
pte_v pte = pte % 2 == 1

module _ (swapfs_write : ℕ → ℕ → ℕ) where
  -- One round of the loop, behind the choice of the victim.
  abbrev pub write_out : ℕ × Swap → Option Swap
  write_out (page, s) =
      let v = s.pra_vaddr page in
      assert (pte_v (s.pte v)) (
        if not (swapfs_write (swap_entry v) page == 0)
        then fifo_map_swappable s page
        else some (record s { pte = update s.pte v (swap_entry v); freed = page ∷ s.freed }))

  unfoldable pub swap_out : ℕ → ℕ → Swap → Option Swap
  swap_out zero in_tick s = some s
  swap_out (suc n) in_tick s = fifo_swap_out_victim s in_tick >>= write_out >>= swap_out n in_tick
