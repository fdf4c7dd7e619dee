-- ===== src/Vmm/Map.antt =====
-- `mm_map` and `dup_mmap` of kern/mm/vmm.c.
use oscmp.Base.{
  ℕ, ◌+◌, ◌≡◌, ◌<◌, refl, ap, ◌∙◌, Bool, true, false, none, some, List, [], ◌∷◌, ltb, arith, length,
}
use oscmp.Vmm.Defs.{
  Vma, Mm, u64, pgsize, round_down, round_up, user_access, e_no_mem, holds, search_list, find_vma,
  cached, mm_map, insert_vma_struct, place, check_vma_overlap, dup_mmap,
}
use oscmp.Vmm.Areas.{Areas, AllApart, AnyOverlap, Added, IsValid, insert_vma_struct-Added}
use oscmp.Vmm.Find.{find_vma-cached}

-- The area that a request stands for.
abbrev pub wanted : ℕ → ℕ → ℕ → Vma
wanted addr len flags = record {
  vm_start = round_down addr pgsize;
  vm_end = round_up (u64 (addr + len)) pgsize;
  vm_flags = flags;
}

find_free :
    (mm : Mm) (addr : ℕ)
    → IsValid mm
    → search_list mm.mmap_list addr ≡ none
    → find_vma mm addr ≡ (none, mm)
find_free mm addr h e = find_vma-cached mm addr h ∙ ap (λ o. cached o mm) e

apart_free :
    (v : Vma) (vs : List Vma)
    → v.vm_start < v.vm_end
    → AllApart v vs
    → search_list vs v.vm_start ≡ none
unfolding search_list
apart_free v [] pos a = refl
apart_free v (x ∷ xs) pos a =
    let out : holds x v.vm_start ≡ false = ground (arith, a.0, pos) in
    rw out (apart_free v xs pos a.1)

module _ (mm : Mm) (addr len flags : ℕ) (h : IsValid mm)
    (user : user_access (wanted addr len flags).vm_start (wanted addr len flags).vm_end
      ≡ true) where
  -- A range of user addresses that shares none with an area is mapped, in whole pages: the new
  -- area is the only change, and the address space stays valid. If there is no memory for the area,
  -- the error is E_NO_MEM and nothing changes.
  pub mm_map-Added :
      AllApart (wanted addr len flags) mm.mmap_list
      → ((mm' : Mm) × (mm_map true mm addr len flags ≡ some (0, mm'))
          × IsValid mm'
          × Added (wanted addr len flags) mm.mmap_list mm'.mmap_list)
        × (mm_map false mm addr len flags ≡ some (e_no_mem, mm))
  unfolding mm_map
  mm_map-Added apart =
      let v = wanted addr len flags in
      let pos : v.vm_start < v.vm_end = ground (arith, user) in
      let free = find_free mm v.vm_start h (apart_free v mm.mmap_list pos apart) in
      let (mm', e, valid, added) = (insert_vma_struct-Added mm v h pos).0 apart in
      ((mm', rw (user, free, e) refl, valid, added), rw (user, free) refl)

  -- A range of user addresses that starts outside of all areas and runs into one is not refused:
  -- the request is a panic, in an assertion of `insert_vma_struct`.
  pub mm_map_panics :
      search_list mm.mmap_list (wanted addr len flags).vm_start ≡ none
      → AnyOverlap (wanted addr len flags) mm.mmap_list
      → mm_map true mm addr len flags ≡ none
  unfolding mm_map
  mm_map_panics free o =
      let v = wanted addr len flags in
      let pos : v.vm_start < v.vm_end = ground (arith, user) in
      rw (user, find_free mm v.vm_start h free, (insert_vma_struct-Added mm v h pos).1 o) refl

place_first :
    (v : Vma) (vs : List Vma)
    → Areas v.vm_end vs
    → v.vm_start < v.vm_end
    → place none v vs ≡ some (v ∷ vs)
unfolding place
place_first v [] a pos = refl
place_first v (x ∷ xs) a pos =
    let z : ltb v.vm_start x.vm_start ≡ true = ground (arith, a.0) in
    let f : check_vma_overlap v x ≡ true = ground (arith, a.0, a.1) in rw (z, f) refl

-- `dup_mmap` into an address space without areas, where nothing fails, leaves the same areas there
-- in the same order.
pub dup_mmap-Areas :
    (memory copies : Vma → Bool) (to : Mm) (lo : ℕ) (vs : List Vma)
    → ((v : Vma) → memory v ≡ true)
    → ((v : Vma) → copies v ≡ true)
    → to.mmap_list ≡ []
    → Areas lo vs
    → (to' : Mm) × (dup_mmap memory copies to vs ≡ some (0, to'))
      × (to'.mmap_list ≡ vs)
      × (to'.map_count ≡ to.map_count + length vs)
unfolding dup_mmap insert_vma_struct
dup_mmap-Areas memory copies to lo [] m c e a = (to, refl, e, omega arith)
dup_mmap-Areas memory copies to lo (v ∷ vs) m c e a =
    let (to', r, same, n) = dup_mmap-Areas memory copies to v.vm_end vs m c e a.2 in
    let z : ltb v.vm_start v.vm_end ≡ true = ground (arith, a.1) in
    (
      record to' { mmap_list = v ∷ vs; map_count = to'.map_count + 1 },
      rw (r, m, z, same, place_first v vs a.2 a.1, c) refl,
      refl,
      omega arith,
    )
