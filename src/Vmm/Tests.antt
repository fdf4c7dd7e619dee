-- ===== src/Vmm/Tests.antt =====
-- The functions on areas at an address space of two areas.
use oscmp.Base.{ℕ, ◌≡◌, ◌<◌, ◌≤◌, refl, inl, inr, Bool, true, false, none, some, [], ◌∷◌, arith}
use oscmp.Vmm.Defs.{
  Vma, Mm, e_no_mem, search_list, find_vma, insert_vma_struct, mm_map, user_mem_check, user_access,
}
use oscmp.Vmm.Areas.{AllApart, AnyOverlap, Added, IsValid, insert_vma_struct-Added}
use oscmp.Vmm.Find.{find_vma-search_list}
use oscmp.Vmm.Map.{wanted, mm_map-Added}
use oscmp.Vmm.Check.{Allowed, user_mem_check-Allowed}

abbrev text : Vma
text = record { vm_start = 0x800000; vm_end = 0x802000; vm_flags = 5 }

abbrev heap : Vma
heap = record { vm_start = 0x900000; vm_end = 0x904000; vm_flags = 3 }

abbrev space : Mm
space = record { mmap_list = text ∷ heap ∷ []; mmap_cache = some heap; map_count = 2; mm_count = 1 }

space-IsValid : IsValid space
space-IsValid = record {
  areas = (omega arith, omega arith, (omega arith, omega arith, tt));
  cache = inr (inl refl);
  counted = refl;
}

abbrev between : Vma
between = record { vm_start = 0x802000; vm_end = 0x803000; vm_flags = 1 }

insert_vma_struct-Added_example :
    (AllApart between space.mmap_list
      → (mm' : Mm) × (insert_vma_struct space between ≡ some mm')
        × IsValid mm'
        × Added between space.mmap_list mm'.mmap_list)
    × (AnyOverlap between space.mmap_list → insert_vma_struct space between ≡ none)
insert_vma_struct-Added_example = insert_vma_struct-Added space between space-IsValid (omega arith)

find_vma-search_list_example :
    ((find_vma space 0x801234).0 ≡ some text)
    × IsValid (find_vma space 0x801234).1
    × ((find_vma space 0x801234).1.mmap_list ≡ space.mmap_list)
unfolding search_list
find_vma-search_list_example = find_vma-search_list space 0x801234 space-IsValid

mm_map-Added_example :
    ((mm' : Mm) × (mm_map true space 0x802010 0x100 3 ≡ some (0, mm'))
      × IsValid mm'
      × Added (wanted 0x802010 0x100 3) space.mmap_list mm'.mmap_list)
    × (mm_map false space 0x802010 0x100 3 ≡ some (e_no_mem, space))
mm_map-Added_example = mm_map-Added space 0x802010 0x100 3 space-IsValid refl (omega arith)

user_mem_check-Allowed_example :
    (r : Bool) × (mm' : Mm) × (user_mem_check 3 space 0x900100 0x200 true ≡ some (r, mm'))
    × IsValid mm'
    × (mm'.mmap_list ≡ space.mmap_list)
    × (r ≡ true
        → (user_access 0x900100 0x900300 ≡ true)
          × ((a : ℕ) → 0x900100 ≤ a → a < 0x900300 → Allowed space.mmap_list true a))
user_mem_check-Allowed_example =
    user_mem_check-Allowed 3 space 0x900100 0x200 true space-IsValid (omega arith)
