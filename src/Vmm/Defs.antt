-- ===== src/Vmm/Defs.antt =====
-- kern/mm/vmm.c: areas and the functions on the list of them. The list is the sequence of its areas,
-- and the cache is an area and not a pointer, since an area does not change once it is in the list.
-- What other files provide is an argument: whether `kmalloc` has memory, and whether `copy_range`
-- can copy the pages of an area. A failed assertion is `none`.
use oscmp.Base.{
  ℕ, zero, suc, ◌+◌, ◌-◌, ◌/◌, ◌%◌, ◌^◌, Bool, true, false, not, ◌&&◌, Option, none, some, List, [],
  ◌∷◌, ltb, leb, ◌==◌, if◌then◌else◌, assert, ◌>>=◌,
}

-- `struct vma_struct`
pub record Vma : Type 0 where
  pub vm_start : ℕ
  pub vm_end : ℕ
  pub vm_flags : ℕ

-- The part of `struct mm_struct` that the list of areas needs.
pub record Mm : Type 0 where
  pub mmap_list : List Vma
  pub mmap_cache : Option Vma
  pub map_count : ℕ
  pub mm_count : ℕ

abbrev pub pgsize : ℕ
pgsize = 4096

abbrev pub userbase : ℕ
userbase = 0x00200000

abbrev pub usertop : ℕ
usertop = 0x80000000

abbrev pub vm_read : ℕ
vm_read = 1

abbrev pub vm_write : ℕ
vm_write = 2

abbrev pub vm_stack : ℕ
vm_stack = 8

-- Addresses have 64 bits.
abbrev pub u64 : ℕ → ℕ
u64 n = n % 2 ^ 64

abbrev pub round_down : ℕ → ℕ → ℕ
round_down a n = a - a % n

abbrev pub round_up : ℕ → ℕ → ℕ
round_up a n = round_down (u64 (a + n - 1)) n

abbrev pub user_access : ℕ → ℕ → Bool
user_access start end' = leb userbase start && ltb start end' && leb end' usertop

-- `vm_flags & flag`, for a flag that is a power of 2.
abbrev pub has_flag : ℕ → ℕ → Bool
has_flag flags flag = flags / flag % 2 == 1

abbrev pub mm_create : Mm
mm_create = record { mmap_list = []; mmap_cache = none; map_count = 0; mm_count = 0 }

abbrev pub vma_create : Bool → ℕ → ℕ → ℕ → Option Vma
vma_create memory start end' flags =
    if memory then some (record { vm_start = start; vm_end = end'; vm_flags = flags }) else none

-- `vma->vm_start <= addr && addr < vma->vm_end`
abbrev pub holds : Vma → ℕ → Bool
holds v addr = leb v.vm_start addr && ltb addr v.vm_end

-- The walk of `find_vma` over the list.
unfoldable pub search_list : List Vma → ℕ → Option Vma
search_list [] addr = none
search_list (v ∷ vs) addr = if holds v addr then some v else search_list vs addr

abbrev pub cache_hit : Option Vma → ℕ → Bool
cache_hit none addr = false
cache_hit (some v) addr = holds v addr

abbrev pub cached : Option Vma → Mm → Option Vma × Mm
cached none mm = (none, mm)
cached (some v) mm = (some v, record mm { mmap_cache = some v })

unfoldable pub find_vma : Mm → ℕ → Option Vma × Mm
find_vma mm addr =
    cached (if cache_hit mm.mmap_cache addr then mm.mmap_cache else search_list mm.mmap_list addr)
      mm

abbrev pub check_vma_overlap : Vma → Vma → Bool
check_vma_overlap prev next =
    ltb prev.vm_start prev.vm_end && leb prev.vm_end next.vm_start && ltb next.vm_start next.vm_end

-- `if (le_prev != list) { check_vma_overlap(le_prev, vma); }`
abbrev pub after_prev : Option Vma → Vma → Bool
after_prev none v = true
after_prev (some p) v = check_vma_overlap p v

-- The walk of `insert_vma_struct` behind `prev`, its checks and the insertion.
unfoldable pub place : Option Vma → Vma → List Vma → Option (List Vma)
place prev v [] = assert (after_prev prev v) (some (v ∷ []))
place prev v (x ∷ xs) =
    let later = place (some x) v xs >>= λ r. some (x ∷ r) in
    if ltb v.vm_start x.vm_start
    then assert (after_prev prev v) (assert (check_vma_overlap v x) (some (v ∷ x ∷ xs)))
    else later

unfoldable pub insert_vma_struct : Mm → Vma → Option Mm
insert_vma_struct mm v = assert (ltb v.vm_start v.vm_end) (
    place none v mm.mmap_list >>= λ vs.
    some (record mm { mmap_list = vs; map_count = mm.map_count + 1 }))

-- The return values of this file, negated in C.
abbrev pub e_inval : ℕ
e_inval = 3

abbrev pub e_no_mem : ℕ
e_no_mem = 4

abbrev pub map_new : Option Vma → Mm → Option (ℕ × Mm)
map_new none mm = some (e_no_mem, mm)
map_new (some v) mm = insert_vma_struct mm v >>= λ mm'. some (0, mm')

-- What `mm_map` does with the result of `find_vma`.
abbrev pub map_found : Option Vma × Mm → Bool → ℕ → ℕ → ℕ → Option (ℕ × Mm)
map_found (none, mm) memory start end' flags = map_new (vma_create memory start end' flags) mm
map_found (some v, mm) memory start end' flags =
    if ltb v.vm_start end'
    then some (e_inval, mm)
    else map_new (vma_create memory start end' flags) mm

-- The error number, 0 for success, and the state; `none` is a panic.
unfoldable pub mm_map : Bool → Mm → ℕ → ℕ → ℕ → Option (ℕ × Mm)
mm_map memory mm addr len flags =
    let start = round_down addr pgsize in
    let end' = round_up (u64 (addr + len)) pgsize in
    if user_access start end'
    then map_found (find_vma mm start) memory start end' flags
    else some (e_inval, mm)

-- A round of `dup_mmap` with the new area, if there is memory for it; `copied` is whether
-- `copy_range` can copy its pages.
abbrev pub dup_area : Option Vma → Bool → Mm → Option (ℕ × Mm)
dup_area none copied to = some (e_no_mem, to)
dup_area (some v) copied to =
    insert_vma_struct to v >>= λ to'. some ((if copied then 0 else e_no_mem), to')

-- `dup_mmap` goes through the areas from the last to the first, up to the first error.
unfoldable pub dup_mmap : (Vma → Bool) → (Vma → Bool) → Mm → List Vma → Option (ℕ × Mm)
dup_mmap memory copies to [] = some (0, to)
dup_mmap memory copies to (v ∷ vs) = dup_mmap memory copies to vs >>= λ r. elim (r.0 == 0) [
  | true ↦ dup_area (vma_create (memory v) v.vm_start v.vm_end v.vm_flags) (copies v) r.1
  | false ↦ some r
]

-- `mm_destroy`: the areas that it frees, in order.
unfoldable pub mm_destroy : Mm → Option (List Vma)
mm_destroy mm = assert (mm.mm_count == 0) (some mm.mmap_list)

-- One round of `user_mem_check` on the area found at `start`: the next `start`, or none to refuse.
abbrev pub round_ok : Option Vma → ℕ → Bool → Option ℕ
round_ok none start write = none
round_ok (some v) start write =
    if ltb start v.vm_start
    then none
    else if not (has_flag v.vm_flags (if write then vm_write else vm_read))
    then none
    else if write && has_flag v.vm_flags vm_stack && ltb start (v.vm_start + pgsize)
    then none
    else some v.vm_end

-- The loop, where `none` is fuel that has run out.
unfoldable pub check_from : ℕ → Mm → ℕ → ℕ → Bool → Option (Bool × Mm)
check_from zero mm start end' write = none
check_from (suc fuel) mm start end' write =
    let found = find_vma mm start in
    let rest : Option (Bool × Mm) = elim (round_ok found.0 start write) [
      | none ↦ some (false, found.1)
      | some next ↦ check_from fuel found.1 next end' write
    ] in
    if ltb start end' then rest else some (true, mm)

-- `user_mem_check` for a process with an address space (`mm != NULL`).
unfoldable pub user_mem_check : ℕ → Mm → ℕ → ℕ → Bool → Option (Bool × Mm)
user_mem_check fuel mm addr len write =
    if user_access addr (u64 (addr + len))
    then check_from fuel mm addr (u64 (addr + len)) write
    else some (false, mm)
