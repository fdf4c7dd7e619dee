-- ===== src/Vmm/Check.antt =====
-- `user_mem_check` of kern/mm/vmm.c.
use oscmp.Base.{
  ℕ, zero, suc, ◌+◌, ◌≡◌, ◌<◌, ◌≤◌, refl, ap, ◌∙◌, ◌⊎◌, inl, inr, Bool, true, false, ◌&&◌, none,
  some, List, [], ◌∷◌, ltb, if◌then◌else◌, arith, Bool-cases, Option-cases, length,
}
use mathlib.Core.Path.{subst}
use oscmp.Vmm.Defs.{
  Vma, Mm, u64, pgsize, vm_read, vm_write, vm_stack, has_flag, user_access, holds, search_list,
  find_vma, round_ok, check_from, user_mem_check,
}
use oscmp.Vmm.Areas.{Mem, IsValid}
use oscmp.Vmm.Find.{search_list_found, find_vma-search_list}

-- How many areas end above an address.
abbrev pub above : ℕ → List Vma → ℕ
above a [] = 0
above a (v ∷ vs) = (if ltb a v.vm_end then 1 else 0) + above a vs

above_mono : (a b : ℕ) (vs : List Vma) → a ≤ b → above b vs ≤ above a vs
above_mono a b [] h = omega arith
above_mono a b (v ∷ vs) h = let r = above_mono a b vs h in ground arith

above_falls :
    (a : ℕ) (v : Vma) (vs : List Vma) → Mem v vs → a < v.vm_end → above v.vm_end vs < above a vs
above_falls a v [] m h = absurd m
above_falls a v (x ∷ xs) (inl e) h =
    let same : v.vm_end ≡ x.vm_end = ap (λ (w : Vma). w.vm_end) e in
    let r = above_mono a v.vm_end xs (omega arith) in ground (arith, same, r, h)
above_falls a v (x ∷ xs) (inr m) h = let r = above_falls a v xs m h in ground (arith, r, h)

above-le-length : (a : ℕ) (vs : List Vma) → above a vs ≤ length vs
above-le-length a [] = omega arith
above-le-length a (v ∷ vs) = let r = above-le-length a vs in ground arith

-- An area holds the address and allows the access.
abbrev pub Allowed : List Vma → Bool → ℕ → Type 0
Allowed vs write a =
    (v : Vma) × Mem v vs
    × (holds v a ≡ true)
    × (has_flag v.vm_flags (if write then vm_write else vm_read) ≡ true)

round_ok-cases :
    (v : Vma) (start : ℕ) (write : Bool)
    → (round_ok (some v) start write ≡ none)
      ⊎ ((round_ok (some v) start write ≡ some v.vm_end)
          × (has_flag v.vm_flags (if write then vm_write else vm_read) ≡ true))
round_ok-cases v start write =
    let flag = if write then vm_write else vm_read in
    let guarded = write && has_flag v.vm_flags vm_stack && ltb start (v.vm_start + pgsize) in
    elim (Bool-cases (ltb start v.vm_start)) [
      | inl y ↦ inl (rw y refl)
      | inr y ↦ elim (Bool-cases (has_flag v.vm_flags flag)) [
        | inr f ↦ inl (rw (y, f) refl)
        | inl f ↦ elim (Bool-cases guarded) [
          | inl g ↦ inl (rw (y, f, g) refl)
          | inr g ↦ inr (rw (y, f, g) refl, f)
        ]
      ]
    ]

check_from-Allowed :
    (fuel : ℕ) (mm : Mm) (start end' : ℕ) (write : Bool)
    → IsValid mm
    → above start mm.mmap_list < fuel
    → (r : Bool) × (mm' : Mm) × (check_from fuel mm start end' write ≡ some (r, mm'))
      × IsValid mm'
      × (mm'.mmap_list ≡ mm.mmap_list)
      × (r ≡ true → (a : ℕ) → start ≤ a → a < end' → Allowed mm.mmap_list write a)
unfolding check_from
check_from-Allowed zero mm start end' write h lt = absurd (omega arith)
check_from-Allowed (suc fuel) mm start end' write h lt = elim (Bool-cases (ltb start end')) [
  | inr z ↦ (true, mm, rw z refl, h, refl, λ e a lo hi. absurd (ground (arith, z, lo, hi)))
  | inl z ↦
      let (q, valid, same) = find_vma-search_list mm start h in
      elim (Option-cases (search_list mm.mmap_list start)) [
        | inl e ↦
            (false, (find_vma mm start).1, rw (z, q, e) refl, valid, same, λ f. grind (arith, f))
        | inr (v, e) ↦
            let (m, holds_start) = search_list_found v mm.mmap_list start e in
            let past : start < v.vm_end = ground (arith, holds_start) in
            let mm₁ = (find_vma mm start).1 in
            elim (round_ok-cases v start write) [
              | inl n ↦ (false, mm₁, rw (z, q, e, n) refl, valid, same, λ f. grind (arith, f))
              | inr (n, flag) ↦
                  let falls = above_falls start v mm.mmap_list m past in
                  let left : above v.vm_end mm₁.mmap_list < fuel = rw same (omega arith) in
                  let (r, mm', run, valid', same', all) =
                    check_from-Allowed fuel mm₁ v.vm_end end' write valid left in
                  (
                    r,
                    mm',
                    rw (z, q, e, n) run,
                    valid',
                    same' ∙ same,
                    λ ok a lo hi. elim (Bool-cases (ltb a v.vm_end)) [
                      | inl b ↦ (v, m, ground (arith, holds_start, b, lo), flag)
                      | inr b ↦
                          subst (λ vs. Allowed vs write a) same (all ok a (ground (arith, b)) hi)
                    ],
                  )
            ]
      ]
]

-- On a valid address space `user_mem_check` returns, given a round for each area and one more. If
-- it says yes, then the range is one of user addresses, and each address of it lies in an area
-- that allows the access; the address space is as it was, up to its cache.
pub user_mem_check-Allowed :
    (fuel : ℕ) (mm : Mm) (addr len : ℕ) (write : Bool)
    → IsValid mm
    → length mm.mmap_list < fuel
    → (r : Bool) × (mm' : Mm) × (user_mem_check fuel mm addr len write ≡ some (r, mm'))
      × IsValid mm'
      × (mm'.mmap_list ≡ mm.mmap_list)
      × (r ≡ true
          → (user_access addr (u64 (addr + len)) ≡ true)
            × ((a : ℕ) → addr ≤ a → a < u64 (addr + len) → Allowed mm.mmap_list write a))
unfolding user_mem_check
user_mem_check-Allowed fuel mm addr len write h lt =
    elim (Bool-cases (user_access addr (u64 (addr + len)))) [
      | inr z ↦ (false, mm, rw z refl, h, refl, λ f. grind (arith, f))
      | inl z ↦
          let le = above-le-length addr mm.mmap_list in
          let (r, mm', run, valid, same, all) =
            check_from-Allowed fuel mm addr (u64 (addr + len)) write h (omega arith) in
          (r, mm', rw z run, valid, same, λ ok. (z, all ok))
    ]
