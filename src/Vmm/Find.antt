-- ===== src/Vmm/Find.antt =====
-- `find_vma` of kern/mm/vmm.c and its cache.
use oscmp.Base.{
  ℕ, ◌≡◌, ◌≤◌, refl, sym, ap, ◌∙◌, inl, inr, true, false, Option, none, some, List, [], ◌∷◌,
  if◌then◌else◌, arith, Bool-cases,
}
use oscmp.Vmm.Defs.{Vma, Mm, holds, search_list, cache_hit, cached, find_vma}
use oscmp.Vmm.Areas.{Areas, Mem, CacheIn, IsValid}

Mem-above : (v : Vma) (vs : List Vma) (lo : ℕ) → Areas lo vs → Mem v vs → lo ≤ v.vm_start
Mem-above v [] lo a m = absurd m
Mem-above v (x ∷ xs) lo a (inl e) = rw e a.0
Mem-above v (x ∷ xs) lo a (inr m) = let h = Mem-above v xs x.vm_end a.2 m in omega arith

-- No two areas of a list in order hold one address.
pub search_list-Mem :
    (v : Vma) (vs : List Vma) (lo addr : ℕ)
    → Areas lo vs
    → Mem v vs
    → holds v addr ≡ true
    → search_list vs addr ≡ some v
unfolding search_list
search_list-Mem v [] lo addr a m h = absurd m
search_list-Mem v (x ∷ xs) lo addr a (inl e) h = rw (sym e, h) refl
search_list-Mem v (x ∷ xs) lo addr a (inr m) h =
    let above = Mem-above v xs x.vm_end a.2 m in
    let out : holds x addr ≡ false = ground (arith, h, above) in
    rw out (search_list-Mem v xs x.vm_end addr a.2 m h)

pub search_list_found :
    (v : Vma) (vs : List Vma) (addr : ℕ)
    → search_list vs addr ≡ some v
    → Mem v vs × (holds v addr ≡ true)
unfolding search_list
search_list_found v [] addr e = grind (arith, e)
search_list_found v (x ∷ xs) addr e = elim (Bool-cases (holds x addr)) [
  | inl z ↦ let xv : x ≡ v = some_inj (sym (rw z refl) ∙ e) in (inl (sym xv), rw (sym xv) z)
  | inr z ↦ let (m, h) = search_list_found v xs addr (sym (rw z refl) ∙ e) in (inr m, h)
]
  where
    some_inj : {a b : Vma} → some a ≡ some b → a ≡ b
    some_inj e = grind (arith, e)

-- The walk of the list gives what the cache gives.
pub find_vma-cached :
    (mm : Mm) (addr : ℕ) → IsValid mm → find_vma mm addr ≡ cached (search_list mm.mmap_list addr) mm
unfolding find_vma
find_vma-cached mm addr h = ap (λ o. cached o mm) (seen mm.mmap_cache h.cache)
  where
    seen :
        (c : Option Vma)
        → CacheIn c mm.mmap_list
        → (if cache_hit c addr then c else search_list mm.mmap_list addr)
          ≡ search_list mm.mmap_list addr
    seen none m = refl
    seen (some v) m = elim (Bool-cases (holds v addr)) [
      | inl z ↦ rw z (sym (search_list-Mem v mm.mmap_list 0 addr h.areas m z))
      | inr z ↦ rw z refl
    ]

-- The cache changes no result: on a valid address space `find_vma` returns the one area that holds
-- the address, or NULL if there is none, as the walk of the list alone does. It keeps the address
-- space valid, and changes nothing but the cache.
pub find_vma-search_list :
    (mm : Mm) (addr : ℕ)
    → IsValid mm
    → ((find_vma mm addr).0 ≡ search_list mm.mmap_list addr)
      × IsValid (find_vma mm addr).1
      × ((find_vma mm addr).1.mmap_list ≡ mm.mmap_list)
find_vma-search_list mm addr h =
    rw (find_vma-cached mm addr h) (result (search_list mm.mmap_list addr) refl)
  where
    result :
        (o : Option Vma)
        → search_list mm.mmap_list addr ≡ o
        → ((cached o mm).0 ≡ o)
          × IsValid (cached o mm).1
          × ((cached o mm).1.mmap_list ≡ mm.mmap_list)
    result none e = (refl, h, refl)
    result (some v) e = (
      refl,
      record {
        areas = h.areas;
        cache = (search_list_found v mm.mmap_list addr e).0;
        counted = h.counted;
      },
      refl,
    )
