-- ===== src/Vmm/Areas.antt =====
-- The order of the areas in the list of kern/mm/vmm.c, and what an insertion keeps.
use oscmp.Base.{
  ℕ, ◌+◌, ◌≡◌, ◌<◌, ◌≤◌, refl, ◌⊎◌, inl, inr, true, false, Option, none, some, List, [], ◌∷◌, ltb,
  arith, Bool-cases, length,
}
use oscmp.Vmm.Defs.{Vma, Mm, check_vma_overlap, after_prev, place, insert_vma_struct}

-- The areas are not empty, do not overlap, and stand in the order of their addresses from `lo` up.
abbrev pub Areas : ℕ → List Vma → Type 0
Areas lo [] = Unit
Areas lo (v ∷ vs) = (lo ≤ v.vm_start) × (v.vm_start < v.vm_end) × Areas v.vm_end vs

-- Two areas have no address in common.
abbrev pub Apart : Vma → Vma → Type 0
Apart v w = (v.vm_end ≤ w.vm_start) ⊎ (w.vm_end ≤ v.vm_start)

abbrev pub AllApart : Vma → List Vma → Type 0
AllApart v [] = Unit
AllApart v (w ∷ ws) = Apart v w × AllApart v ws

-- The second list is the first with `v` put in at one place.
pub data Added (v : Vma) : List Vma → List Vma → Type 0 where
  here : {vs : List Vma} → Added v vs (v ∷ vs)
  there : {w : Vma} {vs ws : List Vma} → Added v vs ws → Added v (w ∷ vs) (w ∷ ws)

pub Areas-weaken : {lo lo' : ℕ} (vs : List Vma) → lo' ≤ lo → Areas lo vs → Areas lo' vs
Areas-weaken [] h a = tt
Areas-weaken (v ∷ vs) h a = (omega arith, a.1, a.2)

-- The first area above `v` decides: `v` has a place exactly if it is apart from all.
place_fits :
    (prev : Option Vma) (v : Vma) (vs : List Vma) (lo : ℕ)
    → v.vm_start < v.vm_end
    → lo ≤ v.vm_start
    → after_prev prev v ≡ true
    → Areas lo vs
    → AllApart v vs
    → (ws : List Vma) × (place prev v vs ≡ some ws) × Areas lo ws × Added v vs ws
unfolding place
place_fits prev v [] lo pos h fits a apart = (v ∷ [], rw fits refl, (h, pos, tt), here)
place_fits prev v (x ∷ xs) lo pos h fits a apart = elim (Bool-cases (ltb v.vm_start x.vm_start)) [
  | inl z ↦
      let o : check_vma_overlap v x ≡ true = ground (arith, z, apart.0) in
      (v ∷ x ∷ xs, rw (z, fits, o) refl, (h, pos, (ground (arith, z, apart.0), a.1, a.2)), here)
  | inr z ↦
      let le : x.vm_end ≤ v.vm_start = ground (arith, z, apart.0) in
      let (ws, e, b, added) =
        place_fits (some x) v xs x.vm_end pos le (ground (arith, le)) a.2 apart.1 in
      (x ∷ ws, rw (z, e) refl, (a.0, a.1, b), there added)
]

-- Two areas have an address in common.
abbrev pub Overlap : Vma → Vma → Type 0
Overlap v w = (v.vm_start < w.vm_end) × (w.vm_start < v.vm_end)

abbrev pub AnyOverlap : Vma → List Vma → Type 0
AnyOverlap v [] = ⊥
AnyOverlap v (w ∷ ws) = Overlap v w ⊎ AnyOverlap v ws

AnyOverlap-above :
    (v : Vma) (vs : List Vma) (lo : ℕ) → Areas lo vs → AnyOverlap v vs → lo < v.vm_end
AnyOverlap-above v [] lo a o = absurd o
AnyOverlap-above v (x ∷ xs) lo a (inl o) = omega arith
AnyOverlap-above v (x ∷ xs) lo a (inr o) =
    let h = AnyOverlap-above v xs x.vm_end a.2 o in omega arith

place_behind :
    (prev : Option Vma) (v : Vma) (vs : List Vma) (lo : ℕ)
    → v.vm_start < lo
    → after_prev prev v ≡ false
    → Areas lo vs
    → place prev v vs ≡ none
unfolding place
place_behind prev v [] lo lt f a = rw f refl
place_behind prev v (x ∷ xs) lo lt f a =
    let z : ltb v.vm_start x.vm_start ≡ true = ground arith in rw (z, f) refl

place_overlaps :
    (prev : Option Vma) (v : Vma) (vs : List Vma) (lo : ℕ)
    → Areas lo vs
    → AnyOverlap v vs
    → place prev v vs ≡ none
unfolding place
place_overlaps prev v [] lo a o = absurd o
place_overlaps prev v (x ∷ xs) lo a o = elim (Bool-cases (ltb v.vm_start x.vm_start)) [
  | inl z ↦
      let above : x.vm_start < v.vm_end = into o in
      let f : check_vma_overlap v x ≡ false = ground (arith, above) in
      elim (Bool-cases (after_prev prev v)) [ inl y ↦ rw (z, y, f) refl | inr y ↦ rw (z, y) refl ]
  | inr z ↦ rw (z, below (place_overlaps (some x) v xs x.vm_end a.2) o (ground (arith, z))) refl
]
  where
    into : Overlap v x ⊎ AnyOverlap v xs → x.vm_start < v.vm_end
    into (inl p) = p.1
    into (inr p) = let h = AnyOverlap-above v xs x.vm_end a.2 p in omega arith

    below :
        (AnyOverlap v xs → place (some x) v xs ≡ none)
        → Overlap v x ⊎ AnyOverlap v xs
        → x.vm_start ≤ v.vm_start
        → place (some x) v xs ≡ none
    below go (inl p) le = place_behind (some x) v xs x.vm_end p.0 (ground (arith, p.0)) a.2
    below go (inr p) le = go p

-- The list is in order, and the cache holds one of its areas.
abbrev pub Mem : Vma → List Vma → Type 0
Mem v [] = ⊥
Mem v (w ∷ ws) = (v ≡ w) ⊎ Mem v ws

abbrev pub CacheIn : Option Vma → List Vma → Type 0
CacheIn none vs = Unit
CacheIn (some v) vs = Mem v vs

pub record IsValid (mm : Mm) : Type 0 where
  pub areas : Areas 0 mm.mmap_list
  pub cache : CacheIn mm.mmap_cache mm.mmap_list
  pub counted : mm.map_count ≡ length mm.mmap_list

pub Mem-Added : (v w : Vma) {vs ws : List Vma} → Added v vs ws → Mem w vs → Mem w ws
Mem-Added v w here m = inr m
Mem-Added v w (there a) (inl e) = inl e
Mem-Added v w (there a) (inr m) = inr (Mem-Added v w a m)

pub length-Added : (v : Vma) {vs ws : List Vma} → Added v vs ws → length ws ≡ length vs + 1
length-Added v {vs} here = omega arith
length-Added v (there a) = let h = length-Added v a in omega arith

-- An area that is apart from all others is inserted and keeps the address space valid: it is the
-- only change. One that shares an address with another is a panic.
pub insert_vma_struct-Added :
    (mm : Mm) (v : Vma)
    → IsValid mm
    → v.vm_start < v.vm_end
    → (AllApart v mm.mmap_list
        → (mm' : Mm) × (insert_vma_struct mm v ≡ some mm')
          × IsValid mm'
          × Added v mm.mmap_list mm'.mmap_list)
      × (AnyOverlap v mm.mmap_list → insert_vma_struct mm v ≡ none)
unfolding insert_vma_struct
insert_vma_struct-Added mm v h pos =
    let z : ltb v.vm_start v.vm_end ≡ true = ground arith in
    (
      λ apart.
          let (ws, e, b, added) =
            place_fits none v mm.mmap_list 0 pos (omega arith) refl h.areas apart in
          let mm' : Mm = record mm { mmap_list = ws; map_count = mm.map_count + 1 } in
          let n : length ws ≡ length mm.mmap_list + 1 = length-Added v added in
          (
            mm',
            rw (z, e) refl,
            record {
              areas = b;
              cache = cache_in mm.mmap_cache added h.cache;
              counted = let c = h.counted in omega arith;
            },
            added,
          ),
      λ o. rw (z, place_overlaps none v mm.mmap_list 0 h.areas o) refl,
    )
  where
    cache_in : (c : Option Vma) {vs ws : List Vma} → Added v vs ws → CacheIn c vs → CacheIn c ws
    cache_in none added m = tt
    cache_in (some w) added m = Mem-Added v w added m
