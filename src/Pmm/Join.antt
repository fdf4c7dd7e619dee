-- ===== src/Pmm/Join.antt =====
-- The two merges at the end of `default_free_pages` of kern/mm/default_pmm.c: each joins a block
-- with the block that starts where it ends.
use oscmp.Base.{
  ℕ, ◌+◌, ◌≡◌, refl, Bool, true, false, ◌||◌, ◌&&◌, List, [], ◌∷◌, ◌++◌, arith, leb, ltb, update,
  Fresh,
}
use mathlib.Core.List.{append_assoc}
use oscmp.Dlist.{list_del, list_del-IsList}
use oscmp.Pmm.Defs.{Pmm, Page, u32, edit, clear_head}
use oscmp.Pmm.Blocks.{
  IsValid, total-append, total-frame, Blocks-frame, Above-le, Above-Fresh, Blocks-split,
  Blocks-append, EndsBy-Fresh, EndsBy-frame,
}

-- Page `k` lies in a block of the list.
abbrev pub covers : (ℕ → Page) → List ℕ → ℕ → Bool
covers pages [] k = false
covers pages (x ∷ xs) k = (leb x k && ltb k (x + (pages x).property)) || covers pages xs k

pub covers-frame :
    (pages : ℕ → Page) (i : ℕ) (q : Page) (xs : List ℕ) (k : ℕ)
    → Fresh i xs
    → covers (update pages i q) xs k ≡ covers pages xs k
covers-frame pages i q [] k f = refl
covers-frame pages i q (x ∷ xs) k f = ground (arith, covers-frame pages i q xs k f.1)

pub covers-append :
    (pages : ℕ → Page) (xs ys : List ℕ) (k : ℕ)
    → covers pages (xs ++ ys) k ≡ (covers pages xs k || covers pages ys k)
covers-append pages [] ys k = refl
covers-append pages (x ∷ xs) ys k = ground (arith, covers-append pages xs ys k)

-- The heap in which the block `p` has taken in the block `q`.
abbrev pub joined : Pmm → ℕ → ℕ → Pmm
joined m p q = record m {
  pages =
      edit (edit m.pages p (λ b. record b { property = u32 (b.property + (m.pages q).property) })) q
        clear_head;
  links = list_del m.links q;
}

-- A valid heap stays valid when a block takes in the block that starts where it ends, and the same
-- pages are free.
pub record Joined (m : Pmm) (l : List ℕ) (p q : ℕ) (r : List ℕ) : Type 0 where
  pub valid : IsValid (joined m p q) (l ++ (p ∷ r))
  pub size : ((joined m p q).pages p).property ≡ (m.pages p).property + (m.pages q).property
  pub pages :
      (k : ℕ) → covers (joined m p q).pages (l ++ (p ∷ r)) k ≡ covers m.pages (l ++ (p ∷ q ∷ r)) k

pub join :
    (m : Pmm) (l : List ℕ) (p q : ℕ) (r : List ℕ)
    → IsValid m (l ++ (p ∷ q ∷ r))
    → p + (m.pages p).property ≡ q
    → Joined m l p q r
join m l p q r v e =
    let (bl, el, bp) = Blocks-split m.pages l p (q ∷ r) v.blocks in
    let c = total-append m.pages l (p ∷ q ∷ r) in
    let bq = bp.3 in
    let w : Page = record (m.pages p) {
      property = u32 ((m.pages p).property + (m.pages q).property);
    } in
    let s : ℕ → Page = update m.pages p w in
    let z : Page = clear_head (s q) in
    let size : (update s q z p).property ≡ (m.pages p).property + (m.pages q).property =
      ground (arith, c, v.counted, v.small) in
    let flag : (update s q z p).head ≡ true = ground arith in
    let fl = EndsBy-Fresh m.pages l p p bl el (omega arith) in
    let gl = EndsBy-Fresh m.pages l p q bl el (omega arith) in
    let fr = Above-Fresh _ p r (omega arith) bp.2.1 in
    let gr = Above-Fresh _ q r (omega arith) bq.2 in
    record {
      valid = record {
        list = rw append_assoc at (
            list_del-IsList m.links 0 (l ++ (p ∷ [])) r q
              (rw (append_assoc l (p ∷ []) (q ∷ r)) v.list));
        blocks =
            Blocks-append (update s q z) l p (p ∷ r)
              (Blocks-frame s q z l gl (Blocks-frame m.pages p w l fl bl))
              (EndsBy-frame s q z l p gl (EndsBy-frame m.pages p w l p fl el))
              (omega arith, Above-le _ p r (omega arith) bp.2.1)
              (
                flag,
                omega (arith, size, bp.1),
                Above-le _ _ r (omega (arith, size)) bq.2,
                Blocks-frame s q z r gr (Blocks-frame m.pages p w r fr bq.3),
              );
        counted = omega (
          arith,
          total-append (update s q z) l (p ∷ r),
          total-frame s q z l gl,
          total-frame m.pages p w l fl,
          total-frame s q z r gr,
          total-frame m.pages p w r fr,
          size,
          c,
          v.counted,
        );
        small = v.small;
      };
      size = size;
      pages = λ k. ground (
        arith,
        covers-append (update s q z) l (p ∷ r) k,
        covers-append m.pages l (p ∷ q ∷ r) k,
        covers-frame s q z l k gl,
        covers-frame m.pages p w l k fl,
        covers-frame s q z r k gr,
        covers-frame m.pages p w r k fr,
        size,
      );
    }
