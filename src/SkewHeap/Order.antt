-- ===== src/SkewHeap/Order.antt =====
-- The entries of a skew heap (libs/skew_heap.h) under its operations, and its order.
use oscmp.Base.{
  ℕ, ◌+◌, ◌≡◌, ◌≢◌, refl, true, false, arith, ◌==◌, if◌then◌else◌, Bool-cases, inl, inr,
}
use oscmp.SkewHeap.Defs.{Sign, Heap, null, entry, is_minus, skew_heap_merge, skew_heap_remove}

-- How often an entry stands in a heap, and how many entries it has.
abbrev pub count : ℕ → Heap → ℕ
count k null = 0
count k (entry x l r) = (if x == k then 1 else 0) + (count k l + count k r)

abbrev pub size : Heap → ℕ
size null = 0
size (entry x l r) = 1 + (size l + size r)

-- Every entry of the heap has the property.
abbrev pub All {ℓ} : (ℕ → Type ℓ) → Heap → Type ℓ
All P null = Unit
All P (entry x l r) = P x × All P l × All P r

module _ (comp : ℕ → ℕ → Sign) where
  -- No entry compares below the entry above it.
  abbrev pub RootOver : ℕ → Heap → Type 0
  RootOver x null = Unit
  RootOver x (entry y l r) = is_minus (comp y x) ≡ false

  abbrev pub IsOrdered : Heap → Type 0
  IsOrdered null = Unit
  IsOrdered (entry x l r) = RootOver x l × RootOver x r × IsOrdered l × IsOrdered r

  -- A merge holds the entries of both heaps, each as often as before.
  pub count-merge :
      (k : ℕ) (a b : Heap) → count k (skew_heap_merge comp a b) ≡ count k a + count k b
  unfolding skew_heap_merge
  count-merge k null b = omega arith
  count-merge k (entry x l r) null = omega arith
  count-merge k (entry x l r) (entry y l' r') =
      ground (arith, count-merge k r (entry y l' r'), count-merge k (entry x l r) r')

  pub size-merge : (a b : Heap) → size (skew_heap_merge comp a b) ≡ size a + size b
  unfolding skew_heap_merge
  size-merge null b = omega arith
  size-merge (entry x l r) null = omega arith
  size-merge (entry x l r) (entry y l' r') =
      ground (arith, size-merge r (entry y l' r'), size-merge (entry x l r) r')

  pub All-merge {ℓ} :
      (P : ℕ → Type ℓ) (a b : Heap) → All P a → All P b → All P (skew_heap_merge comp a b)
  unfolding skew_heap_merge
  All-merge P null b p q = q
  All-merge P (entry x l r) null p q = p
  All-merge P (entry x l r) (entry y l' r') p q =
      elim (is_minus (comp x y))
        as (λ t. All P (elim t [
          | true ↦ entry x (skew_heap_merge comp r (entry y l' r')) l
          | false ↦ entry y (skew_heap_merge comp (entry x l r) r') l'
        ])) [
          | true ↦ (p.0, All-merge P r (entry y l' r') p.2 q, p.1)
          | false ↦ (q.0, All-merge P (entry x l r) r' p q.2, q.1)
        ]

  remove-absent : (b : ℕ) (h : Heap) → count b h ≡ 0 → skew_heap_remove comp h b ≡ h
  unfolding skew_heap_remove
  remove-absent b null e = refl
  remove-absent b (entry x l r) e = ground (arith, remove-absent b l, remove-absent b r)

  -- Removing an entry that stands in the heap once takes out that entry alone.
  pub count-remove :
      (k b : ℕ) (h : Heap)
      → count b h ≡ 1
      → count k (skew_heap_remove comp h b) + (if b == k then 1 else 0) ≡ count k h
  unfolding skew_heap_remove
  count-remove k b null e = absurd (omega arith)
  count-remove k b (entry x l r) e = ground (
    arith,
    count-merge k l r,
    count-remove k b l,
    count-remove k b r,
    remove-absent b l,
    remove-absent b r,
  )

  pub size-remove :
      (b : ℕ) (h : Heap) → count b h ≡ 1 → size (skew_heap_remove comp h b) + 1 ≡ size h
  unfolding skew_heap_remove
  size-remove b null e = absurd (omega arith)
  size-remove b (entry x l r) e = ground (
    arith,
    size-merge l r,
    size-remove b l,
    size-remove b r,
    remove-absent b l,
    remove-absent b r,
  )

  pub All-remove {ℓ} :
      (P : ℕ → Type ℓ) (h : Heap) (b : ℕ) → All P h → All P (skew_heap_remove comp h b)
  unfolding skew_heap_remove
  All-remove P null b p = tt
  All-remove P (entry x l r) b p = elim (Bool-cases (x == b)) [
    | inl e ↦ rw e (All-merge P l r p.1 p.2)
    | inr e ↦ rw e (p.0, All-remove P l b p.1, All-remove P r b p.2)
  ]

-- The order of the heap, where `comp` is a total preorder on the entries that have the property `P`.
module _ (comp : ℕ → ℕ → Sign) (P : ℕ → Type 0)
    (total : (a b : ℕ) → P a → P b → is_minus (comp a b) ≡ true → is_minus (comp b a) ≡ false)
    (trans : (a b c : ℕ)
      → P a
      → P b
      → P c
      → is_minus (comp b a) ≡ false
      → is_minus (comp c b) ≡ false
      → is_minus (comp c a) ≡ false) where
  RootOver-merge :
      (x : ℕ) (a b : Heap)
      → RootOver comp x a
      → RootOver comp x b
      → RootOver comp x (skew_heap_merge comp a b)
  unfolding skew_heap_merge
  RootOver-merge x null b p q = q
  RootOver-merge x (entry y l r) null p q = p
  RootOver-merge x (entry y l r) (entry z l' r') p q = ground arith

  -- A merge of ordered heaps is ordered.
  pub merge-IsOrdered :
      (a b : Heap)
      → All P a
      → All P b
      → IsOrdered comp a
      → IsOrdered comp b
      → IsOrdered comp (skew_heap_merge comp a b)
  unfolding skew_heap_merge
  merge-IsOrdered null b p q o o' = o'
  merge-IsOrdered (entry x l r) null p q o o' = o
  merge-IsOrdered (entry x l r) (entry y l' r') p q o o' = elim (Bool-cases (is_minus (comp x y))) [
    | inl e ↦
        rw (e, skew_heap_merge)
          (
            RootOver-merge x r (entry y l' r') o.1 (total x y p.0 q.0 e),
            o.0,
            merge-IsOrdered r (entry y l' r') p.2 q o.3 o',
            o.2,
          )
    | inr e ↦
        rw (e, skew_heap_merge)
          (
            RootOver-merge y (entry x l r) r' e o'.1,
            o'.0,
            merge-IsOrdered (entry x l r) r' p q.2 o o'.3,
            o'.2,
          )
  ]

  RootOver-trans :
      (x y : ℕ) (h : Heap)
      → P x
      → P y
      → All P h
      → is_minus (comp y x) ≡ false
      → RootOver comp y h
      → RootOver comp x h
  RootOver-trans x y null px py ph e o = tt
  RootOver-trans x y (entry z l r) px py ph e o = trans x y z px py ph.0 e o

  RootOver-remove :
      (x : ℕ) (h : Heap) (b : ℕ)
      → P x
      → All P h
      → RootOver comp x h
      → IsOrdered comp h
      → RootOver comp x (skew_heap_remove comp h b)
  unfolding skew_heap_remove
  RootOver-remove x null b px ph o s = tt
  RootOver-remove x (entry y l r) b px ph o s = elim (Bool-cases (y == b)) [
    | inl e ↦ rw e (
        RootOver-merge x l r (RootOver-trans x y l px ph.0 ph.1 o s.0)
          (RootOver-trans x y r px ph.0 ph.2 o s.1))
    | inr e ↦ rw e o
  ]

  -- Removing any entry leaves an ordered heap ordered.
  pub remove-IsOrdered :
      (h : Heap) (b : ℕ) → All P h → IsOrdered comp h → IsOrdered comp (skew_heap_remove comp h b)
  unfolding skew_heap_remove
  remove-IsOrdered null b p o = tt
  remove-IsOrdered (entry x l r) b p o = elim (Bool-cases (x == b)) [
    | inl e ↦ rw e (merge-IsOrdered l r p.1 p.2 o.2 o.3)
    | inr e ↦ rw e (
      RootOver-remove x l b p.0 p.1 o.0 o.2,
      RootOver-remove x r b p.0 p.2 o.1 o.3,
      remove-IsOrdered l b p.1 o.2,
      remove-IsOrdered r b p.2 o.3,
    )
  ]

  -- No entry of an ordered heap compares below its root.
  pub root-least :
      (x : ℕ) (h : Heap)
      → P x
      → All P h
      → RootOver comp x h
      → IsOrdered comp h
      → All (λ y. is_minus (comp y x) ≡ false) h
  root-least x null px ph o s = tt
  root-least x (entry y l r) px ph o s = (
    o,
    root-least x l px ph.1 (RootOver-trans x y l px ph.0 ph.1 o s.0) s.2,
    root-least x r px ph.2 (RootOver-trans x y r px ph.0 ph.2 o s.1) s.3,
  )

-- Comparisons that agree on the entries order a heap alike.
pub IsOrdered-same :
    (c d : ℕ → ℕ → Sign) (P : ℕ → Type 0) (h : Heap)
    → ((a b : ℕ) → P a → P b → d a b ≡ c a b)
    → All P h
    → IsOrdered c h
    → IsOrdered d h
IsOrdered-same c d P null e p o = tt
IsOrdered-same c d P (entry x l r) e p o = (
  over x l p.0 p.1 o.0,
  over x r p.0 p.2 o.1,
  IsOrdered-same c d P l e p.1 o.2,
  IsOrdered-same c d P r e p.2 o.3,
)
  where
    over : (x : ℕ) (h : Heap) → P x → All P h → RootOver c x h → RootOver d x h
    over x null px ph o = tt
    over x (entry y l r) px ph o = rw (e y x ph.0 px) o

pub All-map {ℓ κ} :
    (P : ℕ → Type ℓ) (Q : ℕ → Type κ) (h : Heap) → ((a : ℕ) → P a → Q a) → All P h → All Q h
All-map P Q null f p = tt
All-map P Q (entry x l r) f p = (f x p.0, All-map P Q l f p.1, All-map P Q r f p.2)

pub All-both {ℓ κ} :
    (P : ℕ → Type ℓ) (Q : ℕ → Type κ) (h : Heap) → All P h → All Q h → All (λ a. P a × Q a) h
All-both P Q null p q = tt
All-both P Q (entry x l r) p q = ((p.0, q.0), All-both P Q l p.1 q.1, All-both P Q r p.2 q.2)

-- An entry that does not stand in the heap is none of its entries.
pub count-All : (k : ℕ) (h : Heap) → count k h ≡ 0 → All (λ a. a ≢ k) h
count-All k null e = tt
count-All k (entry x l r) e =
    (ground arith, count-All k l (ground arith), count-All k r (ground arith))
