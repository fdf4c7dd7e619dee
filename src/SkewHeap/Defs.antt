-- ===== src/SkewHeap/Defs.antt =====
-- libs/skew_heap.h: the tree below a `skew_heap_entry_t *`, by the addresses of its entries. The
-- `parent` pointers are the positions in the tree. `comp` is the comparison function of the caller.
use oscmp.Base.{ℕ, Bool, true, false, ◌==◌, if◌then◌else◌}

-- What a `compare_f` returns.
pub data Sign : Type 0 where
  minus zero plus : Sign

pub data Heap : Type 0 where
  null : Heap
  entry : ℕ → Heap → Heap → Heap

-- `comp(a, b) == -1`
abbrev pub is_minus : Sign → Bool
is_minus minus = true
is_minus _ = false

unfoldable pub skew_heap_init : ℕ → Heap
skew_heap_init a = entry a null null

module _ (comp : ℕ → ℕ → Sign) where
  unfoldable pub skew_heap_merge : Heap → Heap → Heap
  skew_heap_merge null b = b
  skew_heap_merge (entry x l r) null = entry x l r
  skew_heap_merge (entry x l r) (entry y l' r') = elim (is_minus (comp x y)) [
    | true ↦ entry x (skew_heap_merge r (entry y l' r')) l
    | false ↦ entry y (skew_heap_merge (entry x l r) r') l'
  ]

  unfoldable pub skew_heap_insert : Heap → ℕ → Heap
  skew_heap_insert a b = skew_heap_merge a (skew_heap_init b)

  -- The children of `b` are merged, and the result stands where `b` stood.
  unfoldable pub skew_heap_remove : Heap → ℕ → Heap
  skew_heap_remove null b = null
  skew_heap_remove (entry x l r) b =
      if x == b then skew_heap_merge l r else entry x (skew_heap_remove l b) (skew_heap_remove r b)
