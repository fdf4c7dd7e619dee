-- ===== src/Kmalloc/Defs.antt =====
-- kern/mm/kmalloc.c. Addresses count units of 16 bytes (`SLOB_UNIT`), so that a page has 256 of them,
-- and NULL is 0. `slob_alloc` is called with `align` 0 only, and that branch of it is left out. The
-- list of big blocks is a sequence. The page allocator is an interface: `alloc_pages` takes an order.
-- Sizes are below 2 ^ 31. Loops take fuel; `none` is a failed assertion, or fuel that has run out.
use oscmp.Base.{
  ℕ, zero, suc, ◌+◌, ◌-◌, ◌*◌, ◌/◌, ◌%◌, ◌^◌, Bool, ◌&&◌, ◌||◌, Option, none, some, List, [], ◌∷◌,
  ltb, leb, ◌==◌, if◌then◌else◌, assert, ◌>>=◌, update,
}

abbrev pub page_size : ℕ
page_size = 4096

abbrev pub slob_unit : ℕ
slob_unit = 16

abbrev pub slob_units : ℕ → ℕ
slob_units size = (size + slob_unit - 1) / slob_unit

abbrev pub sizeof_bigblock : ℕ
sizeof_bigblock = 24

-- `struct bigblock` with its address.
pub record Bigblock : Type 0 where
  pub at : ℕ
  pub order : ℕ
  pub pages : ℕ

-- The fields of `slob_block` by address, and the variables of the file.
pub record Slob (P : Type 0) : Type 0 where
  pub units : ℕ → ℕ
  pub next : ℕ → ℕ
  pub slobfree : ℕ
  pub bigblocks : List Bigblock
  pub pages : P

-- `for ( ; size > 4096 ; size >>=1) order++;`
unfoldable pub find_order : ℕ → ℕ → Option ℕ
find_order zero size = none
find_order (suc fuel) size =
    let rest = find_order fuel (size / 2) in
    if ltb page_size size then (rest >>= λ k. some (suc k)) else some 0

unfoldable pub find_big : ℕ → List Bigblock → Option (Bigblock × List Bigblock)
find_big block [] = none
find_big block (b ∷ bs) =
    let rest = find_big block bs >>= λ r. some (r.0, b ∷ r.1) in
    if b.pages == block then some (b, bs) else rest

abbrev pub is_page : ℕ → Bool
is_page block = block % 256 == 0

module _ {P : Type 0} (alloc_pages : ℕ → P → Option ℕ × P) (free_pages : ℕ → ℕ → P → P) where
  -- The loop of `slob_free`: where to put `b` in.
  unfoldable pub find_place : ℕ → ℕ → ℕ → Slob P → Option ℕ
  find_place zero b cur s = none
  find_place (suc fuel) b cur s =
      let n = s.next cur in
      let rest = find_place fuel b n s in
      if ltb cur b && ltb b n
      then some cur
      else if leb n cur && (ltb cur b || ltb b n)
      then some cur
      else rest

  -- From the reinsertion point `cur` on.
  abbrev pub insert_block : ℕ → ℕ → Slob P → Slob P
  insert_block b cur s =
      let n = s.next cur in
      let above : Slob P =
        if b + s.units b == n
        then record s {
          units = update s.units b (s.units b + s.units n);
          next = update s.next b (s.next n);
        }
        else record s { next = update s.next b n } in
      let below : Slob P =
        if cur + above.units cur == b
        then record above {
          units = update above.units cur (above.units cur + above.units b);
          next = update above.next cur (above.next b);
        }
        else record above { next = update above.next cur b } in
      record below { slobfree = cur }

  unfoldable pub slob_free : ℕ → ℕ → ℕ → Slob P → Option (Slob P)
  slob_free fuel block size s =
      let s' : Slob P =
        if size == 0 then s else record s { units = update s.units block (slob_units size) } in
      if block == 0
      then some s
      else (find_place fuel block s.slobfree s' >>= λ cur. some (insert_block block cur s'))

  -- Enough room in `cur`.
  abbrev pub take_units : ℕ → ℕ → ℕ → Slob P → Slob P
  take_units units prev cur s =
      let rest = cur + units in
      let taken : Slob P =
        if s.units cur == units
        then record s { next = update s.next prev (s.next cur) }
        else record s {
          next = update (update s.next prev rest) rest (s.next cur);
          units = update (update s.units rest (s.units cur - units)) cur units;
        } in
      record taken { slobfree = prev }

  -- A page more for the list, with the `cur` of the next round.
  abbrev pub grow : ℕ → Option ℕ × P → Slob P → Option (Option ℕ × Slob P)
  grow fuel (none, pages) s = some (none, record s { pages = pages })
  grow fuel (some page, pages) s =
      slob_free fuel page page_size (record s { pages = pages }) >>= λ u. some (some u.slobfree, u)

  unfoldable pub slob_loop : ℕ → ℕ → ℕ → ℕ → ℕ → Slob P → Option (Option ℕ × Slob P)
  slob_loop zero size units prev cur s = none
  slob_loop (suc fuel) size units prev cur s =
      let go_on = slob_loop fuel size units cur (s.next cur) s in
      let more = grow fuel (alloc_pages 0 s.pages) s >>= λ r. elim r.0 [
        | none ↦ some (none, r.1)
        | some c ↦ slob_loop fuel size units c (r.1.next c) r.1
      ] in
      if leb units (s.units cur)
      then some (some cur, take_units units prev cur s)
      else if cur == s.slobfree
      then (if size == page_size then some (none, s) else more)
      else go_on

  unfoldable pub slob_alloc : ℕ → ℕ → Slob P → Option (Option ℕ × Slob P)
  slob_alloc fuel size s =
      assert (ltb (size + slob_unit) page_size)
        (slob_loop fuel size (slob_units size) s.slobfree (s.next s.slobfree) s)

  -- The part of `__kmalloc` for a big block, with the result of `__slob_get_free_pages`.
  abbrev pub big_pages : ℕ → ℕ → ℕ → Option ℕ × P → Slob P → Option (Option ℕ × Slob P)
  big_pages fuel at order (some pages, p) s = some (
    some pages,
    record s {
      bigblocks = record { at = at; order = order; pages = pages } ∷ s.bigblocks;
      pages = p;
    },
  )
  big_pages fuel at order (none, p) s =
      slob_free fuel at sizeof_bigblock (record s { pages = p }) >>= λ u. some (none, u)

  abbrev pub big_block : ℕ → ℕ → Option ℕ × Slob P → Option (Option ℕ × Slob P)
  big_block fuel size (none, s) = some (none, s)
  big_block fuel size (some at, s) =
      find_order fuel size >>= λ order. big_pages fuel at order (alloc_pages order s.pages) s

  abbrev pub behind_header : Option ℕ × Slob P → Option ℕ × Slob P
  behind_header (none, s) = (none, s)
  behind_header (some m, s) = (some (m + 1), s)

  -- The address, or `none` inside for NULL.
  unfoldable pub kmalloc : ℕ → ℕ → Slob P → Option (Option ℕ × Slob P)
  kmalloc fuel size s =
      if ltb size (page_size - slob_unit)
      then (slob_alloc fuel (size + slob_unit) s >>= λ r. some (behind_header r))
      else (slob_alloc fuel sizeof_bigblock s >>= λ r. big_block fuel size r)

  abbrev pub free_found : ℕ → ℕ → Option (Bigblock × List Bigblock) → Slob P → Option (Slob P)
  free_found fuel block none s = slob_free fuel (block - 1) 0 s
  free_found fuel block (some (b, bs)) s =
      slob_free fuel b.at sizeof_bigblock
        (record s { bigblocks = bs; pages = free_pages block b.order s.pages })

  unfoldable pub kfree : ℕ → ℕ → Slob P → Option (Slob P)
  kfree fuel block s =
      if block == 0
      then some s
      else free_found fuel block (if is_page block then find_big block s.bigblocks else none) s

  abbrev pub size_found : Option (Bigblock × List Bigblock) → ℕ → Slob P → ℕ
  size_found none block s = s.units (block - 1) * slob_unit
  size_found (some (b, bs)) block s = page_size * 2 ^ b.order

  unfoldable pub ksize : ℕ → Slob P → ℕ
  ksize block s =
      if block == 0
      then 0
      else size_found (if is_page block then find_big block s.bigblocks else none) block s
