-- ===== src/Pmm/Defs.antt =====
-- kern/mm/default_pmm.c: the page descriptors, the free list and the operations of
-- `default_pmm_manager`. A descriptor is its address, counted in `struct Page` from the slot before
-- the array, and `page_link` goes by the address of its page; address 0 is `&free_list`. A panic, and a walk
-- that does not end within its fuel, is `none`.
use oscmp.Base.{
  ℕ, zero, suc, ◌+◌, ◌-◌, ◌%◌, ◌^◌, Bool, true, false, not, ◌&&◌, Option, none, some, ltb, leb,
  ◌==◌, if◌then◌else◌, assert, ◌>>=◌, update,
}
use oscmp.Dlist.{Links, list_init, list_add, list_add_before, list_del, list_empty}

-- `struct Page`: `reserved` and `head` are the bits PG_reserved and PG_property of `flags`.
pub record Page : Type 0 where
  pub ref : ℕ
  pub reserved : Bool
  pub head : Bool
  pub property : ℕ

-- `free_area` with the page descriptors and their links.
pub record Pmm : Type 0 where
  pub pages : ℕ → Page
  pub links : Links
  pub nr_free : ℕ

abbrev pub free_list : ℕ
free_list = 0

-- `unsigned int`
abbrev pub u32 : ℕ → ℕ
u32 n = n % 2 ^ 32

abbrev pub property_of : Pmm → ℕ → ℕ
property_of m p = (m.pages p).property

-- `base->property = n; SetPageProperty(base);` and the other updates of one descriptor.
abbrev pub set_head : ℕ → Page → Page
set_head n p = record p { head = true; property = u32 n }

abbrev pub clear_head : Page → Page
clear_head p = record p { head = false }

abbrev pub edit : (ℕ → Page) → ℕ → (Page → Page) → ℕ → Page
edit pages p f = update pages p (f (pages p))

unfoldable pub default_init : Pmm → Pmm
default_init m = record m { links = list_init m.links free_list; nr_free = 0 }

-- `for (; p != base + n; p ++)` of `default_init_memmap`
unfoldable pub reset_pages : ℕ → ℕ → (ℕ → Page) → Option (ℕ → Page)
reset_pages zero p pages = some pages
reset_pages (suc n) p pages = assert (pages p).reserved (
    reset_pages n (p + 1)
      (update pages p (record { ref = 0; reserved = false; head = false; property = 0 })))

-- `for (; p != base + n; p ++)` of `default_free_pages`
unfoldable pub release_pages : ℕ → ℕ → (ℕ → Page) → Option (ℕ → Page)
release_pages zero p pages = some pages
release_pages (suc n) p pages = assert (not (pages p).reserved && not (pages p).head) (
    release_pages n (p + 1)
      (update pages p (record (pages p) { ref = 0; reserved = false; head = false })))

-- The `while` that looks for the place of `base`: there is no `break` after the `list_add`.
unfoldable pub insert_walk : ℕ → Links → ℕ → ℕ → Option Links
insert_walk zero s le base = none
insert_walk (suc fuel) s le base =
    let le' = s.next le in
    let added = insert_walk fuel (list_add s le' base) le' base in
    let rest = insert_walk fuel s le' base in
    if le' == free_list
    then some s
    else if ltb base le'
    then some (list_add_before s le' base)
    else if s.next le' == free_list
    then added
    else rest

unfoldable pub insert_free : ℕ → Links → ℕ → Option Links
insert_free fuel s base =
    if list_empty s free_list
    then some (list_add s free_list base)
    else insert_walk fuel s free_list base

unfoldable pub default_init_memmap : ℕ → Pmm → ℕ → ℕ → Option Pmm
default_init_memmap fuel m base n = assert (ltb 0 n) (
    reset_pages n base m.pages >>= λ pages. insert_free fuel m.links base >>= λ links.
    some (record {
      pages = edit pages base (set_head n);
      links = links;
      nr_free = u32 (m.nr_free + n);
    }))

-- The first-fit walk: `some none` when the list ends before a block of `n` pages is met.
unfoldable pub find_fit : ℕ → Pmm → ℕ → ℕ → Option (Option ℕ)
find_fit zero m le n = none
find_fit (suc fuel) m le n =
    let le' = m.links.next le in
    let rest = find_fit fuel m le' n in
    if le' == free_list
    then some none
    else if leb n (property_of m le')
    then some (some le')
    else rest

-- What `default_alloc_pages` does with the block that it found.
unfoldable pub take_block : Pmm → ℕ → ℕ → Pmm
take_block m page n =
    let prev = m.links.prev page in
    let size = property_of m page in
    let links = list_del m.links page in
    let split = ltb n size in
    record {
      pages =
          edit
            (if split
              then edit m.pages (page + n) (λ p. record p { head = true; property = size - n })
              else m.pages)
            page clear_head;
      links = if split then list_add links prev (page + n) else links;
      nr_free = u32 (m.nr_free + 2 ^ 32 - n);
    }

unfoldable pub default_alloc_pages : ℕ → Pmm → ℕ → Option (Option ℕ × Pmm)
default_alloc_pages fuel m n = assert (ltb 0 n) (
    if ltb m.nr_free n
    then some (none, m)
    else find_fit fuel m free_list n >>= λ found. elim found [
      | none ↦ some (none, m)
      | some page ↦ some (some page, take_block m page n)
    ])

-- `if (p + p->property == base)`: the block before takes `base` in. The result is the new `base`.
unfoldable pub merge_before : Pmm → ℕ → ℕ × Pmm
merge_before m base =
    let p = m.links.prev base in
    if not (p == free_list) && p + property_of m p == base
    then (
      p,
      record m {
        pages =
            edit
              (edit m.pages p (λ q. record q { property = u32 (q.property + property_of m base) }))
              base clear_head;
        links = list_del m.links base;
      },
    )
    else (base, m)

-- `if (base + base->property == p)`: `base` takes the block after it in.
unfoldable pub merge_after : Pmm → ℕ → Pmm
merge_after m base =
    let p = m.links.next base in
    if not (p == free_list) && base + property_of m base == p
    then record m {
      pages =
          edit (edit m.pages base (λ q. record q { property = u32 (q.property + property_of m p) }))
            p clear_head;
      links = list_del m.links p;
    }
    else m

unfoldable pub default_free_pages : ℕ → Pmm → ℕ → ℕ → Option Pmm
default_free_pages fuel m base n = assert (ltb 0 n) (
    release_pages n base m.pages >>= λ pages. insert_free fuel m.links base >>= λ links.
    let m₁ : Pmm = record {
      pages = edit pages base (set_head n);
      links = links;
      nr_free = u32 (m.nr_free + n);
    } in
    let (base', m₂) = merge_before m₁ base in some (merge_after m₂ base'))

unfoldable pub default_nr_free_pages : Pmm → ℕ
default_nr_free_pages m = m.nr_free
