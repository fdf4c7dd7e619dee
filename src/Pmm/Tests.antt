-- ===== src/Pmm/Tests.antt =====
-- Runs of the page allocator, and the theorems about it at concrete heaps.
use oscmp.Base.{
  ℕ, ◌+◌, ◌≡◌, refl, Option, some, true, false, List, [], ◌∷◌, ◌++◌, arith, update, ◌||◌, ◌&&◌, leb,
  ltb, ◌>>=◌, Fresh, ◌⊎◌,
}
use oscmp.Dlist.{
  Links, IsList, list_empty, list_add, list_add_before, list_del, list_add_after, list_add_between,
  list_del_between, list_del-IsList,
}
use oscmp.Pmm.Defs.{
  Pmm, Page, default_free_pages, default_alloc_pages, insert_walk, insert_free, release_pages,
  find_fit, take_block, merge_before, merge_after,
}
use oscmp.Pmm.Blocks.{IsValid, EndsBy}
use oscmp.Pmm.Fit.{FirstFit}
use oscmp.Pmm.Alloc.{remaining, alloc_pages-first_fit}
use oscmp.Pmm.Join.{covers}
use oscmp.Pmm.Release.{Releasable}
use oscmp.Pmm.Free.{free_pages-IsValid}
use oscmp.Pmm.Insert.{insert_free_sorted}
use oscmp.Pmm.Highest.{highest_allocated_twice}

abbrev plain : Page
plain = record { ref = 0; reserved = false; head = false; property = 0 }

abbrev block : ℕ → Page
block n = record plain { head = true; property = n }

abbrev no_blocks : Pmm
no_blocks = record {
  pages = λ _. plain;
  links = record { prev = λ _. 0; next = λ _. 0 };
  nr_free = 0;
}

-- Two free blocks: one page at 2, four pages at 10.
abbrev two_blocks : Pmm
two_blocks = record {
  pages = update (update (λ _. plain) 2 (block 1)) 10 (block 4);
  links = record {
    prev = update (update (λ _. 10) 2 0) 10 2;
    next = update (update (λ _. 2) 2 10) 10 0;
  };
  nr_free = 5;
}

-- Two free blocks of one page, at 1 and at 3.
abbrev crumbs : Pmm
crumbs = record {
  pages = update (update (λ _. plain) 1 (block 1)) 3 (block 1);
  links = record {
    prev = update (update (λ _. 3) 1 0) 3 1;
    next = update (update (λ _. 1) 1 3) 3 0;
  };
  nr_free = 2;
}

two_blocks-IsValid : IsValid two_blocks (2 ∷ 10 ∷ [])
two_blocks-IsValid = ground arith

crumbs-IsValid : IsValid crumbs (1 ∷ 3 ∷ [])
crumbs-IsValid = ground arith

-- Frees at 1, 3 and 5 from scratch, and two allocations.
run : Option (Option ℕ × Option ℕ)
run = default_free_pages 9 no_blocks 1 1 >>= λ m. default_free_pages 9 m 3 1 >>= λ m.
    default_free_pages 9 m 5 2 >>= λ m.
    default_alloc_pages 9 m 2 >>= λ r. default_alloc_pages 9 r.1 2 >>= λ q. some (r.0, q.0)

run_result : run ≡ some (some 5, some 5)
unfolding run default_free_pages default_alloc_pages insert_walk insert_free release_pages
    list_empty list_add list_add_before list_del find_fit take_block merge_before merge_after
    list_add_after list_add_between list_del_between
run_result = refl

list_del-IsList_example : IsList (list_del two_blocks.links 2) 0 (10 ∷ [])
list_del-IsList_example = list_del-IsList two_blocks.links 0 [] (10 ∷ []) 2 two_blocks-IsValid.list

insert_free_sorted_example :
    (s : Links) × (insert_free 5 two_blocks.links 6 ≡ some s) × IsList s 0 (2 ∷ 6 ∷ 10 ∷ [])
insert_free_sorted_example =
    insert_free_sorted 5 two_blocks.links 6 (2 ∷ []) 10 [] two_blocks-IsValid.list (omega arith)
      (omega arith) (omega arith) (omega arith)

alloc_pages-first_fit_example :
    (f : FirstFit two_blocks.pages 3 10 (2 ∷ 10 ∷ [])) × (default_alloc_pages 5 two_blocks 3
      ≡ some (some 10, take_block two_blocks 10 3))
    × IsValid (take_block two_blocks 10 3) (f.before ++ remaining two_blocks 10 3 f.after)
    × ((take_block two_blocks 10 3).nr_free + 3 ≡ 5)
alloc_pages-first_fit_example =
    alloc_pages-first_fit 5 two_blocks 3 (2 ∷ 10 ∷ []) 10 two_blocks-IsValid (omega arith)
      (omega arith) refl

-- The freed pages 3 … 9 touch both blocks.
free_pages-IsValid_example :
    (m : Pmm) × (xs : List ℕ) × (default_free_pages 5 two_blocks 3 7 ≡ some m)
    × IsValid m xs
    × (m.nr_free ≡ 12)
    × ((k : ℕ)
        → covers m.pages xs k ≡ (covers two_blocks.pages (2 ∷ 10 ∷ []) k || (leb 3 k && ltb k 10)))
    × Fresh 10 xs
    × (Fresh 3 xs ⊎ EndsBy two_blocks.pages (2 ∷ []) 2)
free_pages-IsValid_example =
    free_pages-IsValid 5 two_blocks 3 7 (2 ∷ []) 10 [] two_blocks-IsValid (omega arith)
      (omega arith) (omega arith) (omega arith) (omega arith) free_range (omega arith)
  where
    free_range : Releasable 7 3 two_blocks.pages
    free_range = ground arith

highest_allocated_twice_example :
    (m₁ : Pmm) × (m₂ : Pmm) × (m₃ : Pmm) × (default_free_pages 9 crumbs 5 2 ≡ some m₁)
    × (default_alloc_pages 9 m₁ 2 ≡ some (some 5, m₂))
    × (default_alloc_pages 9 m₂ 2 ≡ some (some 5, m₃))
highest_allocated_twice_example =
    highest_allocated_twice 9 crumbs 5 2 1 (3 ∷ []) crumbs-IsValid (omega arith) (omega arith)
      (omega arith) (omega arith) range (omega arith) (omega arith) (omega arith)
  where
    range : Releasable 2 5 crumbs.pages
    range = ground arith
