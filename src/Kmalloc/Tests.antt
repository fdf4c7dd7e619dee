-- ===== src/Kmalloc/Tests.antt =====
-- Requests to an allocator with one free block of 20 units at address 10.
use oscmp.Base.{ℕ, ◌≡◌, ◌<◌, ◌==◌, refl, some, [], Option, if◌then◌else◌, arith, ◌*◌, ◌^◌}
use oscmp.Kmalloc.Defs.{Slob, take_units, slob_alloc, slob_loop, kmalloc, ksize}
use oscmp.Kmalloc.Limits.{kmalloc_short}

-- The page allocator counts its calls.
abbrev pages_at : ℕ → ℕ → Option ℕ × ℕ
pages_at order n = (some 512, n)

abbrev ignore : ℕ → ℕ → ℕ → ℕ
ignore page order n = n

abbrev slob : Slob ℕ
slob = record {
  units = λ a. if a == 10 then 20 else 1;
  next = λ a. if a == 10 then 1 else 10;
  slobfree = 1;
  bigblocks = [];
  pages = 0;
}

kmalloc_short_example :
    (u : Slob ℕ) × (kmalloc pages_at ignore 9 8193 slob ≡ some (some 512, u))
    × (ksize pages_at ignore 512 u ≡ 4096 * 2 ^ 1)
    × (ksize pages_at ignore 512 u < 8193)
unfolding slob_alloc slob_loop
kmalloc_short_example =
    kmalloc_short pages_at ignore 9 1 8193 10 512 slob (take_units pages_at ignore 2 1 10 slob) 0
      (omega arith) (omega arith) (omega arith) refl refl (omega arith) refl
