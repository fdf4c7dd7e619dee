-- ===== src/Bitmap/Tests.antt =====
-- A map of 40 bits in two words, the first in use.
use oscmp.Base.{ℕ, ◌≡◌, ◌⊎◌, some, none, [], ◌∷◌, arith}
use oscmp.Bitmap.Defs.{Bitmap, bitmap_alloc}
use oscmp.Bitmap.Bits.{AllZero}
use oscmp.Bitmap.Alloc.{Allocated, bitmap_alloc-free}

abbrev bits : Bitmap
bits = record { nbits = 40; nwords = 2; map = 0 ∷ 255 ∷ [] }

bitmap_alloc-free_example :
    ((bitmap_alloc bits ≡ some (none, bits)) × AllZero bits.map)
    ⊎ ((i : ℕ) × (b' : Bitmap) × Allocated bits i b')
bitmap_alloc-free_example = bitmap_alloc-free bits (omega arith, (omega arith, tt))
