-- ===== src/Sfs/Tests.antt =====
-- Reads of a file of two blocks.
use oscmp.Base.{
  ℕ, zero, suc, ◌+◌, ◌-◌, ◌*◌, ◌/◌, ◌≡◌, ◌<◌, refl, false, some, [], ◌∷◌, List, inl, arith, min,
}
use oscmp.Memory.{Bytes}
use oscmp.Bitmap.{bitmap_test, bitmap_translate}
use oscmp.Sfs.Disk.{Sfs}
use oscmp.Sfs.Io.{sfs_io_nolock}
use oscmp.Sfs.Load.{Placed}
use oscmp.Sfs.Parts.{Filled, with_mem}
use oscmp.Sfs.Read.{content, Laid}
use oscmp.Sfs.File.{sfs_io_nolock-Filled, sfs_io_nolock-neighbours}

-- Each byte of block `k` of the disk is `k`.
abbrev file : List ℕ → Sfs
file direct = record {
  super_blocks = 10;
  unused_blocks = 0;
  super_dirty = false;
  freemap = record { nbits = 32; nwords = 1; map = 0 ∷ [] };
  disk = λ k a. k;
  mem = λ a. 0;
  is_dir = false;
  size = 8192;
  blocks = 2;
  direct = direct;
  indirect = 0;
  dirty = false;
}

file-Laid : Laid (file (3 ∷ 4 ∷ [])) (λ k. 3 + k)
unfolding bitmap_test bitmap_translate
file-Laid = record { placed = at; follows = λ k h. omega arith; enough = omega arith }
  where
    at : (k : ℕ) → k < 2 → Placed (file (3 ∷ 4 ∷ [])) k (3 + k)
    at zero h = record { inside = h; held = inl (omega arith, refl); valid = refl; used = refl }
    at (suc zero) h = record {
      inside = h;
      held = inl (omega arith, refl);
      valid = refl;
      used = refl;
    }
    at (suc (suc k)) h = absurd (omega (arith, h))

sfs_io_nolock-Filled_example :
    (m : Bytes) × (sfs_io_nolock false 700 4000 5000 (file (3 ∷ 4 ∷ []))
      ≡ some (0, min (4000 + 5000) 8192 - 4000, with_mem (file (3 ∷ 4 ∷ [])) m))
    × Filled
        (content (file (3 ∷ 4 ∷ [])) (λ k. 3 + k))
        4000
        (λ a. 0)
        m
        700
        (min (4000 + 5000) 8192 - 4000)
sfs_io_nolock-Filled_example =
    sfs_io_nolock-Filled (file (3 ∷ 4 ∷ [])) (λ k. 3 + k) 700 4000 5000 file-Laid refl (omega arith)
      (omega arith) (omega arith) (omega arith)

-- The second block of the file is block 7, but block 4 is read.
sfs_io_nolock-neighbours_example :
    (m : Bytes) × (sfs_io_nolock false 700 (4096 * 0) (4096 * 2) (file (3 ∷ 7 ∷ []))
      ≡ some (0, 2 * 4096, with_mem (file (3 ∷ 7 ∷ [])) m))
    × Filled (λ q. 3 + (q / 4096 - 0)) (4096 * 0) (λ a. 0) m 700 (2 * 4096)
unfolding bitmap_test bitmap_translate
sfs_io_nolock-neighbours_example =
    sfs_io_nolock-neighbours (file (3 ∷ 7 ∷ [])) 3 700 0 2
      (record { inside = omega arith; held = inl (omega arith, refl); valid = refl; used = refl })
      (λ j h. ground (arith, h)) refl (omega arith) (omega arith) (omega arith)
