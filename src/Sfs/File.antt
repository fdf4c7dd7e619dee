-- ===== src/Sfs/File.antt =====
-- `sfs_io_nolock` of kern/fs/sfs/sfs_inode.c as a read of a file.
use oscmp.Base.{
  ℕ, ◌+◌, ◌-◌, ◌*◌, ◌/◌, ◌%◌, ◌^◌, ◌<◌, ◌≤◌, ◌≡◌, ◌≢◌, refl, ap, ◌∙◌, true, false, not, ◌||◌, some,
  ltb, leb, ◌==◌, arith, min,
}
use oscmp.Memory.{Bytes}
use oscmp.Sfs.Disk.{Sfs, on_disk}
use oscmp.Sfs.Io.{Io, first_part, last_part, transfer_parts, sfs_max_file_size, sfs_io_nolock}
use oscmp.Sfs.Load.{Placed}
use oscmp.Sfs.Parts.{Filled, with_mem, middle_part-Filled}
use oscmp.Sfs.Read.{content, Laid, transfer_parts-Filled}

-- The tests in front of the transfer.
reaches :
    (buf offset len endpos : ℕ) (s : Sfs)
    → s.is_dir ≡ false
    → s.size ≤ sfs_max_file_size
    → offset < s.size
    → len ≢ 0
    → offset + len < 2 ^ 63
    → min (min (offset + len) sfs_max_file_size) s.size ≡ endpos
    → sfs_io_nolock false buf offset len s ≡ transfer_parts false buf offset endpos s
unfolding sfs_io_nolock
reaches buf offset len endpos s d m l n w e =
    let file : not s.is_dir ≡ true = ap not d in
    let sum : (offset + len) % 2 ^ 64 ≡ offset + len = omega (arith, w) in
    let far : (leb sfs_max_file_size offset
          || leb (2 ^ 63) (offset + len)
          || ltb (offset + len) offset)
        ≡ false =
      ground (arith, m, l, w) in
    let some_bytes : (offset == offset + len) ≡ false = ground (arith, n) in
    let before : leb s.size offset ≡ false = ground (arith, l) in
    rw (sum, file, far, some_bytes, before) (ap (λ k. transfer_parts false buf offset k s) e)

-- Where the blocks of a file, no directory and of 128 megabytes at most, are in use, hold its
-- size, and follow each other on the disk, a read of at least one byte from an offset inside of
-- the file, where the offset and the length together are below 2 ^ 63, succeeds: up to `len` bytes, and no more than the file has, stand in memory at `buf`,
-- and nothing else changes.
pub sfs_io_nolock-Filled :
    (s : Sfs) (b : ℕ → ℕ) (buf offset len : ℕ)
    → Laid s b
    → s.is_dir ≡ false
    → s.size ≤ sfs_max_file_size
    → offset < s.size
    → len ≢ 0
    → offset + len < 2 ^ 63
    → (m : Bytes) × (sfs_io_nolock false buf offset len s
        ≡ some (0, min (offset + len) s.size - offset, with_mem s m))
      × Filled (content s b) offset s.mem m buf (min (offset + len) s.size - offset)
sfs_io_nolock-Filled s b buf offset len laid d h l n w =
    let endpos = min (offset + len) s.size in
    let (m, e, f) =
      transfer_parts-Filled s b laid buf offset endpos (omega (arith, l, n)) (omega arith) in
    (m, reaches buf offset len endpos s d h l n w (omega (arith, h)) ∙ e, f)

-- A read of `n > 0` whole blocks from block `k` on, inside of a file that is no directory and has
-- 128 megabytes at most, looks only block `k` up: it reads `n` blocks of the disk that follow
-- each other from there on, if the disk has so many, wherever the other blocks of the file are.
pub sfs_io_nolock-neighbours :
    (s : Sfs) (ino buf k n : ℕ)
    → Placed s k ino
    → ((j : ℕ) → j < n → on_disk s (ino + j) ≡ true)
    → s.is_dir ≡ false
    → s.size ≤ sfs_max_file_size
    → n ≢ 0
    → 4096 * k + 4096 * n ≤ s.size
    → (m : Bytes) × (sfs_io_nolock false buf (4096 * k) (4096 * n) s
        ≡ some (0, n * 4096, with_mem s m))
      × Filled (λ q. s.disk (ino + (q / 4096 - k)) (q % 4096)) (4096 * k) s.mem m buf (n * 4096)
unfolding transfer_parts first_part last_part
sfs_io_nolock-neighbours s ino buf k n p v d h z l =
    let start : Io = record {
      ret = 0;
      out = false;
      alen = 0;
      buf = buf;
      blkno = k;
      nblks = n;
      fs = s;
    } in
    let (m, e, f) =
      middle_part-Filled s (λ q. s.disk (ino + (q / 4096 - k)) (q % 4096)) ino (4096 * k) s.mem
        start refl refl z p v
        (λ j x i y.
          let block : ino + j ≡ ino + ((4096 * k + 4096 * j + x) / 4096 - k) = omega (arith, y) in
          let place : x ≡ (4096 * k + 4096 * j + x) % 4096 = omega (arith, y) in
          ap (λ i. s.disk i x) block
          ∙ ap (s.disk (ino + ((4096 * k + 4096 * j + x) / 4096 - k))) place) in
    let whole : (4096 * k % 4096 == 0) ≡ true = ground arith in
    let end : ((4096 * k + 4096 * n) % 4096 == 0) ≡ true = ground arith in
    let first_block : 4096 * k / 4096 ≡ k = omega arith in
    let count : (4096 * k + 4096 * n) / 4096 - k ≡ n = omega arith in
    let same : ltb s.size (4096 * k + (0 + n * 4096)) ≡ false = ground (arith, l) in
    (
      m,
      reaches buf (4096 * k) (4096 * n) (4096 * k + 4096 * n) s d h (omega (arith, l, z))
            (omega (arith, z)) (omega (arith, h, l)) (omega (arith, h, l))
          ∙ rw (whole, first_block, count)
              (rw e (rw end (rw same (ap (λ i. some (0, i, with_mem s m)) (omega arith))))),
      f,
    )
