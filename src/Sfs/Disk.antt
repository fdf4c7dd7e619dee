-- ===== src/Sfs/Disk.antt =====
-- kern/fs/sfs/sfs_io.c: reads and writes of blocks of the disk, as they are from the memory of the
-- kernel and to it. The device answers every request. (`sfs_buffer` holds a block only inside a
-- function.) A failed assertion or a panic is `none`.
use oscmp.Base.{
  ℕ, zero, suc, ◌+◌, ◌-◌, Bool, not, ◌&&◌, Option, some, List, ltb, leb, ◌==◌, if◌then◌else◌,
  assert, ◌>>=◌, update,
}
use oscmp.Memory.{Bytes}
use oscmp.Bitmap.{Bitmap}

abbrev pub sfs_blksize : ℕ
sfs_blksize = 4096

-- The file system (`sfs_fs`), the memory, and one file (`sfs_inode` with its `sfs_disk_inode`).
pub record Sfs : Type 0 where
  pub super_blocks : ℕ
  pub unused_blocks : ℕ
  pub super_dirty : Bool
  pub freemap : Bitmap
  pub disk : ℕ → Bytes
  pub mem : Bytes
  pub is_dir : Bool
  pub size : ℕ
  pub blocks : ℕ
  pub direct : List ℕ
  pub indirect : ℕ
  pub dirty : Bool

-- `len` bytes from offset `i` of `src` to offset `j` of `dst`.
abbrev pub copy_bytes : Bytes → ℕ → Bytes → ℕ → ℕ → Bytes
copy_bytes src i dst j len a = if leb j a && ltb a (j + len) then src (i + (a - j)) else dst a

-- The assertion of `sfs_rwblock_nolock` with `check` set.
abbrev pub on_disk : Sfs → ℕ → Bool
on_disk s blkno = not (blkno == 0) && ltb blkno s.super_blocks

unfoldable pub sfs_rwblock_nolock : Bool → ℕ → ℕ → Sfs → Option Sfs
sfs_rwblock_nolock write buf blkno s = assert (on_disk s blkno) (
    some (
      if write
      then record s {
        disk = update s.disk blkno (copy_bytes s.mem buf (s.disk blkno) 0 sfs_blksize);
      }
      else record s { mem = copy_bytes (s.disk blkno) 0 s.mem buf sfs_blksize }))

-- `sfs_rblock` and `sfs_wblock`.
unfoldable pub sfs_rwblock : Bool → ℕ → ℕ → ℕ → Sfs → Option Sfs
sfs_rwblock write buf blkno zero s = some s
sfs_rwblock write buf blkno (suc nblks) s = sfs_rwblock_nolock write buf blkno s >>= λ s'.
    sfs_rwblock write (buf + sfs_blksize) (blkno + 1) nblks s'

-- `sfs_rbuf` and `sfs_wbuf`.
unfoldable pub sfs_rwbuf : Bool → ℕ → ℕ → ℕ → ℕ → Sfs → Option Sfs
sfs_rwbuf write buf len blkno offset s =
    assert (ltb offset sfs_blksize && leb (offset + len) sfs_blksize) (
      assert (on_disk s blkno) (
        some (
          if write
          then record s {
            disk = update s.disk blkno (copy_bytes s.mem buf (s.disk blkno) offset len);
          }
          else record s { mem = copy_bytes (s.disk blkno) offset s.mem buf len })))

-- `sfs_clear_block` of one block.
unfoldable pub sfs_clear_block : ℕ → Sfs → Option Sfs
sfs_clear_block blkno s =
    assert (on_disk s blkno) (some (record s { disk = update s.disk blkno (λ a. 0) }))
