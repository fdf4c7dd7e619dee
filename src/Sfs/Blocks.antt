-- ===== src/Sfs/Blocks.antt =====
-- kern/fs/sfs/sfs_inode.c: the free map, and the map from the blocks of a file to those of the disk.
-- An error number is negated in C, and 0 is success.
use oscmp.Base.{
  ℕ, ◌+◌, ◌-◌, ◌*◌, ◌/◌, ◌%◌, ◌^◌, Bool, true, not, ◌&&◌, ◌||◌, Option, none, some, ltb, leb, ◌==◌,
  if◌then◌else◌, assert, ◌>>=◌, update, get_elem?, set,
}
use oscmp.Memory.{Bytes}
use oscmp.Bitmap.{Bitmap, bitmap_alloc, bitmap_test, bitmap_free}
use oscmp.Sfs.Disk.{Sfs, on_disk, sfs_clear_block}

abbrev pub e_inval : ℕ
e_inval = 3

abbrev pub e_no_mem : ℕ
e_no_mem = 4

abbrev pub sfs_ndirect : ℕ
sfs_ndirect = 12

abbrev pub sfs_blk_nentry : ℕ
sfs_blk_nentry = 1024

unfoldable pub sfs_block_inuse : Sfs → ℕ → Option Bool
sfs_block_inuse s ino =
    assert (on_disk s ino) (bitmap_test s.freemap ino >>= λ free. some (not free))

-- The part of `sfs_block_alloc` behind `bitmap_alloc`.
abbrev pub alloc_block : Option ℕ × Bitmap → Sfs → Option (Option ℕ × Sfs)
alloc_block (none, b) s = some (none, record s { freemap = b })
alloc_block (some ino, b) s =
    let s' : Sfs = record s {
      freemap = b;
      unused_blocks = s.unused_blocks - 1;
      super_dirty = true;
    } in
    assert (ltb 0 s.unused_blocks) (
      sfs_block_inuse s' ino >>= λ used.
      assert used (sfs_clear_block ino s' >>= λ u. some (some ino, u)))

-- The block, or `none` inside for -E_NO_MEM.
unfoldable pub sfs_block_alloc : Sfs → Option (Option ℕ × Sfs)
sfs_block_alloc s = bitmap_alloc s.freemap >>= λ r. alloc_block r s

unfoldable pub sfs_block_free : ℕ → Sfs → Option Sfs
sfs_block_free ino s = sfs_block_inuse s ino >>= λ used. assert used (
    bitmap_free s.freemap ino >>= λ b.
    some (record s { freemap = b; unused_blocks = s.unused_blocks + 1; super_dirty = true }))

-- An entry of 32 bits, little-endian, in a block.
abbrev pub disk_entry : Bytes → ℕ → ℕ
disk_entry m i = m (4 * i) + 256 * (m (4 * i + 1) + 256 * (m (4 * i + 2) + 256 * m (4 * i + 3)))

abbrev pub set_disk_entry : Bytes → ℕ → ℕ → Bytes
set_disk_entry m i v =
    update
      (update (update (update m (4 * i) (v % 256)) (4 * i + 1) (v / 256 % 256)) (4 * i + 2)
        (v / 2 ^ 16 % 256))
      (4 * i + 3) (v / 2 ^ 24 % 256)

-- The error number, the entry block, the block and the state.
pub record Got : Type 0 where
  pub ret : ℕ
  pub ent : ℕ
  pub ino : ℕ
  pub fs : Sfs

-- The label `failed_cleanup` of `sfs_bmap_get_sub_nolock`.
abbrev pub undo_entry : ℕ → ℕ → Sfs → Option Got
undo_entry old ent s = (if ent == old then some s else sfs_block_free ent s) >>= λ u.
    some (record { ret = e_no_mem; ent = old; ino = 0; fs = u })

-- From the allocation of the block itself on, in the entry block `ent`.
abbrev pub fill_entry : ℕ → ℕ → ℕ → Option ℕ × Sfs → Option Got
fill_entry old ent index (none, s) = undo_entry old ent s
fill_entry old ent index (some ino, s) = assert (on_disk s ent) (
    some (record {
      ret = 0;
      ent = ent;
      ino = ino;
      fs = record s { disk = update s.disk ent (set_disk_entry (s.disk ent) index ino) };
    }))

abbrev pub new_entry_block : ℕ → Option ℕ × Sfs → Option Got
new_entry_block index (none, s) = some (record { ret = e_no_mem; ent = 0; ino = 0; fs = s })
new_entry_block index (some ent, s) = sfs_block_alloc s >>= λ r. fill_entry 0 ent index r

unfoldable pub sfs_bmap_get_sub_nolock : ℕ → ℕ → Bool → Sfs → Option Got
sfs_bmap_get_sub_nolock ent index create s =
    let ino = disk_entry (s.disk ent) index in
    assert (ltb index sfs_blk_nentry) (
      if not (ent == 0)
      then assert (on_disk s ent) (
          if not (ino == 0) || not create
          then some (record { ret = 0; ent = ent; ino = ino; fs = s })
          else (sfs_block_alloc s >>= λ r. fill_entry ent ent index r))
      else if not create
      then some (record { ret = 0; ent = 0; ino = 0; fs = s })
      else (sfs_block_alloc s >>= λ r. new_entry_block index r))

-- A new direct block.
abbrev pub set_direct : ℕ → Option ℕ × Sfs → Got
set_direct index (none, s) = record { ret = e_no_mem; ent = 0; ino = 0; fs = s }
set_direct index (some ino, s) = record {
  ret = 0;
  ent = 0;
  ino = ino;
  fs = record s { direct = set s.direct index ino; dirty = true };
}

-- `if (ent != din->indirect) { … }`
abbrev pub set_indirect : Got → Option Got
set_indirect g =
    if not (g.ret == 0) || g.ent == g.fs.indirect
    then some g
    else assert (g.fs.indirect == 0)
        (some (record g { fs = record g.fs { indirect = g.ent; dirty = true } }))

-- The label `out` of `sfs_bmap_get_nolock`.
abbrev pub used_or_none : Got → Option Got
used_or_none g =
    if not (g.ret == 0) || g.ino == 0
    then some g
    else (sfs_block_inuse g.fs g.ino >>= λ used. assert used (some g))

unfoldable pub sfs_bmap_get_nolock : ℕ → Bool → Sfs → Option Got
sfs_bmap_get_nolock index create s =
    (if ltb index sfs_ndirect
      then (get_elem? s.direct index >>= λ ino.
          if ino == 0 && create
          then (sfs_block_alloc s >>= λ r. some (set_direct index r))
          else some (record { ret = 0; ent = 0; ino = ino; fs = s }))
      else assert (ltb (index - sfs_ndirect) sfs_blk_nentry)
          (sfs_bmap_get_sub_nolock s.indirect (index - sfs_ndirect) create s >>= set_indirect))
    >>= used_or_none

unfoldable pub sfs_bmap_load_nolock : ℕ → Sfs → Option Got
sfs_bmap_load_nolock index s =
    let create = index == s.blocks in
    assert (leb index s.blocks) (
      sfs_bmap_get_nolock index create s >>= λ g.
      if not (g.ret == 0)
      then some g
      else (sfs_block_inuse g.fs g.ino >>= λ used. assert used (
          some (record g {
            fs = record g.fs { blocks = if create then g.fs.blocks + 1 else g.fs.blocks };
          }))))
