-- ===== src/Sfs/Io.antt =====
-- `sfs_io_nolock` of kern/fs/sfs/sfs_inode.c, and `sfs_io`. An `off_t` is kept as its 64 bits: a negative
-- one is 2 ^ 63 or more.
use oscmp.Base.{
  ℕ, ◌+◌, ◌-◌, ◌*◌, ◌/◌, ◌%◌, ◌^◌, Bool, true, false, not, ◌&&◌, ◌||◌, Option, some, ltb, leb, ◌==◌,
  if◌then◌else◌, assert, ◌>>=◌, min,
}
use oscmp.Iobuf.{Iobuf, iobuf_skip}
use oscmp.Sfs.Disk.{Sfs, sfs_blksize, sfs_rwblock, sfs_rwbuf}
use oscmp.Sfs.Blocks.{e_inval, sfs_bmap_load_nolock}

abbrev pub sfs_max_file_size : ℕ
sfs_max_file_size = 1024 * 1024 * 128

-- The variables of `sfs_io_nolock`; `out` tells whether it has gone to that label.
pub record Io : Type 0 where
  pub ret : ℕ
  pub out : Bool
  pub alen : ℕ
  pub buf : ℕ
  pub blkno : ℕ
  pub nblks : ℕ
  pub fs : Sfs

-- The call of `sfs_buf_op` for one block.
unfoldable pub buf_part : Bool → ℕ → ℕ → Io → Option Io
buf_part write size offset p = sfs_bmap_load_nolock p.blkno p.fs >>= λ g.
    if not (g.ret == 0)
    then some (record p { ret = g.ret; out = true; fs = g.fs })
    else (sfs_rwbuf write p.buf size g.ino offset g.fs >>= λ s.
        some (record p { alen = p.alen + size; buf = p.buf + size; fs = s }))

-- `if ((blkoff = offset % SFS_BLKSIZE) != 0) { … }`
unfoldable pub first_part : Bool → ℕ → ℕ → Io → Option Io
first_part write offset endpos p =
    let blkoff = offset % sfs_blksize in
    if blkoff == 0
    then some p
    else (buf_part write (if p.nblks == 0 then endpos - offset else sfs_blksize - blkoff) blkoff p
        >>= λ q. some (
            if q.out
            then q
            else if q.nblks == 0
            then record q { out = true }
            else record q { blkno = q.blkno + 1; nblks = q.nblks - 1 }))

-- `if (nblks > 0) { … }`
unfoldable pub middle_part : Bool → Io → Option Io
middle_part write p =
    if p.out || p.nblks == 0
    then some p
    else (sfs_bmap_load_nolock p.blkno p.fs >>= λ g.
        if not (g.ret == 0)
        then some (record p { ret = g.ret; out = true; fs = g.fs })
        else (sfs_rwblock write p.buf g.ino p.nblks g.fs >>= λ s. some (record p {
          alen = p.alen + p.nblks * sfs_blksize;
          buf = p.buf + p.nblks * sfs_blksize;
          blkno = p.blkno + p.nblks;
          nblks = 0;
          fs = s;
        })))

-- `if ((size = endpos % SFS_BLKSIZE) != 0) { … }`
unfoldable pub last_part : Bool → ℕ → Io → Option Io
last_part write endpos p =
    let size = endpos % sfs_blksize in
    if p.out || size == 0 then some p else buf_part write size 0 p

-- The label `out`: the error number, `*alenp` and the state.
abbrev pub close_io : ℕ → Io → ℕ × ℕ × Sfs
close_io offset p = (
  p.ret,
  p.alen,
  if ltb p.fs.size (offset + p.alen)
      then record p.fs { size = offset + p.alen; dirty = true }
      else p.fs,
)

-- From `int ret = 0` on.
unfoldable pub transfer_parts : Bool → ℕ → ℕ → ℕ → Sfs → Option (ℕ × ℕ × Sfs)
transfer_parts write buf offset endpos s =
    first_part write offset endpos (record {
      ret = 0;
      out = false;
      alen = 0;
      buf = buf;
      blkno = offset / sfs_blksize;
      nblks = endpos / sfs_blksize - offset / sfs_blksize;
      fs = s;
    })
    >>= λ p. middle_part write p >>= λ q. last_part write endpos q >>= λ r. some (close_io offset r)

unfoldable pub sfs_io_nolock : Bool → ℕ → ℕ → ℕ → Sfs → Option (ℕ × ℕ × Sfs)
sfs_io_nolock write buf offset len s =
    let endpos = (offset + len) % 2 ^ 64 in
    let last = min endpos sfs_max_file_size in
    assert (not s.is_dir) (
      if leb sfs_max_file_size offset || leb (2 ^ 63) endpos || ltb endpos offset
      then some (e_inval, 0, s)
      else if offset == endpos
      then some (0, 0, s)
      else if not write && leb s.size offset
      then some (0, 0, s)
      else transfer_parts write buf offset (if write then last else min last s.size) s)

-- `sfs_io`: the error number, the buffer and the state.
unfoldable pub sfs_io : Bool → Iobuf → Sfs → Option (ℕ × Iobuf × Sfs)
sfs_io write iob s = sfs_io_nolock write iob.io_base iob.io_offset iob.io_resid s >>= λ r.
    (if r.1 == 0 then some iob else iobuf_skip iob r.1) >>= λ iob'. some (r.0, iob', r.2)
