-- ===== src/Files/Defs.antt =====
-- kern/fs/file.c and file.h: `fd_array`, its reference counts, and the file operations but
-- `file_seek` and `file_getdirentry`. The virtual file system below is the interface `Vfs`. NULL is
-- address 0. A failed assertion is `none`. The process has a table, and the table is in use, as
-- get_fd_array asserts.
use oscmp.Base.{
  ℕ, ◌+◌, ◌-◌, Bool, true, false, not, ◌&&◌, ◌||◌, Option, none, some, List, [], ◌∷◌, ltb, ◌==◌,
  if◌then◌else◌, assert, ◌>>=◌, get_elem?, set, ℤ, pos, negsuc,
}
use oscmp.Iobuf.{Iobuf}

pub data Status : Type 0 where
  fd_none fd_init fd_opened fd_closed : Status

abbrev pub is_none : Status → Bool
is_none fd_none = true
is_none _ = false

abbrev pub is_init : Status → Bool
is_init fd_init = true
is_init _ = false

abbrev pub is_opened : Status → Bool
is_opened fd_opened = true
is_opened _ = false

abbrev pub is_closed : Status → Bool
is_closed fd_closed = true
is_closed _ = false

-- `struct file`; the field `pos` is `offset` here.
pub record File : Type 0 where
  pub status : Status
  pub readable : Bool
  pub writable : Bool
  pub fd : ℕ
  pub offset : ℕ
  pub node : ℕ
  pub open_count : ℕ

-- What a file operation returns: a value, or a negated error number.
pub data Ret : Type 0 where
  ok : ℕ → Ret
  err : ℕ → Ret

abbrev pub e_inval : ℕ
e_inval = 3

abbrev pub e_busy : ℕ
e_busy = 15

abbrev pub e_max_open : ℕ
e_max_open = 22

-- The operations on inodes that the file table calls: each changes the state of the file system and
-- returns an error number, 0 for success. Where one of vfs_open, vfs_close and vop_fstat fails an
-- assertion the result is `none`; the inode of an entry that is open is taken to pass those in front
-- of the others.
pub record Vfs : Type 1 where
  pub Fs : Type 0
  pub vfs_open : ℕ → ℕ → Fs → Option (Ret × Fs)
  pub vfs_close : ℕ → Fs → Option Fs
  pub vop_fstat : ℕ → Fs → Option (ℕ × ℕ × Fs)
  pub vop_read : ℕ → Iobuf → Fs → ℕ × Iobuf × Fs
  pub vop_write : ℕ → Iobuf → Fs → ℕ × Iobuf × Fs
  pub vop_fsync : ℕ → Fs → ℕ × Fs
  pub vop_share : ℕ → Fs → Fs

-- The loop of `fd_array_alloc`, from index `i` on.
unfoldable pub first_free : ℕ → List File → Option ℕ
first_free i [] = none
first_free i (f ∷ fs) = if is_none f.status then some i else first_free (i + 1) fs

-- `testfd` and the entry that it guards.
unfoldable pub entry_at : ℤ → List File → Option File
entry_at (pos i) fs = get_elem? fs i
entry_at (negsuc i) fs = none

abbrev pub no_fd : ℤ
no_fd = negsuc 0x9526

abbrev pub is_no_fd : ℤ → Bool
is_no_fd (pos i) = false
is_no_fd (negsuc i) = i == 0x9526

abbrev pub index_of : ℤ → ℕ
index_of (pos i) = i
index_of (negsuc i) = 0

-- The label `found`.
unfoldable pub claim : ℕ → List File → Option (Ret × List File)
claim i fs = get_elem? fs i >>= λ f.
    assert (f.open_count == 0) (some (ok i, set fs i (record f { status = fd_init; node = 0 })))

abbrev pub claim_free : Option ℕ → List File → Option (Ret × List File)
claim_free none fs = some (err e_max_open, fs)
claim_free (some i) fs = claim i fs

abbrev pub claim_entry : Option File → ℕ → List File → Option (Ret × List File)
claim_entry none i fs = some (err e_inval, fs)
claim_entry (some f) i fs = if is_none f.status then claim i fs else some (err e_busy, fs)

unfoldable pub fd_array_alloc : ℤ → List File → Option (Ret × List File)
fd_array_alloc fd fs =
    if is_no_fd fd
    then claim_free (first_free 0 fs) fs
    else claim_entry (entry_at fd fs) (index_of fd) fs

abbrev pub checked : ℤ → Option File → Option ℕ
checked fd none = none
checked fd (some f) = if is_opened f.status && f.fd == index_of fd then some (index_of fd) else none

-- `fd2file`: `none` for its result -E_INVAL.
unfoldable pub fd2file : ℤ → List File → Option ℕ
fd2file fd fs = checked fd (entry_at fd fs)

unfoldable pub file_testfd : ℤ → Bool → Bool → List File → Bool
file_testfd fd readable writable fs = elim (fd2file fd fs >>= λ i. get_elem? fs i) [
  | none ↦ false
  | some f ↦ not (readable && not f.readable) && not (writable && not f.writable)
]

-- `fd_array_init`, from index `i` on.
unfoldable pub fd_array_init : ℕ → List File → List File
fd_array_init i [] = []
fd_array_init i (f ∷ fs) =
    record f { open_count = 0; status = fd_none; fd = i } ∷ fd_array_init (i + 1) fs

module _ (v : Vfs) where
  open v use {Fs, vfs_open, vfs_close, vop_fstat, vop_read, vop_write, vop_fsync, vop_share}

  -- The table and the file system below it.
  pub record Files : Type 0 where
    pub fd_array : List File
    pub fs : Fs

  unfoldable pub fd_array_free : ℕ → Files → Option Files
  fd_array_free i t = get_elem? t.fd_array i >>= λ f.
      assert (is_init f.status || is_closed f.status) (
        assert (f.open_count == 0) (
          (if is_closed f.status then vfs_close f.node t.fs else some t.fs) >>= λ s.
          some (record { fd_array = set t.fd_array i (record f { status = fd_none }); fs = s })))

  unfoldable pub fd_array_acquire : ℕ → Files → Option Files
  fd_array_acquire i t = get_elem? t.fd_array i >>= λ f.
      assert (is_opened f.status) (
        some
          (record t { fd_array = set t.fd_array i (record f { open_count = f.open_count + 1 }) }))

  -- `if (fopen_count_dec(file) == 0) { fd_array_free(file); }` with the status set first.
  unfoldable pub drop_count : ℕ → File → Status → Files → Option Files
  drop_count i f status t =
      let t' : Files = record t {
        fd_array = set t.fd_array i (record f { status = status; open_count = f.open_count - 1 });
      } in
      if f.open_count - 1 == 0 then fd_array_free i t' else some t'

  unfoldable pub fd_array_release : ℕ → Files → Option Files
  fd_array_release i t = get_elem? t.fd_array i >>= λ f.
      assert (is_opened f.status || is_closed f.status)
        (assert (ltb 0 f.open_count) (drop_count i f f.status t))

  unfoldable pub fd_array_open : ℕ → Files → Option Files
  fd_array_open i t = get_elem? t.fd_array i >>= λ f.
      assert (is_init f.status && not (f.node == 0)) (
        some (record t {
          fd_array =
              set t.fd_array i (record f { status = fd_opened; open_count = f.open_count + 1 });
        }))

  unfoldable pub fd_array_close : ℕ → Files → Option Files
  fd_array_close i t = get_elem? t.fd_array i >>= λ f.
      assert (is_opened f.status) (assert (ltb 0 f.open_count) (drop_count i f fd_closed t))

  -- `vop_share` is `vop_ref_inc(node), vop_open_inc(node)`.
  unfoldable pub fd_array_dup : ℕ → ℕ → Files → Option Files
  fd_array_dup to from t = get_elem? t.fd_array to >>= λ g. get_elem? t.fd_array from >>= λ f.
      assert (is_init g.status && is_opened f.status) (
        fd_array_open to (record {
          fd_array = set t.fd_array to (record g {
            offset = f.offset;
            readable = f.readable;
            writable = f.writable;
            node = f.node;
          });
          fs = vop_share f.node t.fs;
        }))
