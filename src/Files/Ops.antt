-- ===== src/Files/Ops.antt =====
-- kern/fs/file.c: the operations on file descriptors. No other thread runs during an operation.
use oscmp.Base.{
  ℕ, ◌+◌, ◌%◌, ◌/◌, Bool, true, false, Option, none, some, List, ◌==◌, if◌then◌else◌, ◌>>=◌,
  get_elem?, set, ℤ, pos, negsuc,
}
use oscmp.Iobuf.{Iobuf, iobuf_used, iobuf_init}
use oscmp.Files.Defs.{
  is_opened, File, Ret, ok, err, e_inval, Vfs, no_fd, fd_array_alloc, fd2file, Files, fd_array_free,
  fd_array_acquire, fd_array_release, fd_array_open, fd_array_close, fd_array_dup,
}

-- The rights of `open_flags & O_ACCMODE`, or `none` for its default case.
unfoldable pub access : ℕ → Option (Bool × Bool)
access flags =
    if flags % 4 == 0
    then some (true, false)
    else if flags % 4 == 1
    then some (false, true)
    else if flags % 4 == 2
    then some (true, true)
    else none

-- `open_flags & O_APPEND`
abbrev pub appends : ℕ → Bool
appends flags = flags / 0x20 % 2 == 1

-- `sizeof(kpu_buff)`: five members of 8 bytes and a pointer.
abbrev pub kpu_buff_size : ℕ
kpu_buff_size = 48

-- A return value of the file system: 0, or a negated error number.
abbrev pub ret_of : ℕ → Ret
ret_of e = if e == 0 then ok 0 else err e

module _ (v : Vfs) where
  open v use {Fs, vfs_open, vfs_close, vop_fstat, vop_read, vop_write, vop_fsync}

  -- From `file->node = node` on.
  unfoldable pub open_file : ℕ → ℕ → ℕ → Bool × Bool → Files v → Option (Ret × Files v)
  open_file i node offset rights t = get_elem? t.fd_array i >>= λ f.
      fd_array_open v i (record t {
        fd_array =
            set t.fd_array i
              (record f { offset = offset; node = node; readable = rights.0; writable = rights.1 });
      })
      >>= λ t'. some (ok f.fd, t')

  -- Entry `i` is given back, with the error number `e` for the caller.
  unfoldable pub give_back : ℕ → ℕ → Files v → Option (Ret × Files v)
  give_back i e t = fd_array_free v i t >>= λ t'. some (err e, t')

  -- What follows `vop_fstat`.
  unfoldable pub open_end : ℕ → ℕ → Bool × Bool → ℕ × ℕ × Fs → Files v → Option (Ret × Files v)
  open_end i node rights (e, size, s) t =
      if e == 0
      then open_file i node size rights (record t { fs = s })
      else (vfs_close node s >>= λ s'. give_back i e (record t { fs = s' }))

  -- From `file->pos = 0` on, with the file system after `vfs_open`.
  unfoldable pub open_at : ℕ → ℕ → ℕ → Bool × Bool → Files v → Option (Ret × Files v)
  open_at i node flags rights t =
      if appends flags
      then (vop_fstat node t.fs >>= λ r. open_end i node rights r t)
      else open_file i node 0 rights t

  -- What follows `vfs_open`.
  abbrev pub opened : ℕ → ℕ → Bool × Bool → Ret × Fs → List File → Option (Ret × Files v)
  opened i flags rights (ok node, s) a =
      open_at i node flags rights (record { fd_array = a; fs = s })
  opened i flags rights (err e, s) a = give_back i e (record { fd_array = a; fs = s })

  -- What follows `fd_array_alloc`.
  abbrev pub open_in : Ret × List File → ℕ → ℕ → Bool × Bool → Fs → Option (Ret × Files v)
  open_in (ok i, a) path flags rights s = vfs_open path flags s >>= λ r. opened i flags rights r a
  open_in (err e, a) path flags rights s = some (err e, record { fd_array = a; fs = s })

  abbrev pub open_with : Option (Bool × Bool) → ℕ → ℕ → Files v → Option (Ret × Files v)
  open_with none path flags t = some (err e_inval, t)
  open_with (some rights) path flags t =
      fd_array_alloc no_fd t.fd_array >>= λ r. open_in r path flags rights t.fs

  unfoldable pub file_open : ℕ → ℕ → Files v → Option (Ret × Files v)
  file_open path flags t = open_with (access flags) path flags t

  abbrev pub close_found : Option ℕ → Files v → Option (Ret × Files v)
  close_found none t = some (err e_inval, t)
  close_found (some i) t = fd_array_close v i t >>= λ t'. some (ok 0, t')

  unfoldable pub file_close : ℤ → Files v → Option (Ret × Files v)
  file_close fd t = close_found (fd2file fd t.fd_array) t

  -- `if (file->status == FD_OPENED) { file->pos += copied; }`
  unfoldable pub advance : ℕ → ℕ → Files v → Option (Files v)
  advance i copied t = get_elem? t.fd_array i >>= λ f. some (
      if is_opened f.status
      then record t { fd_array = set t.fd_array i (record f { offset = f.offset + copied }) }
      else t)

  -- From `fd_array_acquire` on: `op` is `vop_read` or `vop_write`, and the result holds the value
  -- of `copied` too.
  unfoldable pub transfer_at :
      (ℕ → Iobuf → Fs → ℕ × Iobuf × Fs) → ℕ → ℕ → ℕ → Files v → Option (Ret × ℕ × Files v)
  transfer_at op i base len t = fd_array_acquire v i t >>= λ t'. get_elem? t'.fd_array i >>= λ f.
      let r = op f.node (iobuf_init base len f.offset) t'.fs in
      let copied = iobuf_used r.1 in
      advance i copied (record t' { fs = r.2 }) >>= λ u.
      fd_array_release v i u >>= λ u'. some (ret_of r.0, copied, u')

  abbrev pub reported : ℤ → Ret × ℕ × Files v → Ret × ℕ × Files v
  reported (pos i) (r, copied, t) = (r, (if i == 2 then kpu_buff_size else copied), t)
  reported (negsuc i) x = x

  abbrev pub read_found : ℤ → Option ℕ → ℕ → ℕ → Files v → Option (Ret × ℕ × Files v)
  read_found fd none base len t = some (err e_inval, 0, t)
  read_found fd (some i) base len t = get_elem? t.fd_array i >>= λ f.
      if f.readable
      then (transfer_at vop_read i base len t >>= λ x. some (reported fd x))
      else some (err e_inval, 0, t)

  -- The result, `*copied_store` and the state; descriptor 2 reports the size of a KPU buffer.
  unfoldable pub file_read : ℤ → ℕ → ℕ → Files v → Option (Ret × ℕ × Files v)
  file_read fd base len t = read_found fd (fd2file fd t.fd_array) base len t

  abbrev pub write_found : Option ℕ → ℕ → ℕ → Files v → Option (Ret × ℕ × Files v)
  write_found none base len t = some (err e_inval, 0, t)
  write_found (some i) base len t = get_elem? t.fd_array i >>= λ f.
      if f.writable then transfer_at vop_write i base len t else some (err e_inval, 0, t)

  unfoldable pub file_write : ℤ → ℕ → ℕ → Files v → Option (Ret × ℕ × Files v)
  file_write fd base len t = write_found (fd2file fd t.fd_array) base len t

  abbrev pub sync_found : Option ℕ → Files v → Option (Ret × Files v)
  sync_found none t = some (err e_inval, t)
  sync_found (some i) t = fd_array_acquire v i t >>= λ t'. get_elem? t'.fd_array i >>= λ f.
      let r = vop_fsync f.node t'.fs in
      fd_array_release v i (record t' { fs = r.1 }) >>= λ u. some (ret_of r.0, u)

  unfoldable pub file_fsync : ℤ → Files v → Option (Ret × Files v)
  file_fsync fd t = sync_found (fd2file fd t.fd_array) t

  abbrev pub dup_into : Ret × List File → ℕ → Fs → Option (Ret × Files v)
  dup_into (err e, a) i s = some (err e, record { fd_array = a; fs = s })
  dup_into (ok j, a) i s = fd_array_dup v j i (record { fd_array = a; fs = s }) >>= λ t.
      get_elem? t.fd_array j >>= λ f. some (ok f.fd, t)

  abbrev pub dup_found : Option ℕ → ℤ → Files v → Option (Ret × Files v)
  dup_found none fd2 t = some (err e_inval, t)
  dup_found (some i) fd2 t = fd_array_alloc fd2 t.fd_array >>= λ r. dup_into r i t.fs

  unfoldable pub file_dup : ℤ → ℤ → Files v → Option (Ret × Files v)
  file_dup fd1 fd2 t = dup_found (fd2file fd1 t.fd_array) fd2 t
