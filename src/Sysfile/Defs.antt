-- ===== src/Sysfile/Defs.antt =====
-- kern/fs/sysfile.c: `sysfile_read` and `sysfile_write`, over the open files of Files.antt, with the
-- memory that `kmalloc` gave at `buffer`. The test of user memory (`user_mem_check` of Vmm.antt) is an
-- argument. A loop takes fuel, one round for each block, and is `none` when it runs out or an
-- assertion fails; it also tells which copies between the buffer and the user it made.
use oscmp.Base.{
  ℕ, zero, suc, ◌+◌, ◌-◌, Bool, true, false, not, ◌&&◌, ◌||◌, Option, none, some, List, [], ◌∷◌,
  ◌++◌, ltb, leb, ◌==◌, if◌then◌else◌, assert, ◌>>=◌, ℤ, pos, negsuc,
}
use oscmp.Files.{Ret, ok, err, e_inval, Vfs, Files, file_testfd, file_read, file_write}

abbrev pub iobuf_size : ℕ
iobuf_size = 4096

-- A copy between the buffer and user memory: where, and how many bytes.
pub record Copy : Type 0 where
  pub at : ℕ
  pub size : ℕ

abbrev pub failed : Ret → Bool
failed (ok n) = false
failed (err e) = true

abbrev pub is_fd : ℤ → ℕ → Bool
is_fd (pos i) n = i == n
is_fd (negsuc i) n = false

abbrev pub block : ℕ → ℕ
block len = if ltb len iobuf_size then len else iobuf_size

-- The value that both functions return.
abbrev pub result : Ret → ℕ → Ret
result ret copied = if copied == 0 then ret else ok copied

module _ (v : Vfs) (user : ℕ → ℕ → Bool) where
  -- The variables of a loop.
  pub record Loop : Type 0 where
    pub ret : Ret
    pub base : ℕ
    pub len : ℕ
    pub copied : ℕ
    pub log : List Copy
    pub files : Files v

  abbrev pub step_on : ℕ → Loop → Loop
  step_on alen l = record l { base = l.base + alen; len = l.len - alen; copied = l.copied + alen }

  -- `if (alen != 0) { … copy_to_user … }`
  unfoldable pub deliver : ℕ → Loop → Option Loop
  deliver alen l =
      let l' : Loop = record l { log = l.log ++ (record { at = l.base; size = alen } ∷ []) } in
      if alen == 0
      then some l
      else if user l.base alen
      then assert (leb alen l.len) (some (step_on alen l'))
      else some (record l { ret = if failed l.ret then l.ret else err e_inval })

  -- A round of `sysfile_read`: the value of `alen` at its end, and the variables.
  unfoldable pub read_round : ℤ → ℕ → Loop → Option (ℕ × Loop)
  read_round fd buffer l = file_read v fd buffer (block l.len) l.files >>= λ r.
      let alen = if is_fd fd 2 then l.len else r.1 in
      deliver alen (record l { ret = r.0; files = r.2 }) >>= λ l'. some (alen, l')

  unfoldable pub read_loop : ℕ → ℤ → ℕ → Loop → Option Loop
  read_loop zero fd buffer l = none
  read_loop (suc fuel) fd buffer l =
      let rest = read_round fd buffer l >>= λ r. elim (failed r.1.ret || r.0 == 0) [
        | true ↦ some r.1
        | false ↦ read_loop fuel fd buffer r.1
      ] in
      if l.len == 0 then some l else rest

  abbrev pub start : ℕ → ℕ → Files v → Loop
  start base len t = record { ret = ok 0; base = base; len = len; copied = 0; log = []; files = t }

  -- The result, the copies and the files.
  unfoldable pub sysfile_read : ℕ → ℤ → ℕ → ℕ → ℕ → Files v → Option (Ret × List Copy × Files v)
  sysfile_read fuel fd buffer base len t =
      if len == 0
      then some (ok 0, [], t)
      else if not (file_testfd fd true false t.fd_array)
      then some (err e_inval, [], t)
      else (read_loop fuel fd buffer (start base len t) >>= λ l.
          some (result l.ret l.copied, l.log, l.files))

  -- What a round does with the bytes in the buffer: `file_write` for the descriptors 1 and 2, and
  -- nothing for others.
  unfoldable pub write_block : ℤ → ℕ → ℕ → Loop → Option (ℕ × Loop)
  write_block fd buffer alen l =
      if not (failed l.ret) && (is_fd fd 1 || is_fd fd 2)
      then (file_write v fd buffer alen l.files >>= λ r.
          let l' : Loop = record l { ret = r.0; files = r.2 } in
          if r.1 == 0 then some (0, l') else assert (leb r.1 l.len) (some (r.1, step_on r.1 l')))
      else some (alen, l)

  -- A round of `sysfile_write`.
  unfoldable pub write_round : ℤ → ℕ → Loop → Option (ℕ × Loop)
  write_round fd buffer l =
      let alen = block l.len in
      write_block fd buffer alen (
        if user l.base alen
        then record l { log = l.log ++ (record { at = l.base; size = alen } ∷ []) }
        else record l { ret = err e_inval })

  unfoldable pub write_loop : ℕ → ℤ → ℕ → Loop → Option Loop
  write_loop zero fd buffer l = none
  write_loop (suc fuel) fd buffer l =
      let rest = write_round fd buffer l >>= λ r. elim (failed r.1.ret || r.0 == 0) [
        | true ↦ some r.1
        | false ↦ write_loop fuel fd buffer r.1
      ] in
      if l.len == 0 then some l else rest

  unfoldable pub sysfile_write : ℕ → ℤ → ℕ → ℕ → ℕ → Files v → Option (Ret × List Copy × Files v)
  sysfile_write fuel fd buffer base len t =
      if len == 0
      then some (ok 0, [], t)
      else if not (file_testfd fd false true t.fd_array)
      then some (err e_inval, [], t)
      else (write_loop fuel fd buffer (start base len t) >>= λ l.
          some (result l.ret l.copied, l.log, l.files))
