-- ===== src/Sysfile/Read.antt =====
-- `sysfile_read` of kern/fs/sysfile.c.
use oscmp.Base.{
  ℕ, suc, ◌+◌, ◌-◌, ◌≡◌, ◌≢◌, refl, ap, Bool, true, false, ◌||◌, Option, some, [], ◌∷◌, ◌++◌, leb,
  ◌==◌, ℤ, pos, arith,
}
use oscmp.Files.{ok, Vfs, Files, file_testfd, file_read}
use oscmp.Sysfile.Defs.{failed, block, Loop, start, deliver, read_round, read_loop, sysfile_read}

module _ (v : Vfs) (user : ℕ → ℕ → Bool) where
  read_round-Whole :
      (buffer n : ℕ) (l : Loop v user) (t' : Files v)
      → l.len ≢ 0
      → user l.base l.len ≡ true
      → file_read v (pos 2) buffer (block l.len) l.files ≡ some (ok 0, n, t')
      → read_round v user (pos 2) buffer l
        ≡ some (
          l.len,
          record {
            ret = ok 0;
            base = l.base + l.len;
            len = l.len - l.len;
            copied = l.copied + l.len;
            log = l.log ++ (record { at = l.base; size = l.len } ∷ []);
            files = t';
          },
        )
  unfolding read_round deliver
  read_round-Whole buffer n l t' h u r =
      let z : (l.len == 0) ≡ false = ground (arith, h) in
      let le : leb l.len l.len ≡ true = ground arith in rw (r, z, u, le) refl

  -- A round that ends with `r`, after which nothing is left.
  read_loop_last :
      (fuel : ℕ) (fd : ℤ) (buffer : ℕ) (l : Loop v user) (r : ℕ × Loop v user)
      → read_round v user fd buffer l ≡ some r
      → (l.len == 0) ≡ false
      → (r.1.len == 0) ≡ true
      → read_loop v user (suc (suc fuel)) fd buffer l ≡ some r.1
  unfolding read_loop
  read_loop_last fuel fd buffer l r e z g = rw (z, e) (either (failed r.1.ret || r.0 == 0))
    where
      again : Option (Loop v user)
      again = read_loop v user (suc fuel) fd buffer r.1

      either : (b : Bool) → (elim b [ true ↦ some r.1 | false ↦ again ]) ≡ some r.1
      either true = refl
      either false = rw g refl

  -- A read from descriptor 2 that succeeds in `file_read` copies all `len` bytes to the user in one
  -- piece, out of a buffer of `iobuf_size` bytes, whatever `len` is and however little was read.
  pub sysfile_read_overruns :
      (fuel buffer base len n : ℕ) (t t' : Files v)
      → file_testfd (pos 2) true false t.fd_array ≡ true
      → len ≢ 0
      → user base len ≡ true
      → file_read v (pos 2) buffer (block len) t ≡ some (ok 0, n, t')
      → sysfile_read v user (suc (suc fuel)) (pos 2) buffer base len t
        ≡ some (ok len, record { at = base; size = len } ∷ [], t')
  unfolding sysfile_read
  sysfile_read_overruns fuel buffer base len n t t' open_ h u r =
      let z : (len == 0) ≡ false = ground (arith, h) in
      let round = read_round-Whole buffer n (start v user base len t) t' h u r in
      let last =
        read_loop_last fuel (pos 2) buffer (start v user base len t) _ round z (ground arith) in
      let zero_plus : (0 + len == 0) ≡ false = ground (arith, h) in
      rw (z, open_, last)
        (rw zero_plus
          (ap (λ n. some (ok n, record { at = base; size = len } ∷ [], t')) (omega arith)))
