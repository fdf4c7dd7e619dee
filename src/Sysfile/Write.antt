-- ===== src/Sysfile/Write.antt =====
-- `sysfile_write` of kern/fs/sysfile.c.
use oscmp.Base.{
  ℕ, zero, suc, ◌≡◌, ◌≢◌, ◌<◌, refl, ap, ◌∙◌, Bool, true, false, ◌||◌, none, some, [], ◌∷◌, ◌++◌,
  ◌==◌, ℤ, pos, arith,
}
use oscmp.Files.{Vfs, Files, file_testfd}
use oscmp.Sysfile.Defs.{
  failed, block, Loop, start, write_block, write_round, write_loop, sysfile_write,
}

module _ (v : Vfs) (user : ℕ → ℕ → Bool) where
  write_round-None :
      (i buffer : ℕ) (l : Loop v user)
      → 2 < i
      → failed l.ret ≡ false
      → user l.base (block l.len) ≡ true
      → write_round v user (pos i) buffer l
        ≡ some (
          block l.len,
          record l { log = l.log ++ (record { at = l.base; size = block l.len } ∷ []) },
        )
  unfolding write_round write_block
  write_round-None i buffer l h f u =
      let one : (i == 1) ≡ false = ground (arith, h) in
      let two : (i == 2) ≡ false = ground (arith, h) in rw (u, f, one, two) refl

  -- A round that ends with `r`.
  write_loop_step :
      (fuel : ℕ) (fd : ℤ) (buffer : ℕ) (l : Loop v user) (r : ℕ × Loop v user)
      → write_round v user fd buffer l ≡ some r
      → (l.len == 0) ≡ false
      → (failed r.1.ret || r.0 == 0) ≡ false
      → write_loop v user (suc fuel) fd buffer l ≡ write_loop v user fuel fd buffer r.1
  unfolding write_loop
  write_loop_step fuel fd buffer l r e z g =
      rw (z, e)
        (ap (λ b. elim b [ true ↦ some r.1 | false ↦ write_loop v user fuel fd buffer r.1 ]) g)

  write_loop_spins :
      (fuel i buffer : ℕ) (l : Loop v user)
      → 2 < i
      → failed l.ret ≡ false
      → l.len ≢ 0
      → user l.base (block l.len) ≡ true
      → write_loop v user fuel (pos i) buffer l ≡ none
  unfolding write_loop
  write_loop_spins zero i buffer l h f n u = refl
  write_loop_spins (suc fuel) i buffer l h f n u =
      let z : (l.len == 0) ≡ false = ground (arith, n) in
      let a : (block l.len == 0) ≡ false = ground (arith, n) in
      write_loop_step fuel (pos i) buffer l _ (write_round-None i buffer l h f u) z (rw (f, a) refl)
      ∙ write_loop_spins fuel i buffer _ h f n u

  -- A write of at least one byte from readable user memory to a descriptor above 2 that is open
  -- for writing has no result, however many rounds it is given.
  pub sysfile_write_spins :
      (fuel i buffer base len : ℕ) (t : Files v)
      → 2 < i
      → file_testfd (pos i) false true t.fd_array ≡ true
      → len ≢ 0
      → user base (block len) ≡ true
      → sysfile_write v user fuel (pos i) buffer base len t ≡ none
  unfolding sysfile_write
  sysfile_write_spins fuel i buffer base len t h open_ n u =
      let z : (len == 0) ≡ false = ground (arith, n) in
      rw (z, open_, write_loop_spins fuel i buffer (start v user base len t) h refl n u) refl
