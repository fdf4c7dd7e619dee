-- ===== src/Iobuf/Move.antt =====
-- What a transfer of kern/fs/iobuf.c moves, and how the buffer accounts for it.
use oscmp.Base.{
  ℕ, ◌+◌, ◌-◌, ◌≤◌, ◌≡◌, refl, min, Bool, true, false, some, ltb, leb, if◌then◌else◌, ◌==◌, arith,
  ◌&&◌, inl, inr, Bool-cases,
}
use oscmp.Memory.{Bytes, memmove}
use oscmp.Memory.Copy.{memmove_lem}
use oscmp.Iobuf.Defs.{Iobuf, iobuf_used, e_no_mem, iobuf_skip, Moved, iobuf_move}

-- What is left is at most what there was.
pub record IsValid (iob : Iobuf) : Type 0 where
  pub fits : iob.io_resid ≤ iob.io_len

-- The account of a transfer of `n` bytes.
pub record Accounts (iob : Iobuf) (n : ℕ) (iob' : Iobuf) : Type 0 where
  pub valid : IsValid iob'
  pub used : iobuf_used iob' ≡ iobuf_used iob + n
  pub base : iob'.io_base ≡ iob.io_base + n
  pub offset : iob'.io_offset ≡ iob.io_offset + n
  pub whole : iob'.io_len ≡ iob.io_len

-- `iobuf_move` between a valid buffer and `len` bytes at `p` succeeds: it moves as many
-- bytes as both have, as they were before the call, and writes nothing else; the buffer accounts for
-- exactly these, and the result is 0 exactly if all `len` bytes were moved, else it is E_NO_MEM.
pub iobuf_move-Accounts :
    (mem : Bytes) (iob : Iobuf) (p len : ℕ) (m2b : Bool)
    → IsValid iob
    → (r : Moved) × (iobuf_move mem iob p len m2b ≡ some r)
      × (r.copied ≡ min iob.io_resid len)
      × Accounts iob r.copied r.iob
      × (r.ret ≡ (if leb len iob.io_resid then 0 else e_no_mem))
      × ((k : ℕ)
          → r.mem k ≡ (
              let d = if m2b then iob.io_base else p in
              let s = if m2b then p else iob.io_base in
              if leb d k && ltb k (d + r.copied) then mem (s + (k - d)) else mem k))
unfolding iobuf_move iobuf_skip
iobuf_move-Accounts mem iob p len m2b v =
    let a : ℕ = if ltb len iob.io_resid then len else iob.io_resid in
    let d : ℕ = if m2b then iob.io_base else p in
    let s : ℕ = if m2b then p else iob.io_base in
    elim (Bool-cases (a == 0)) [
      | inl z ↦
          let r : Moved = record {
            ret = if len == 0 then 0 else e_no_mem;
            copied = 0;
            iob = iob;
            mem = mem;
          } in
          (
            r,
            rw z,
            ground arith,
            record {
              valid = v;
              used = omega arith;
              base = omega arith;
              offset = omega arith;
              whole = refl;
            },
            ground arith,
            λ k. ground arith,
          )
      | inr z ↦
          let iob' : Iobuf = record iob {
            io_base = iob.io_base + a;
            io_offset = iob.io_offset + a;
            io_resid = iob.io_resid - a;
          } in
          let le : leb a iob.io_resid ≡ true = ground arith in
          let r : Moved = record {
            ret = if len - a == 0 then 0 else e_no_mem;
            copied = a;
            iob = iob';
            mem = if m2b then memmove mem iob.io_base p a else memmove mem p iob.io_base a;
          } in
          (
            r,
            rw (z, le),
            ground arith,
            record {
              valid = record { fits = omega arith };
              used = ground arith;
              base = refl;
              offset = refl;
              whole = refl;
            },
            ground arith,
            λ k. pick k a,
          )
    ]
  where
    pick :
        (k a : ℕ)
        → (if m2b then memmove mem iob.io_base p a else memmove mem p iob.io_base a) k ≡ (
            let d = if m2b then iob.io_base else p in
            let s = if m2b then p else iob.io_base in
            if leb d k && ltb k (d + a) then mem (s + (k - d)) else mem k)
    pick k a =
        elim m2b
          as (λ b. (if b then memmove mem iob.io_base p a else memmove mem p iob.io_base a) k ≡ (
            let d = if b then iob.io_base else p in
            let s = if b then p else iob.io_base in
            if leb d k && ltb k (d + a) then mem (s + (k - d)) else mem k)) [
              | true ↦ memmove_lem mem iob.io_base p a k
              | false ↦ memmove_lem mem p iob.io_base a k
            ]
