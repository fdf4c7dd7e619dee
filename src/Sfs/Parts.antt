-- ===== src/Sfs/Parts.antt =====
-- The reads of whole and partial blocks in kern/fs/sfs/sfs_io.c and in `sfs_io_nolock`, and what they
-- leave in memory.
use oscmp.Base.{
  ℕ, zero, suc, ◌+◌, ◌-◌, ◌*◌, ◌<◌, ◌≤◌, ◌≡◌, ◌≢◌, refl, ap, ◌∙◌, ◌⊎◌, inl, inr, true, false, ◌||◌,
  some, ltb, leb, ◌==◌, arith,
}
use mathlib.Core.Path.{subst}
use oscmp.Memory.{Bytes}
use oscmp.Sfs.Disk.{Sfs, on_disk, copy_bytes, sfs_rwblock_nolock, sfs_rwblock, sfs_rwbuf}
use oscmp.Sfs.Blocks.{sfs_bmap_load_nolock}
use oscmp.Sfs.Io.{Io, buf_part, middle_part}
use oscmp.Sfs.Load.{Placed, sfs_bmap_load_nolock-Placed}

-- `n` bytes of memory at `buf` hold those of `c` from `q` on; the others are as before.
pub record Filled (c : ℕ → ℕ) (q : ℕ) (m m' : Bytes) (buf n : ℕ) : Type 0 where
  pub inner : (i : ℕ) → i < n → m' (buf + i) ≡ c (q + i)
  pub outer : (a : ℕ) → (a < buf) ⊎ (buf + n ≤ a) → m' a ≡ m a

module _ (c : ℕ → ℕ) where
  pub Filled-nothing : (q : ℕ) (m : Bytes) (buf : ℕ) → Filled c q m m buf 0
  Filled-nothing q m buf = record { inner = λ i h. absurd (omega (arith, h)); outer = λ a h. refl }

  pub Filled-join :
      (q : ℕ) (m m₁ m₂ : Bytes) (buf n k : ℕ)
      → Filled c q m m₁ buf n
      → Filled c (q + n) m₁ m₂ (buf + n) k
      → Filled c q m m₂ buf (n + k)
  Filled-join q m m₁ m₂ buf n k f g = record {
    inner = λ i h. elim (split i) [
      | inl l ↦ g.outer (buf + i) (inl (omega (arith, l))) ∙ f.inner i l
      | inr l ↦
          ap m₂ (omega (arith, l)) ∙ g.inner (i - n) (omega (arith, l, h)) ∙ ap c (omega (arith, l))
    ];
    outer = λ a h. elim h [
      | inl l ↦ g.outer a (inl (omega (arith, l))) ∙ f.outer a (inl l)
      | inr l ↦ g.outer a (inr (omega (arith, l))) ∙ f.outer a (inr (omega (arith, l)))
    ];
  }
    where
      split : (i : ℕ) → (i < n) ⊎ (n ≤ i)
      split i = ground arith

  pub copy_bytes-Filled :
      (q : ℕ) (src : Bytes) (i : ℕ) (m : Bytes) (buf n : ℕ)
      → ((x : ℕ) → x < n → src (i + x) ≡ c (q + x))
      → Filled c q m (copy_bytes src i m buf n) buf n
  copy_bytes-Filled q src i m buf n same = record {
    inner = λ x h.
        let low : leb buf (buf + x) ≡ true = ground arith in
        let high : ltb (buf + x) (buf + n) ≡ true = ground (arith, h) in
        rw (low, high) (ap src (omega arith) ∙ same x h);
    outer = λ a h. elim h [
      | inl l ↦ let low : leb buf a ≡ false = ground (arith, l) in rw low refl
      | inr l ↦
          let low : leb buf a ≡ true = ground (arith, l) in
          let high : ltb a (buf + n) ≡ false = ground (arith, l) in rw (low, high) refl
    ];
  }

abbrev pub with_mem : Sfs → Bytes → Sfs
with_mem s m = record s { mem = m }

module _ (s : Sfs) (c : ℕ → ℕ) where
  -- Blocks that follow each other on the disk.
  pub sfs_rwblock-Filled :
      (n buf blkno q : ℕ) (m : Bytes)
      → ((j : ℕ) → j < n → on_disk s (blkno + j) ≡ true)
      → ((j x : ℕ) → j < n → x < 4096 → s.disk (blkno + j) x ≡ c (q + 4096 * j + x))
      → (m' : Bytes) × (sfs_rwblock false buf blkno n (with_mem s m) ≡ some (with_mem s m'))
        × Filled c q m m' buf (n * 4096)
  unfolding sfs_rwblock sfs_rwblock_nolock
  sfs_rwblock-Filled zero buf blkno q m v d = (m, refl, Filled-nothing c q m buf)
  sfs_rwblock-Filled (suc n) buf blkno q m v d =
      let here : on_disk s blkno ≡ true = ap (on_disk s) (omega arith) ∙ v 0 (omega arith) in
      let one = copy_bytes-Filled c q (s.disk blkno) 0 m buf 4096 (λ x h.
        ap (λ k. s.disk k (0 + x)) (omega arith)
        ∙ ap (s.disk (blkno + 0)) (omega arith)
        ∙ d 0 x (omega arith) h
        ∙ ap c (omega arith)) in
      let (m', e, f) =
        sfs_rwblock-Filled n (buf + 4096) (blkno + 1) (q + 4096)
          (copy_bytes (s.disk blkno) 0 m buf 4096)
          (λ j h. ap (on_disk s) (omega arith) ∙ v (suc j) (omega (arith, h)))
          (λ j x h l.
            ap (λ k. s.disk k x) (omega arith)
            ∙ d (suc j) x (omega (arith, h)) l
            ∙ ap c (omega arith)) in
      let joined = Filled-join c q m _ m' buf 4096 (n * 4096) one f in
      (m', rw (here, e) refl, subst (λ k. Filled c q m m' buf k) (omega arith) joined)

  -- A read inside of one block of the file.
  pub buf_part-Filled :
      (size offset ino q : ℕ) (m : Bytes) (p : Io)
      → p.fs ≡ with_mem s m
      → Placed s p.blkno ino
      → offset < 4096
      → offset + size ≤ 4096
      → ((x : ℕ) → x < size → s.disk ino (offset + x) ≡ c (q + x))
      → (m' : Bytes) × (buf_part false size offset p
          ≡ some (record p { alen = p.alen + size; buf = p.buf + size; fs = with_mem s m' }))
        × Filled c q m m' p.buf size
  unfolding buf_part sfs_rwbuf
  buf_part-Filled size offset ino q m p f k l h d =
      let m' = copy_bytes (s.disk ino) offset m p.buf size in
      let again : Placed (with_mem s m) p.blkno ino = (record {
        inside = k.inside;
        held = k.held;
        valid = k.valid;
        used = k.used;
      }) in
      let (e, g) = sfs_bmap_load_nolock-Placed (with_mem s m) p.blkno ino again in
      let low : ltb offset 4096 ≡ true = ground (arith, l) in
      let high : leb (offset + size) 4096 ≡ true = ground (arith, h) in
      (
        m',
        rw (ap (sfs_bmap_load_nolock p.blkno) f ∙ g) (rw (low, high, k.valid) refl),
        copy_bytes-Filled c q (s.disk ino) offset m p.buf size d,
      )

  -- Whole blocks: the first is looked up, and the others are those behind it on the disk.
  pub middle_part-Filled :
      (ino q : ℕ) (m : Bytes) (p : Io)
      → p.fs ≡ with_mem s m
      → p.out ≡ false
      → p.nblks ≢ 0
      → Placed s p.blkno ino
      → ((j : ℕ) → j < p.nblks → on_disk s (ino + j) ≡ true)
      → ((j x : ℕ) → j < p.nblks → x < 4096 → s.disk (ino + j) x ≡ c (q + 4096 * j + x))
      → (m' : Bytes) × (middle_part false p
          ≡ some (record p {
            alen = p.alen + p.nblks * 4096;
            buf = p.buf + p.nblks * 4096;
            blkno = p.blkno + p.nblks;
            nblks = 0;
            fs = with_mem s m';
          }))
        × Filled c q m m' p.buf (p.nblks * 4096)
  unfolding middle_part
  middle_part-Filled ino q m p f o n k v d =
      let again : Placed (with_mem s m) p.blkno ino = (record {
        inside = k.inside;
        held = k.held;
        valid = k.valid;
        used = k.used;
      }) in
      let (e, g) = sfs_bmap_load_nolock-Placed (with_mem s m) p.blkno ino again in
      let go : (p.out || p.nblks == 0) ≡ false = ground (arith, o, n) in
      let (m', r, filled) = sfs_rwblock-Filled p.nblks p.buf ino q m v d in
      (m', rw (go, ap (sfs_bmap_load_nolock p.blkno) f ∙ g) (rw r refl), filled)
