-- ===== src/Sfs/Read.antt =====
-- A read by `sfs_io_nolock` of kern/fs/sfs/sfs_inode.c, from the parts of Parts.antt.
use oscmp.Base.{
  ℕ, zero, suc, ◌+◌, ◌-◌, ◌*◌, ◌/◌, ◌%◌, ◌<◌, ◌≤◌, ◌≡◌, ◌≢◌, refl, sym, ap, ◌∙◌, inl, inr, Bool,
  true, false, Option, some, ltb, ◌==◌, ◌>>=◌, arith, Bool-cases,
}
use mathlib.Core.Path.{subst}
use oscmp.Memory.{Bytes}
use oscmp.Sfs.Disk.{Sfs, on_disk}
use oscmp.Sfs.Io.{Io, first_part, middle_part, last_part, buf_part, close_io, transfer_parts}
use oscmp.Sfs.Load.{Placed}
use oscmp.Sfs.Parts.{
  Filled, Filled-nothing, Filled-join, with_mem, buf_part-Filled, middle_part-Filled,
}

-- The byte of the file at an offset, where block `k` of it is block `b k` of the disk.
abbrev pub content : Sfs → (ℕ → ℕ) → ℕ → ℕ
content s b q = s.disk (b (q / 4096)) (q % 4096)

pub content_at :
    (s : Sfs) (b : ℕ → ℕ) (k off q : ℕ)
    → off < 4096
    → q ≡ 4096 * k + off
    → s.disk (b k) off ≡ content s b q
content_at s b k off q h e =
    ap (λ i. s.disk (b i) off) (omega (arith, h, e))
    ∙ ap (s.disk (b (q / 4096))) (omega (arith, h, e))

-- The blocks of the file, one behind the other on the disk.
pub record Laid (s : Sfs) (b : ℕ → ℕ) : Type 0 where
  pub placed : (k : ℕ) → k < s.blocks → Placed s k (b k)
  pub follows : (k : ℕ) → k + 1 < s.blocks → b (k + 1) ≡ b k + 1
  pub enough : s.size ≤ s.blocks * 4096

module _ (s : Sfs) (b : ℕ → ℕ) (laid : Laid s b) (buf offset endpos : ℕ) where
  run : (k j : ℕ) → k + j < s.blocks → b (k + j) ≡ b k + j
  run k zero h =
      let same : k + 0 ≡ k = omega arith in
      let none_added : b k ≡ b k + 0 = omega arith in ap b same ∙ none_added
  run k (suc j) h =
      let next : k + suc j ≡ k + j + 1 = omega arith in
      let step = laid.follows (k + j) (omega (arith, h)) in
      let before = run k j (omega (arith, h)) in
      let all : b (k + j + 1) ≡ b k + suc j = omega (arith, step, before) in ap b next ∙ all

  io : Bool → ℕ → ℕ → ℕ → Bytes → Io
  io out alen blkno nblks m = record {
    ret = 0;
    out = out;
    alen = alen;
    buf = buf + alen;
    blkno = blkno;
    nblks = nblks;
    fs = with_mem s m;
  }

  -- At the start of a block, with `alen` bytes read.
  record At (alen blkno nblks : ℕ) (m : Bytes) : Type 0 where
    pos : offset + alen ≡ 4096 * blkno
    left : blkno + nblks ≡ endpos / 4096
    filled : Filled (content s b) offset s.mem m buf alen

  module _ (pos : offset < endpos) (within : endpos ≤ s.size) where
    -- A part of block `blkno` from where the read stands.
    part :
        (alen alen' blkno nblks off size : ℕ) (m : Bytes)
        → Filled (content s b) offset s.mem m buf alen
        → blkno < s.blocks
        → offset + alen ≡ 4096 * blkno + off
        → off < 4096
        → off + size ≤ 4096
        → alen + size ≡ alen'
        → (m' : Bytes) × (buf_part false size off (io false alen blkno nblks m)
            ≡ some (io false alen' blkno nblks m'))
          × Filled (content s b) offset s.mem m' buf alen'
    unfolding io
    part alen alen' blkno nblks off size m f k e l h t =
        let (m', g, filled) =
          buf_part-Filled s (content s b) size off (b blkno) (offset + alen) m
            (io false alen blkno nblks m) refl (laid.placed blkno k) l h
            (λ x i.
              content_at s b blkno (off + x) (offset + alen + x) (omega (arith, h, i))
                (omega (arith, e))) in
        (
          m',
          g
              ∙ ap (λ n. some (record (io false (alen + size) blkno nblks m') { buf = n }))
                  (omega arith)
              ∙ ap (λ n. some (io false n blkno nblks m')) t,
          subst (λ n. Filled (content s b) offset s.mem m' buf n) t
              (Filled-join (content s b) offset s.mem m m' buf alen size f filled),
        )

    abbrev begin : Io
    begin = io false 0 (offset / 4096) (endpos / 4096 - offset / 4096) s.mem

    abbrev AllRead : Option Io → Type 0
    AllRead o =
        (blkno : ℕ) × (nblks : ℕ) × (m : Bytes) × (out : Bool) × (o
          ≡ some (io out (endpos - offset) blkno nblks m))
        × Filled (content s b) offset s.mem m buf (endpos - offset)

    -- The read ends in its first block, or goes on at the start of a block.
    data First (o : Option Io) : Type 0 where
      ends :
          (blkno nblks : ℕ) (m : Bytes)
          → o ≡ some (io true (endpos - offset) blkno nblks m)
          → Filled (content s b) offset s.mem m buf (endpos - offset)
          → First o
      goes_on :
          (alen blkno nblks : ℕ) (m : Bytes)
          → o ≡ some (io false alen blkno nblks m)
          → At alen blkno nblks m
          → First o

    read-First : First (first_part false offset endpos begin)
    unfolding first_part io
    read-First =
        let k = offset / 4096 in
        let n = endpos / 4096 - offset / 4096 in
        let start = Filled-nothing (content s b) offset s.mem buf in
        let inside : k < s.blocks = omega (arith, pos, within, laid.enough) in
        elim (Bool-cases (offset % 4096 == 0)) [
          | inl z ↦
              goes_on 0 k n s.mem (rw z refl)
                (record { pos = ground (arith, z); left = omega (arith, pos); filled = start })
          | inr z ↦ elim (Bool-cases (n == 0)) [
            | inl w ↦
                let (m', e, f) =
                  part 0 (endpos - offset) k n (offset % 4096) (endpos - offset) s.mem start inside
                    (omega arith) (omega arith) (ground (arith, w, pos)) (omega arith) in
                ends k n m' (rw (z, w) (rw e (rw w refl))) f
            | inr w ↦
                let (m', e, f) =
                  part 0 (4096 - offset % 4096) k n (offset % 4096) (4096 - offset % 4096) s.mem
                    start inside (omega arith) (omega arith) (omega arith) (omega arith) in
                goes_on (4096 - offset % 4096) (k + 1) (n - 1) m' (rw (z, w) (rw e (rw w refl)))
                  (record { pos = omega arith; left = ground (arith, w); filled = f })
          ]
        ]

    read_middle :
        (alen blkno nblks : ℕ) (m : Bytes)
        → At alen blkno nblks m
        → (alen' : ℕ) × (blkno' : ℕ) × (m' : Bytes) × (middle_part false
              (io false alen blkno nblks m)
            ≡ some (io false alen' blkno' 0 m'))
          × At alen' blkno' 0 m'
    unfolding middle_part io
    read_middle alen blkno nblks m h = elim (Bool-cases (nblks == 0)) [
      | inl z ↦
          let none_left : nblks ≡ 0 = ground (arith, z) in
          (
            alen,
            blkno,
            m,
            rw z (ap (λ n. some (io false alen blkno n m)) none_left),
            record { pos = h.pos; left = omega (arith, h.left, none_left); filled = h.filled },
          )
      | inr z ↦
          let some_left : nblks ≢ 0 = ground (arith, z) in
          let inside : (j : ℕ) → j < nblks → blkno + j < s.blocks =
            (λ j l. omega (arith, l, h.left, within, laid.enough)) in
          let first_inside : blkno < s.blocks =
            omega (arith, some_left, h.left, within, laid.enough) in
          let (m', e, f) =
            middle_part-Filled s (content s b) (b blkno) (offset + alen) m
              (io false alen blkno nblks m) refl refl some_left (laid.placed blkno first_inside)
              (λ j l.
                ap (on_disk s) (sym (run blkno j (inside j l)))
                ∙ (laid.placed (blkno + j) (inside j l)).valid)
              (λ j x l i.
                ap (λ k. s.disk k x) (sym (run blkno j (inside j l)))
                ∙ content_at s b (blkno + j) x (offset + alen + 4096 * j + x) i
                    (omega (arith, h.pos))) in
          (
            alen + nblks * 4096,
            blkno + nblks,
            m',
            e
                ∙ ap
                    (λ n.
                      some
                        (record (io false (alen + nblks * 4096) (blkno + nblks) 0 m') { buf = n }))
                    (omega arith),
            record {
              pos = omega (arith, h.pos);
              left = omega (arith, h.left);
              filled =
                  Filled-join (content s b) offset s.mem m m' buf alen (nblks * 4096) h.filled f;
            },
          )
    ]

    read_last :
        (alen blkno : ℕ) (m : Bytes)
        → At alen blkno 0 m
        → AllRead (last_part false endpos (io false alen blkno 0 m))
    unfolding last_part io
    read_last alen blkno m h = elim (Bool-cases (endpos % 4096 == 0)) [
      | inl z ↦
          let all : alen ≡ endpos - offset = ground (arith, z, h.pos, h.left) in
          (
            blkno,
            0,
            m,
            false,
            rw z (ap (λ n. some (io false n blkno 0 m)) all),
            subst (λ n. Filled (content s b) offset s.mem m buf n) all h.filled,
          )
      | inr z ↦
          let inside : blkno < s.blocks = ground (arith, z, h.left, within, laid.enough) in
          let (m', e, f) =
            part alen (endpos - offset) blkno 0 0 (endpos % 4096) m h.filled inside
              (omega (arith, h.pos)) (omega arith) (omega arith)
              (omega (arith, h.pos, h.left, pos)) in
          (blkno, 0, m', false, rw z e, f)
    ]

    closed :
        (out : Bool) (blkno nblks : ℕ) (m : Bytes)
        → close_io offset (io out (endpos - offset) blkno nblks m)
          ≡ (0, endpos - offset, with_mem s m)
    unfolding io
    closed out blkno nblks m =
        let same : ltb s.size (offset + (endpos - offset)) ≡ false = ground (arith, pos, within) in
        rw same refl

    -- What follows the first part.
    abbrev later : Option Io → Option (ℕ × ℕ × Sfs)
    later o = o >>= λ p.
        middle_part false p >>= λ q. last_part false endpos q >>= λ r. some (close_io offset r)

    abbrev Result : Option (ℕ × ℕ × Sfs) → Type 0
    Result o =
        (m : Bytes) × (o ≡ some (0, endpos - offset, with_mem s m))
        × Filled (content s b) offset s.mem m buf (endpos - offset)

    after-First : (o : Option Io) → First o → Result (later o)
    unfolding middle_part last_part io
    after-First o (ends blkno nblks m e f) = (m, rw e (ap some (closed true blkno nblks m)), f)
    after-First o (goes_on alen blkno nblks m e h) =
        let (alen', blkno', m₁, g, h₁) = read_middle alen blkno nblks m h in
        let (blkno₂, nblks₂, m₂, out, k, f) = read_last alen' blkno' m₁ h₁ in
        (m₂, rw (e, g) (rw k (ap some (closed out blkno₂ nblks₂ m₂))), f)

    pub transfer_parts-Filled : Result (transfer_parts false buf offset endpos s)
    unfolding transfer_parts io
    transfer_parts-Filled =
        let same : buf ≡ buf + 0 = omega arith in
        let all = after-First (first_part false offset endpos begin) read-First in
        let (m, e, f) = all in
        (m, ap (λ n. later (first_part false offset endpos (record begin { buf = n }))) same ∙ e, f)
