-- ===== src/Files/Transfer.antt =====
-- Reads and writes of kern/fs/file.c on an open file.
use oscmp.Base.{
  ℕ, ◌+◌, ◌-◌, ◌≡◌, ◌<◌, refl, true, false, some, ◌==◌, ltb, if◌then◌else◌, get_elem?, set, pos,
  arith, Bool-cases, inl, inr,
}
use oscmp.Iobuf.{Iobuf, iobuf_used, iobuf_init}
use oscmp.Files.Defs.{
  fd_opened, File, err, e_inval, Vfs, Files, fd2file, entry_at, drop_count, fd_array_acquire,
  fd_array_release,
}
use oscmp.Files.Ops.{ret_of, kpu_buff_size, advance, transfer_at, file_read, file_write}
use oscmp.Files.Slots.{IsValid, get_elem?-set, set-set, set-IsValid, opened-Counted}

module _ (v : Vfs) where
  open v use {Fs, vop_read, vop_write}

  -- The state after a transfer on entry `i`, which is `f`.
  abbrev pub moved : ℕ → File → ℕ × Iobuf × Fs → Files v → Files v
  moved i f (e, iob, s) t = record {
    fd_array = set t.fd_array i (record f { offset = f.offset + iobuf_used iob });
    fs = s;
  }

  module _ (t : Files v) (i : ℕ) (f : File) (val : IsValid t.fd_array)
      (p : get_elem? t.fd_array i ≡ some f) (o : f.status ≡ fd_opened) where
    -- The reference taken for the transfer is given back, so that the entry stays open.
    transfer_lem :
        (op : ℕ → Iobuf → Fs → ℕ × Iobuf × Fs) (base len : ℕ) (r : ℕ × Iobuf × Fs)
        → op f.node (iobuf_init base len f.offset) t.fs ≡ r
        → transfer_at v op i base len t ≡ some (ret_of r.0, iobuf_used r.1, moved i f r t)
    unfolding transfer_at fd_array_acquire fd_array_release advance drop_count
    transfer_lem op base len (e, iob, s) q =
        let live : 0 < f.open_count = opened-Counted f.status f.open_count o (val i f p).counted in
        let back : (g : File) → get_elem? (set t.fd_array i g) i ≡ some g =
          λ g. get_elem?-set t.fd_array i f g p in
        let lt : ltb 0 (f.open_count + 1) ≡ true = ground arith in
        let same : f.open_count + 1 - 1 ≡ f.open_count = omega arith in
        let nz : (f.open_count == 0) ≡ false = ground (arith, live) in
        rw (p, o, back, q, set-set, back, lt, same, nz, set-set) refl

    offset-IsValid : (r : ℕ × Iobuf × Fs) → IsValid (moved i f r t).fd_array
    offset-IsValid (e, iob, s) =
        let slot = val i f p in
        set-IsValid t.fd_array i f (record f { offset = f.offset + iobuf_used iob }) val p
          (record { numbered = slot.numbered; counted = slot.counted })

    found : (f.fd == i) ≡ true
    found = ground (arith, (val i f p).numbered)

    -- A read through an open descriptor returns what the file system returns; the offset of the
    -- file moves on by the bytes that the buffer took, and the table stays valid. A file that is
    -- not open for reading is refused with nothing changed. The count reported for descriptor 2 is
    -- the size of a KPU buffer, whatever was read.
    pub file_read-moved :
        (base len : ℕ) (r : ℕ × Iobuf × Fs)
        → vop_read f.node (iobuf_init base len f.offset) t.fs ≡ r
        → (file_read v (pos i) base len t ≡ (
            if f.readable
            then some
                (ret_of r.0, (if i == 2 then kpu_buff_size else iobuf_used r.1), moved i f r t)
            else some (err e_inval, 0, t)))
          × IsValid (moved i f r t).fd_array
    unfolding file_read fd2file entry_at
    file_read-moved base len r q = (
      elim (Bool-cases f.readable) [
        | inl z ↦ rw (p, o, found, p, z, transfer_lem vop_read base len r q) (rw (o, z) refl)
        | inr z ↦ rw (p, o, found, p, z) refl
      ],
      offset-IsValid r,
    )

    -- A write through an open descriptor returns what the file system returns; the offset of the
    -- file moves on by the bytes that the buffer gave, and the table stays valid. A file that is
    -- not open for writing is refused with nothing changed.
    pub file_write-moved :
        (base len : ℕ) (r : ℕ × Iobuf × Fs)
        → vop_write f.node (iobuf_init base len f.offset) t.fs ≡ r
        → (file_write v (pos i) base len t ≡ (
            if f.writable
            then some (ret_of r.0, iobuf_used r.1, moved i f r t)
            else some (err e_inval, 0, t)))
          × IsValid (moved i f r t).fd_array
    unfolding file_write fd2file entry_at
    file_write-moved base len r q = (
      elim (Bool-cases f.writable) [
        | inl z ↦ rw (p, o, found, p, z, transfer_lem vop_write base len r q) (rw (o, z) refl)
        | inr z ↦ rw (p, o, found, p, z) refl
      ],
      offset-IsValid r,
    )
