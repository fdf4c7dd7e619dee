-- ===== src/VfsLayer/References.antt =====
-- The references to inodes that the lookups of kern/fs/vfs/vfslookup.c take and give back.
use oscmp.Base.{
  ℕ, ◌+◌, ◌-◌, ◌<◌, ◌≤◌, ◌==◌, ◌≡◌, ◌≢◌, inl, inr, refl, Bool, true, false, ltb, asserted, not,
  ◌&&◌, some, List, [], ◌∷◌, if◌then◌else◌, update, arith, Bool-cases, ==_iff,
}
use oscmp.VfsLayer.Defs.{
  Store, Ret, ok, fails, Ops, op_lookup, op_reclaim, max_inode_count, vop_op, inode_check,
  inode_ref_inc, inode_ref_dec,
}
use oscmp.VfsLayer.Devices.{Vdev, same_name, root_of, vfs_get_root}
use oscmp.VfsLayer.Lookup.{Layer, Begin, stops, begins, vfs_get_curdir, vfs_get_bootfs, found_at}

abbrev pub refs : {D : Type 0} → Store D → ℕ → ℕ
refs s n = (s.nodes n).ref_count

-- One reference, to the first inode.
abbrev pub one : ℕ → ℕ → ℕ
one n m = if n == m then 1 else 0

-- A result carries one reference to the inode that it names, and there is no other change.
abbrev pub Balanced : {D : Type 0} → Ret → Store D → Store D → Type 0
Balanced (ok n) s s' = (n ≢ 0) × ((m : ℕ) → refs s' m ≡ refs s m + one n m)
Balanced (fails e) s s' = (m : ℕ) → refs s' m ≡ refs s m

abbrev pub opens : {D : Type 0} → Store D → ℕ → ℕ
opens s n = (s.nodes n).open_count

-- A lookup can begin at the inode, and its last reference can go.
abbrev pub ready : (o : Ops) → Store o.D → ℕ → Bool
ready o s n =
    not ((s.nodes n).in_ops == 0)
    && o.defines op_lookup (s.nodes n).in_ops
    && o.defines op_reclaim (s.nodes n).in_ops

-- No inode is opened or closed, and none that is ready is no longer.
abbrev pub Kept : (o : Ops) → Store o.D → Store o.D → Type 0
Kept o s s' = (m : ℕ) → (opens s' m ≡ opens s m) × (ready o s m ≡ true → ready o s' m ≡ true)

-- A balanced result at whose inode a lookup can begin.
abbrev pub Begun : (o : Ops) → Ret → Store o.D → Store o.D → Type 0
Begun o (ok n) s s' = Balanced (ok n) s s' × Kept o s s' × (ready o s' n ≡ true)
Begun o (fails e) s s' = Balanced (fails e) s s'

-- What the file systems promise of their operations: what they give is an inode with a reference for
-- the caller, and to reclaim an inode changes no count of references.
pub record Counting (o : Ops) : Type 0 where
  pub root :
      (fs : ℕ) (s : Store o.D) → Balanced (ok (o.fsop_get_root fs s).0) s (o.fsop_get_root fs s).1
  pub lookup :
      (n : ℕ) (path : List ℕ) (s : Store o.D)
      → Balanced (o.vop_lookup n path s).0 s (o.vop_lookup n path s).1
  pub reclaim : (n : ℕ) (s : Store o.D) (m : ℕ) → refs (o.vop_reclaim n s) m ≡ refs s m

-- They open and close no inode and change the operations of none, and at a root a lookup can begin.
pub record Lasting (o : Ops) : Type 0 where
  pub root : (fs : ℕ) (s : Store o.D) → Kept o s (o.fsop_get_root fs s).1
  pub root_ready :
      (fs : ℕ) (s : Store o.D) → ready o (o.fsop_get_root fs s).1 (o.fsop_get_root fs s).0 ≡ true
  pub lookup : (n : ℕ) (path : List ℕ) (s : Store o.D) → Kept o s (o.vop_lookup n path s).1

-- A device without a file system has an inode at which a lookup can begin.
abbrev pub Usable : (o : Ops) → Store o.D → List Vdev → Type 0
Usable o s [] = Unit
Usable o s (v ∷ vs) = (v.fs ≡ 0 → (v.devnode ≢ 0) × (ready o s v.devnode ≡ true)) × Usable o s vs

module _ {D : Type 0} where
  pub refs-ref_inc : (n m : ℕ) (s : Store D) → refs (inode_ref_inc n s) m ≡ refs s m + one n m
  unfolding inode_ref_inc
  refs-ref_inc n m s = ground arith

module _ (o : Ops) where
  pub ref_inc-Begun :
      (n : ℕ) (s : Store o.D) → n ≢ 0 → ready o s n ≡ true → Begun o (ok n) s (inode_ref_inc n s)
  unfolding inode_ref_inc
  ref_inc-Begun n s z r =
      ((z, λ m. refs-ref_inc n m s), λ m. (ground arith, λ q. ground (arith, q)), ground (arith, r))

  less : ℕ → Store o.D → Store o.D
  less n s = record s {
    nodes = update s.nodes n (record (s.nodes n) { ref_count = (s.nodes n).ref_count - 1 });
  }

  -- The inode passes the assertions in front of vop_reclaim.
  less_ok :
      (n : ℕ) (s : Store o.D)
      → n ≢ 0
      → ready o s n ≡ true
      → opens s n < refs s n
      → refs s n ≡ 1
      → vop_op o op_reclaim n (less n s) ≡ true
  unfolding vop_op inode_check less
  less_ok n s z r h last = ground (arith, r)

  -- To give back a reference that is not the last one takes it off.
  pub refs-ref_dec_held :
      (n : ℕ) (s : Store o.D)
      → 1 < refs s n
      → (s' : Store o.D) × (inode_ref_dec o n s ≡ some s')
        × ((m : ℕ) → refs s' m + one n m ≡ refs s m)
        × Kept o s s'
  unfolding inode_ref_dec less
  refs-ref_dec_held n s h = (
    less n s,
    ground (arith, h),
    λ m. ground (arith, h),
    λ m. (ground arith, λ q. ground (arith, q)),
  )

module _ (o : Ops) (c : Counting o) where
  -- To give a reference back takes it off, if there is one.
  pub refs-ref_dec :
      (n : ℕ) (s : Store o.D)
      → n ≢ 0
      → ready o s n ≡ true
      → opens s n < refs s n
      → (s' : Store o.D) × (inode_ref_dec o n s ≡ some s')
        × ((m : ℕ) → refs s' m + one n m ≡ refs s m)
  unfolding inode_ref_dec less
  refs-ref_dec n s z r h = elim (Bool-cases ((s.nodes n).ref_count - 1 == 0)) [
    | inl last ↦ (
      o.vop_reclaim n (less o n s),
      ground (arith, h, last, less_ok o n s z r h (ground (arith, last, h))),
      λ m. ground (arith, c.reclaim n (less o n s) m, h),
    )
    | inr more ↦ (less o n s, ground (arith, h, more), λ m. ground (arith, h))
  ]

module _ (o : Ops) (c : Counting o) where
  -- Where no assertion fails, one reference has gone.
  pub refs-ref_dec_some :
      (n : ℕ) (s s' : Store o.D)
      → inode_ref_dec o n s ≡ some s'
      → (m : ℕ) → refs s' m + one n m ≡ refs s m
  unfolding inode_ref_dec less
  refs-ref_dec_some n s s' e m = elim (Bool-cases (ltb 0 (s.nodes n).ref_count)) [
    | inr none_left ↦ absurd (ground (arith, e, none_left))
    | inl held ↦ elim (Bool-cases ((s.nodes n).ref_count - 1 == 0)) [
      | inl last ↦
          let f =
            asserted (vop_op o op_reclaim n (less o n s)) (some (o.vop_reclaim n (less o n s)))
              {r = s'} (rw last at (rw held at e)) in
          ground (arith, f, last, held, c.reclaim n (less o n s) m)
      | inr more ↦ ground (arith, e, more, held)
    ]
  ]

module _ (o : Ops) (c : Counting o) (d : Lasting o) where
  root_of-Begun :
      (v : Vdev) (s : Store o.D)
      → (v.fs ≡ 0 → (v.devnode ≢ 0) × (ready o s v.devnode ≡ true))
      → Begun o (root_of o v s).0 s (root_of o v s).1
  root_of-Begun v s u = elim (Bool-cases (v.fs == 0)) [
    | inl none_there ↦ rw none_there (elim (Bool-cases (not v.mountable)) [
      | inl raw ↦
          let (there, r) = u ((==_iff v.fs 0).0 none_there) in
          let found : (v.devnode == 0) ≡ false = ground (arith, there) in
          rw raw (rw found (ref_inc-Begun o v.devnode s there r))
      | inr empty ↦ rw empty (λ m. refl)
    ])
    | inr there ↦
        let b = c.root v.fs s in
        let found : ((o.fsop_get_root v.fs s).0 == 0) ≡ false = ground (arith, b.0) in
        rw there (rw found (b, d.root v.fs s, d.root_ready v.fs s))
  ]

  pub vfs_get_root-Begun :
      (name : List ℕ) (vs : List Vdev) (s : Store o.D)
      → Usable o s vs
      → Begun o (vfs_get_root o name vs s).0 s (vfs_get_root o name vs s).1
  unfolding vfs_get_root
  vfs_get_root-Begun name [] s u = λ m. refl
  vfs_get_root-Begun name (v ∷ vs) s u = elim (Bool-cases (same_name name v.devname)) [
    | inl same ↦ rw same (root_of-Begun v s u.0)
    | inr other ↦ rw other (vfs_get_root-Begun name vs s u.1)
  ]

-- The same for the inode at which a lookup is to begin.
abbrev pub BegunAt : (o : Ops) → Begin → Store o.D → Store o.D → Type 0
BegunAt o (begins sub n) s s' = Begun o (ok n) s s'
BegunAt o (stops e) s s' = Begun o (fails e) s s'

-- What a lookup needs of its layer: a device without a file system, the working directory and the
-- boot file system have an inode at which a lookup can begin; the working directory is in a file
-- system, and has a reference; and no inode has more openings than references, or so many references
-- that inode_check refuses one more.
pub record Stands (o : Ops) (l : Layer o.D) : Type 0 where
  pub usable : Usable o l.store l.vdev_list
  pub in_fs : l.pwd ≢ 0 → ((l.store.nodes l.pwd).in_fs == 0) ≡ false
  pub pwd_ready : l.pwd ≢ 0 → ready o l.store l.pwd ≡ true
  pub pwd_held : l.pwd ≢ 0 → 0 < refs l.store l.pwd
  pub boot_ready : l.bootfs_node ≢ 0 → ready o l.store l.bootfs_node ≡ true
  pub open_few : (m : ℕ) → opens l.store m ≤ refs l.store m
  pub room : (m : ℕ) → refs l.store m + 1 < max_inode_count

module _ (o : Ops) (l : Layer o.D) (h : Stands o l) where
  pub vfs_get_curdir-Begun : Begun o (vfs_get_curdir o l).0 l.store (vfs_get_curdir o l).1
  unfolding vfs_get_curdir
  vfs_get_curdir-Begun = elim (Bool-cases (l.pwd == 0)) [
    | inl e ↦ rw e (λ m. refl)
    | inr e ↦
        let there : l.pwd ≢ 0 = ground arith in
        rw e (ref_inc-Begun o l.pwd l.store there (h.pwd_ready there))
  ]

  pub vfs_get_bootfs-Begun : Begun o (vfs_get_bootfs o l).0 l.store (vfs_get_bootfs o l).1
  unfolding vfs_get_bootfs
  vfs_get_bootfs-Begun = elim (Bool-cases (l.bootfs_node == 0)) [
    | inl e ↦ rw e (λ m. refl)
    | inr e ↦
        let there : l.bootfs_node ≢ 0 = ground arith in
        rw e (ref_inc-Begun o l.bootfs_node l.store there (h.boot_ready there))
  ]

  pub begin-Begun :
      (path sub : List ℕ) (r : Ret) (s : Store o.D)
      → Begun o r l.store s
      → BegunAt o (found_at o path sub (r, s)).0 l.store s
  begin-Begun path sub (ok n) s b = b
  begin-Begun path sub (fails e) s b = b
