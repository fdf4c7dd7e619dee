-- ===== src/VfsLayer/Balance.antt =====
-- A lookup of kern/fs/vfs/vfslookup.c keeps the references to inodes balanced.
use oscmp.Base.{
  ℕ, zero, suc, ◌+◌, ◌==◌, ◌≡◌, ◌≢◌, ◌<◌, ◌∙◌, inl, inr, refl, ap, true, false, ◌&&◌, some, List,
  [], ◌∷◌, ◌>>=◌, take, drop, arith, Bool-cases,
}
use oscmp.VfsLayer.Defs.{
  Store, Ret, ok, fails, Ops, op_lookup, vop_op, inode_check, inode_ref_inc, inode_ref_dec,
}
use oscmp.VfsLayer.Devices.{e_exists}
use oscmp.VfsLayer.Lookup.{
  Layer, Mark, no_mark, at_colon, at_slash, first_mark, skip_slashes, Begin, stops, begins,
  vfs_get_curdir, root_beside, found_at, device_at, get_device, look_below, vfs_lookup,
}
use oscmp.VfsLayer.Opening.{flags_ok, o_creat, o_excl, vfs_open}
use oscmp.VfsLayer.Partial.{Present, vfs_lookup-Counts}
use oscmp.VfsLayer.References.{
  refs, Balanced, Kept, Begun, BegunAt, Counting, Lasting, Stands, refs-ref_dec, refs-ref_dec_held,
  ref_inc-Begun, vfs_get_root-Begun, vfs_get_curdir-Begun, vfs_get_bootfs-Begun, begin-Begun,
}

Kept-trans : (o : Ops) (s t u : Store o.D) → Kept o s t → Kept o t u → Kept o s u
Kept-trans o s t u f g m = ((g m).0 ∙ (f m).0, λ r. (g m).1 ((f m).1 r))

module _ (o : Ops) (c : Counting o) (d : Lasting o) (l : Layer o.D) (h : Stands o l) where
  beside_ok :
      (n : ℕ) (s : Store o.D)
      → Begun o (ok n) l.store s
      → ((s.nodes n).in_fs == 0) ≡ false
      → 0 < refs l.store n
      → (r : Ret) × (s' : Store o.D) × (root_beside o (ok n, s) ≡ some (r, s'))
        × Begun o r l.store s'
  beside_ok n s (b, kept, _) f held =
      let fs = (s.nodes n).in_fs in
      let t = (o.fsop_get_root fs s).1 in
      let (some_root, g) = c.root fs s in
      let kept' = d.root fs s in
      let r = d.root_ready fs s in
      let (s', e, k, kept'') = refs-ref_dec_held o n t (ground (arith, b.1 n, g n, held)) in
      (
        ok (o.fsop_get_root fs s).0,
        s',
        rw f (rw e refl),
        (
          (some_root, λ m. omega (arith, k m, g m, b.1 m)),
          Kept-trans o l.store s s' kept (Kept-trans o s t s' kept' kept''),
          (kept'' (o.fsop_get_root fs s).0).1 r,
        ),
      )

  kept_fs : l.pwd ≢ 0 → (((inode_ref_inc l.pwd l.store).nodes l.pwd).in_fs == 0) ≡ false
  unfolding inode_ref_inc
  kept_fs n = ground (arith, h.in_fs n)

  beside_curdir :
      (r : Ret) × (s' : Store o.D) × (root_beside o (vfs_get_curdir o l) ≡ some (r, s'))
      × Begun o r l.store s'
  unfolding vfs_get_curdir
  beside_curdir = elim (Bool-cases (l.pwd == 0)) [
    | inl e ↦ rw e (fails 16, l.store, refl, λ m. refl)
    | inr e ↦
        let there : l.pwd ≢ 0 = ground arith in
        rw e (
          beside_ok l.pwd (inode_ref_inc l.pwd l.store)
            (ref_inc-Begun o l.pwd l.store there (h.pwd_ready there)) (kept_fs there)
            (h.pwd_held there))
  ]

  device_at-Begun :
      (path : List ℕ) (k : Mark)
      → (b : Begin) × (path' : List ℕ) × (s : Store o.D) × (device_at o path k l
          ≡ some (b, path', s))
        × BegunAt o b l.store s
  device_at-Begun path no_mark =
      (_, _, _, refl, begin-Begun o l h path path _ _ (vfs_get_curdir-Begun o l h))
  device_at-Begun path (at_slash (suc i)) =
      (_, _, _, refl, begin-Begun o l h path path _ _ (vfs_get_curdir-Begun o l h))
  device_at-Begun path (at_colon (suc i)) = (
    _,
    _,
    _,
    refl,
    begin-Begun o l h (take (suc i) path) (skip_slashes (drop (suc (suc i)) path)) _ _
        (vfs_get_root-Begun o c d (take (suc i) path) l.vdev_list l.store h.usable),
  )
  device_at-Begun path (at_slash zero) = (
    _,
    _,
    _,
    refl,
    begin-Begun o l h path (skip_slashes (drop 1 path)) _ _ (vfs_get_bootfs-Begun o l h),
  )
  device_at-Begun path (at_colon zero) =
      let (r, s, e, b) = beside_curdir in
      (
        _,
        _,
        _,
        ap (λ q. q >>= λ p. some (found_at o path (skip_slashes (drop 1 path)) p)) e,
        begin-Begun o l h path (skip_slashes (drop 1 path)) r s b,
      )

  -- The inode at which a lookup begins passes the assertions in front of vop_lookup.
  lookup_ok : (n : ℕ) (s : Store o.D) → Begun o (ok n) l.store s → vop_op o op_lookup n s ≡ true
  unfolding vop_op inode_check
  lookup_ok n s (b, kept, r) = ground (arith, b.0, b.1 n, r, (kept n).0, h.open_few n, h.room n)

  looked_up :
      (n : ℕ) (s t : Store o.D) (r : Ret)
      → Begun o (ok n) l.store s
      → Balanced r s t
      → Kept o s t
      → (t' : Store o.D) × (inode_ref_dec o n t ≡ some t') × Balanced r l.store t'
  looked_up n s t (ok k) (b, kept, q) g kept' =
      let (t', e, f) =
        refs-ref_dec o c n t b.0 ((kept' n).1 q)
          (ground (arith, b.1 n, g.1 n, (kept n).0, (kept' n).0, h.open_few n)) in
      (t', e, (g.0, λ m. omega (arith, f m, g.1 m, b.1 m)))
  looked_up n s t (fails k) (b, kept, q) g kept' =
      let (t', e, f) =
        refs-ref_dec o c n t b.0 ((kept' n).1 q)
          (ground (arith, b.1 n, g n, (kept n).0, (kept' n).0, h.open_few n)) in
      (t', e, λ m. omega (arith, f m, g m, b.1 m))

  look_below-Balanced :
      (b : Begin) (path : List ℕ) (s : Store o.D)
      → BegunAt o b l.store s
      → (r : Ret) × (s' : Store o.D) × (look_below o (b, path, s) ≡ some (r, path, s'))
        × Balanced r l.store s'
  look_below-Balanced (stops e) path s b = (fails e, s, refl, b)
  look_below-Balanced (begins [] n) path s b = (ok n, s, refl, b.0)
  look_below-Balanced (begins (x ∷ xs) n) path s b =
      let r = (o.vop_lookup n (x ∷ xs) s).0 in
      let t = (o.vop_lookup n (x ∷ xs) s).1 in
      let (t', e, f) = looked_up n s t r b (c.lookup n (x ∷ xs) s) (d.lookup n (x ∷ xs) s) in
      (r, t', rw (lookup_ok n s b) (rw e refl), f)

  -- If the file systems give inodes with a reference, and roots at which a lookup can begin, and their
  -- lookups change nothing else of the counts and operations; a lookup can begin at the inode of a
  -- device without a file system, at that of the boot file system and at the working directory, which
  -- is in a file system and has a reference; and no inode has more openings than references, or
  -- 65535 references or more: then vfs_lookup meets no failed assertion. What it finds carries one reference more than before,
  -- and all other counts are what they were; if it finds nothing, all counts are what they were.
  pub vfs_lookup-Balanced :
      (path : List ℕ)
      → (r : Ret) × (path' : List ℕ) × (s : Store o.D) × (vfs_lookup o path l ≡ some (r, path', s))
        × Balanced r l.store s
  unfolding vfs_lookup get_device
  vfs_lookup-Balanced path =
      let (b, path', s, e, f) = device_at-Begun path (first_mark 0 path) in
      let (r, s', g, k) = look_below-Balanced b path' s f in (r, path', s', rw e g, k)

-- If what the file systems give carries a reference and to reclaim an inode changes no count of
-- references, and every device without a file system has an inode, then for flags that vfs_open accepts, with O_CREAT and O_EXCL, and a path that vfs_lookup
-- finds: vfs_open fails with E_EXISTS, and leaves the file with one reference more than before.
pub vfs_open-leak :
    (o : Ops) (l : Layer o.D) (junk flags : ℕ) (path path' : List ℕ) (n : ℕ) (s : Store o.D)
    → Counting o
    → Present l.vdev_list
    → flags_ok flags ≡ true
    → (o_excl flags && o_creat flags) ≡ true
    → vfs_lookup o path l ≡ some (ok n, path', s)
    → (vfs_open o junk path flags l ≡ some (fails e_exists, s)) × (refs s n ≡ refs l.store n + 1)
unfolding vfs_open
vfs_open-leak o l junk flags path path' n s c u f x e =
    (rw f (rw e (rw x refl)), ground (arith, vfs_lookup-Counts o c l path path' (ok n) s u e n))
