-- ===== src/VfsLayer/Partial.antt =====
-- The references that a lookup of kern/fs/vfs/vfslookup.c has taken when it comes to its end, whatever
-- the assertions ask for.
use oscmp.Base.{
  ℕ, zero, suc, ◌+◌, ◌==◌, ◌≡◌, ◌≢◌, inl, inr, refl, ==_iff, false, not, Option, some, List, [],
  ◌∷◌, take, drop, arith, Bool-cases, asserted, bind_some,
}
use mathlib.Core.Path.{subst}
use oscmp.VfsLayer.Defs.{Store, Ret, ok, fails, Ops, op_lookup, vop_op, inode_ref_dec}
use oscmp.VfsLayer.Devices.{Vdev, same_name, root_of, vfs_get_root}
use oscmp.VfsLayer.Lookup.{
  Layer, Mark, no_mark, at_colon, at_slash, first_mark, skip_slashes, Begin, stops, begins,
  vfs_get_curdir, vfs_get_bootfs, root_beside, found_at, device_at, get_device, look_below,
  vfs_lookup,
}
use oscmp.VfsLayer.References.{refs, one, Balanced, Counting, refs-ref_inc, refs-ref_dec_some}

-- The references of a result: as for `Balanced`, but the inode may be any.
abbrev pub Counts : {D : Type 0} → Ret → Store D → Store D → Type 0
Counts (ok n) s s' = (m : ℕ) → refs s' m ≡ refs s m + one n m
Counts (fails e) s s' = (m : ℕ) → refs s' m ≡ refs s m

-- A device without a file system has an inode.
abbrev pub Present : List Vdev → Type 0
Present [] = Unit
Present (v ∷ vs) = (v.fs ≡ 0 → v.devnode ≢ 0) × Present vs

abbrev CountsAt : {D : Type 0} → Begin → Store D → Store D → Type 0
CountsAt (begins sub n) s s' = Counts (ok n) s s'
CountsAt (stops e) s s' = Counts (fails e) s s'

some_same {ℓ} : {A : Type ℓ} (x y : A) → some x ≡ some y → x ≡ y
some_same x y e = grind (arith, e)

module _ (o : Ops) (c : Counting o) where
  root_of-Counts :
      (v : Vdev) (s : Store o.D)
      → (v.fs ≡ 0 → v.devnode ≢ 0)
      → Counts (root_of o v s).0 s (root_of o v s).1
  root_of-Counts v s u = elim (Bool-cases (v.fs == 0)) [
    | inl none_there ↦ rw none_there (elim (Bool-cases (not v.mountable)) [
      | inl raw ↦
          let there = u ((==_iff v.fs 0).0 none_there) in
          let found : (v.devnode == 0) ≡ false = ground (arith, there) in
          rw raw (rw found (λ m. refs-ref_inc v.devnode m s))
      | inr empty ↦ rw empty (λ m. refl)
    ])
    | inr there ↦
        let b = c.root v.fs s in
        let found : ((o.fsop_get_root v.fs s).0 == 0) ≡ false = ground (arith, b.0) in
        rw there (rw found b.1)
  ]

  get_root-Counts :
      (name : List ℕ) (vs : List Vdev) (s : Store o.D)
      → Present vs
      → Counts (vfs_get_root o name vs s).0 s (vfs_get_root o name vs s).1
  unfolding vfs_get_root
  get_root-Counts name [] s u = λ m. refl
  get_root-Counts name (v ∷ vs) s u = elim (Bool-cases (same_name name v.devname)) [
    | inl same ↦ rw same (root_of-Counts v s u.0)
    | inr other ↦ rw other (get_root-Counts name vs s u.1)
  ]

  curdir-Counts : (l : Layer o.D) → Counts (vfs_get_curdir o l).0 l.store (vfs_get_curdir o l).1
  unfolding vfs_get_curdir
  curdir-Counts l = elim (Bool-cases (l.pwd == 0)) [
    | inl e ↦ rw e (λ m. refl)
    | inr e ↦ rw e (λ m. refs-ref_inc l.pwd m l.store)
  ]

  bootfs-Counts : (l : Layer o.D) → Counts (vfs_get_bootfs o l).0 l.store (vfs_get_bootfs o l).1
  unfolding vfs_get_bootfs
  bootfs-Counts l = elim (Bool-cases (l.bootfs_node == 0)) [
    | inl e ↦ rw e (λ m. refl)
    | inr e ↦ rw e (λ m. refs-ref_inc l.bootfs_node m l.store)
  ]

  beside-Counts :
      (r r' : Ret) (s₀ s s' : Store o.D)
      → Counts r s₀ s
      → root_beside o (r, s) ≡ some (r', s')
      → Counts r' s₀ s'
  beside-Counts (fails k) r' s₀ s s' b e =
      subst (λ p. Counts p.0 s₀ p.1) (some_same (fails k, s) (r', s') e) b
  beside-Counts (ok n) r' s₀ s s' b e =
      let fs = (s.nodes n).in_fs in
      let t = o.fsop_get_root fs s in
      let (u, d, f) =
        bind_some {B = Ret × Store o.D} (inode_ref_dec o n t.1) (λ u. some (ok t.0, u)) (r', s')
          (asserted (not (fs == 0)) _ e) in
      subst (λ p. Counts p.0 s₀ p.1) (some_same (ok t.0, u) (r', s') f)
        (λ m. omega (arith, b m, (c.root fs s).1 m, refs-ref_dec_some o c n t.1 u d m))

  found-Counts :
      (path sub q : List ℕ) (r : Ret) (s₀ s s' : Store o.D) (b : Begin)
      → Counts r s₀ s
      → ◌≡◌ {A = Option (Begin × List ℕ × Store o.D)}
          (some (found_at o path sub (r, s)))
          (some (b, q, s'))
      → CountsAt b s₀ s'
  found-Counts path sub q (ok n) s₀ s s' b g e =
      subst (λ p. CountsAt p.0 s₀ p.2) (some_same _ (b, q, s') e) g
  found-Counts path sub q (fails k) s₀ s s' b g e =
      subst (λ p. CountsAt p.0 s₀ p.2) (some_same _ (b, q, s') e) g

  device_at-Counts :
      (path q : List ℕ) (k : Mark) (l : Layer o.D) (b : Begin) (s : Store o.D)
      → Present l.vdev_list
      → device_at o path k l ≡ some (b, q, s)
      → CountsAt b l.store s
  device_at-Counts path q no_mark l b s u e =
      found-Counts path path q _ l.store _ s b (curdir-Counts l) e
  device_at-Counts path q (at_slash (suc i)) l b s u e =
      found-Counts path path q _ l.store _ s b (curdir-Counts l) e
  device_at-Counts path q (at_colon (suc i)) l b s u e =
      let name = take (suc i) path in
      found-Counts name (skip_slashes (drop (suc (suc i)) path)) q _ l.store _ s b
        (get_root-Counts name l.vdev_list l.store u) e
  device_at-Counts path q (at_slash zero) l b s u e =
      found-Counts path (skip_slashes (drop 1 path)) q _ l.store _ s b (bootfs-Counts l) e
  device_at-Counts path q (at_colon zero) l b s u e =
      let sub = skip_slashes (drop 1 path) in
      let ((r, t), f, g) =
        bind_some {B = Begin × List ℕ × Store o.D} (root_beside o (vfs_get_curdir o l))
          (λ r. some (found_at o path sub r)) (b, q, s) e in
      found-Counts path sub q r l.store t s b
        (beside-Counts (vfs_get_curdir o l).0 r l.store (vfs_get_curdir o l).1 t (curdir-Counts l)
          f)
        g

  looked_up-Counts :
      (n : ℕ) (r : Ret) (s₀ s t u : Store o.D)
      → Counts (ok n) s₀ s
      → Balanced r s t
      → inode_ref_dec o n t ≡ some u
      → Counts r s₀ u
  looked_up-Counts n (ok k) s₀ s t u b g d =
      λ m. omega (arith, b m, g.1 m, refs-ref_dec_some o c n t u d m)
  looked_up-Counts n (fails k) s₀ s t u b g d =
      λ m. omega (arith, b m, g m, refs-ref_dec_some o c n t u d m)

  look_below-Counts :
      (b : Begin) (path q : List ℕ) (s₀ s s' : Store o.D) (r : Ret)
      → CountsAt b s₀ s
      → look_below o (b, path, s) ≡ some (r, q, s')
      → Counts r s₀ s'
  look_below-Counts (stops k) path q s₀ s s' r b e =
      subst (λ p. Counts p.0 s₀ p.2) (some_same (fails k, path, s) (r, q, s') e) b
  look_below-Counts (begins [] n) path q s₀ s s' r b e =
      subst (λ p. Counts p.0 s₀ p.2) (some_same (ok n, path, s) (r, q, s') e) b
  look_below-Counts (begins (x ∷ xs) n) path q s₀ s s' r b e =
      let t = o.vop_lookup n (x ∷ xs) s in
      let (u, d, f) =
        bind_some {B = Ret × List ℕ × Store o.D} (inode_ref_dec o n t.1) (λ u. some (t.0, path, u))
          (r, q, s') (asserted (vop_op o op_lookup n s) _ e) in
      subst (λ p. Counts p.0 s₀ p.2) (some_same (t.0, path, u) (r, q, s') f)
        (looked_up-Counts n t.0 s₀ s t.1 u b (c.lookup n (x ∷ xs) s) d)

  pub vfs_lookup-Counts :
      (l : Layer o.D) (path q : List ℕ) (r : Ret) (s : Store o.D)
      → Present l.vdev_list
      → vfs_lookup o path l ≡ some (r, q, s)
      → Counts r l.store s
  unfolding vfs_lookup get_device
  vfs_lookup-Counts l path q r s u e =
      let ((b, p, t), f, g) =
        bind_some {B = Ret × List ℕ × Store o.D} (device_at o path (first_mark 0 path) l)
          (look_below o) (r, q, s) e in
      look_below-Counts b p q l.store t s r (device_at-Counts path p (first_mark 0 path) l b t u f)
        g
