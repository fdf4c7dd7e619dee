-- ===== src/VfsLayer/Mounting.antt =====
-- Mounting and unmounting by kern/fs/vfs/vfsdev.c undo each other on the device list.
use oscmp.Base.{
  ℕ, zero, suc, ◌<◌, ◌≡◌, ◌≢◌, refl, ap, ◌∙◌, some, List, [], ◌∷◌, length, get_elem?, set, arith,
  Option-cases, inl, inr, bind_some, get_elem?-set_self,
}
use oscmp.VfsLayer.Defs.{Store, Ops}
use oscmp.VfsLayer.Devices.{Vdev}
use oscmp.Files.{e_busy}
use oscmp.VfsLayer.Mounts.{
  find_mount, with_fs, vfs_mount, vfs_unmount, sync_unmount, mount_on, unmount_on,
}

set-set : (vs : List Vdev) (i : ℕ) (v w : Vdev) → set (set vs i v) i w ≡ set vs i w
set-set [] i v w = refl
set-set (x ∷ xs) zero v w = refl
set-set (x ∷ xs) (suc i) v w = ap (λ l. x ∷ l) (set-set xs i v w)

set_same : (vs : List Vdev) (i : ℕ) (v : Vdev) → get_elem? vs i ≡ some v → set vs i v ≡ vs
set_same [] i v e = refl
set_same (x ∷ xs) zero v e = ground (arith, e)
set_same (x ∷ xs) (suc i) v e = ap (λ l. x ∷ l) (set_same xs i v e)

get_elem?_lt : (vs : List Vdev) (i : ℕ) (v : Vdev) → get_elem? vs i ≡ some v → i < length vs
get_elem?_lt [] i v e = ground (arith, e)
get_elem?_lt (x ∷ xs) zero v e = omega arith
get_elem?_lt (x ∷ xs) (suc i) v e = omega (arith, get_elem?_lt xs i v e)

-- The search for a device does not look at what is mounted.
find_mount-with_fs :
    (name : List ℕ) (vs : List Vdev) (i : ℕ) (v : Vdev) (fs : ℕ)
    → get_elem? vs i ≡ some v
    → find_mount name (with_fs vs i v fs) ≡ find_mount name vs
unfolding find_mount
find_mount-with_fs name [] i v fs e = refl
find_mount-with_fs name (x ∷ xs) zero v fs e = ground (arith, e)
find_mount-with_fs name (x ∷ xs) (suc i) v fs e = rw (find_mount-with_fs name xs i v fs e)

module _ (o : Ops) where
  mount_on_done :
      (f : ℕ → Store o.D → ℕ × ℕ × Store o.D) (v : Vdev) (i : ℕ) (vs vs' : List Vdev)
      (s s' : Store o.D)
      → mount_on o f v i vs s ≡ some (0, vs', s')
      → (fs : ℕ) × (v.fs ≡ 0) × (fs ≢ 0) × (vs' ≡ with_fs vs i v fs)
  mount_on_done f v i vs vs' s s' e =
      ((f v.devnode s).1, ground (arith, e), ground (arith, e), ground (arith, e))

  -- What stands in the list after a mount, and what is there without it.
  mounted :
      (vs : List Vdev) (i : ℕ) (v : Vdev) (fs : ℕ)
      → get_elem? vs i ≡ some v
      → v.fs ≡ 0
      → (get_elem? (with_fs vs i v fs) i ≡ some (record v { fs = fs }))
        × (with_fs (with_fs vs i v fs) i (record v { fs = fs }) 0 ≡ vs)
  mounted vs i v fs at e =
      let old : record v { fs = 0 } ≡ v = ground (arith, e) in
      (
        get_elem?-set_self vs i _ (get_elem?_lt vs i v at),
        set-set vs i (record v { fs = fs }) (record v { fs = 0 })
            ∙ ap (λ w. set vs i w) old
            ∙ set_same vs i v at,
      )

  busy_mount :
      (g : ℕ → Store o.D → ℕ × ℕ × Store o.D) (vs : List Vdev) (i : ℕ) (v : Vdev) (t : Store o.D)
      → v.fs ≢ 0
      → mount_on o g v i vs t ≡ some (e_busy, vs, t)
  busy_mount g vs i v t n = ground arith

  unmount_on_done :
      (vs : List Vdev) (i : ℕ) (v : Vdev) (t u : Store o.D)
      → v.fs ≢ 0
      → sync_unmount o v.fs t ≡ (0, u)
      → unmount_on o v i vs t ≡ some (0, with_fs vs i v 0, u)
  unmount_on_done vs i v t u n e = ground (arith, e)

  -- A device on which vfs_mount has mounted a file system refuses another one, and once vfs_unmount
  -- has written back and unmounted the file system, whatever happened to the store in between, the
  -- device list is what it was before.
  pub mount-unmount :
      (f g : ℕ → Store o.D → ℕ × ℕ × Store o.D) (name : List ℕ) (vs vs' : List Vdev)
      (s s' : Store o.D)
      → vfs_mount o f name vs s ≡ some (0, vs', s')
      → (i : ℕ) × (v : Vdev) × (find_mount name vs ≡ some i)
        × (get_elem? vs' i ≡ some v)
        × ((t : Store o.D) → vfs_mount o g name vs' t ≡ some (e_busy, vs', t))
        × ((t u : Store o.D)
            → sync_unmount o v.fs t ≡ (0, u)
            → vfs_unmount o name vs' t ≡ some (0, vs, u))
  unfolding vfs_mount vfs_unmount
  mount-unmount f g name vs vs' s s' e = elim (Option-cases (find_mount name vs)) [
    | inl n ↦ absurd (ground (arith, e, n))
    | inr (i, found) ↦
        let (v, at, r) =
          bind_some (get_elem? vs i) (λ w. mount_on o f w i vs s) (0, vs', s') (rw found at e) in
        let (fs, empty, some_fs, vs'_eq) = mount_on_done f v i vs vs' s s' r in
        let v' : Vdev = record v { fs = fs } in
        let (at', back) = mounted vs i v fs at empty in
        let found' = find_mount-with_fs name vs i v fs at ∙ found in
        (
          i,
          v',
          found,
          rw vs'_eq at',
          λ t. rw vs'_eq (rw found' (rw at' (busy_mount g (with_fs vs i v fs) i v' t some_fs))),
          λ t u e'. rw vs'_eq (
              rw found' (
                rw at' (
                  unmount_on_done (with_fs vs i v fs) i v' t u some_fs e'
                  ∙ ap (λ l. some (0, l, u)) back))),
        )
  ]
