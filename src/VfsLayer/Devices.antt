-- ===== src/VfsLayer/Devices.antt =====
-- kern/fs/vfs/vfsdev.c: the list of devices, in its order. The semaphore of the list makes each of
-- these functions one step. What memory there is for a new entry is an argument.
use oscmp.Base.{
  ℕ, Bool, true, false, not, ◌&&◌, ◌||◌, Option, none, some, List, [], ◌∷◌, ltb, ◌==◌,
  if◌then◌else◌, assert, length,
}
use oscmp.VfsLayer.Defs.{Store, Ret, ok, fails, Ops, inode_ref_inc}

-- `vfs_dev_t`
pub record Vdev : Type 0 where
  pub devname : List ℕ
  pub devnode : ℕ
  pub fs : ℕ
  pub mountable : Bool

abbrev pub e_no_mem : ℕ
e_no_mem = 4

abbrev pub e_too_big : ℕ
e_too_big = 12

abbrev pub e_no_dev : ℕ
e_no_dev = 13

abbrev pub e_na_dev : ℕ
e_na_dev = 14

abbrev pub e_exists : ℕ
e_exists = 23

abbrev pub fs_max_dname_len : ℕ
fs_max_dname_len = 31

-- `strcmp(a, b) == 0`
abbrev pub same_name : List ℕ → List ℕ → Bool
same_name [] [] = true
same_name [] (y ∷ ys) = false
same_name (x ∷ xs) [] = false
same_name (x ∷ xs) (y ∷ ys) = x == y && same_name xs ys

unfoldable pub check_devname_conflict : List ℕ → List Vdev → Bool
check_devname_conflict name [] = true
check_devname_conflict name (v ∷ vs) =
    if same_name v.devname name then false else check_devname_conflict name vs

-- What has memory: the copy of the name, and the entry.
unfoldable pub vfs_do_add :
    Bool → Bool → (ℕ → Bool) → List ℕ → ℕ → ℕ → Bool → List Vdev → Option (ℕ × List Vdev)
vfs_do_add dup_ok entry_ok is_device name devnode fs mountable vs =
    assert ((devnode == 0 && not mountable) || (not (devnode == 0) && is_device devnode)) (
      some (
        if ltb fs_max_dname_len (length name)
        then (e_too_big, vs)
        else if not dup_ok
        then (e_no_mem, vs)
        else if not entry_ok
        then (e_no_mem, vs)
        else if not (check_devname_conflict name vs)
        then (e_exists, vs)
        else (
          0,
          (record { devname = name; devnode = devnode; fs = fs; mountable = mountable }) ∷ vs,
        )))

unfoldable pub vfs_get_devname : ℕ → List Vdev → Option (List ℕ)
vfs_get_devname fs [] = none
vfs_get_devname fs (v ∷ vs) = if v.fs == fs then some v.devname else vfs_get_devname fs vs

module _ (o : Ops) where
  -- The root of what is on a device that has the name.
  abbrev pub root_of : Vdev → Store o.D → Ret × Store o.D
  root_of v s =
      if not (v.fs == 0)
      then (let (n, s') = o.fsop_get_root v.fs s in (if n == 0 then fails e_na_dev else ok n, s'))
      else if not v.mountable
      then (if v.devnode == 0 then fails e_na_dev else ok v.devnode, inode_ref_inc v.devnode s)
      else (fails e_na_dev, s)

  unfoldable pub vfs_get_root : List ℕ → List Vdev → Store o.D → Ret × Store o.D
  vfs_get_root name [] s = (fails e_no_dev, s)
  vfs_get_root name (v ∷ vs) s =
      if same_name name v.devname then root_of v s else vfs_get_root name vs s

  unfoldable pub vfs_cleanup : List Vdev → Store o.D → Store o.D
  vfs_cleanup [] s = s
  vfs_cleanup (v ∷ vs) s = vfs_cleanup vs (if v.fs == 0 then s else o.fsop_cleanup v.fs s)
