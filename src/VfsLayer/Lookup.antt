-- ===== src/VfsLayer/Lookup.antt =====
-- kern/fs/vfs/vfslookup.c, vfspath.c and vfs.c: from a path to an inode. A path is its characters up
-- to the null byte; get_device writes a null byte over the colon, so that the caller's path is
-- another one afterwards.
use oscmp.Base.{
  ℕ, zero, suc, Bool, not, Option, some, List, [], ◌∷◌, ◌==◌, if◌then◌else◌, assert, ◌>>=◌, take,
  drop,
}
use oscmp.VfsLayer.Defs.{
  Store, Ret, ok, fails, Ops, op_lookup, op_gettype, vop_op, inode_ref_inc, inode_ref_dec,
}
use oscmp.VfsLayer.Devices.{Vdev, vfs_get_root}

abbrev pub e_noent : ℕ
e_noent = 16

abbrev pub e_notdir : ℕ
e_notdir = 18

-- What the running process and the virtual file system stand at: the working directory of the
-- process, the root of the boot file system, the devices, and the store below.
pub record Layer (D : Type 0) : Type 0 where
  pub pwd : ℕ
  pub bootfs_node : ℕ
  pub vdev_list : List Vdev
  pub store : Store D

abbrev pub slash : ℕ
slash = b'/'

abbrev pub colon : ℕ
colon = b':'

-- Which of `:` and `/` comes first, and where.
pub data Mark : Type 0 where
  no_mark : Mark
  at_colon at_slash : ℕ → Mark

unfoldable pub first_mark : ℕ → List ℕ → Mark
first_mark i [] = no_mark
first_mark i (c ∷ cs) =
    if c == colon then at_colon i else if c == slash then at_slash i else first_mark (suc i) cs

unfoldable pub skip_slashes : List ℕ → List ℕ
skip_slashes [] = []
skip_slashes (c ∷ cs) = if c == slash then skip_slashes cs else c ∷ cs

-- What get_device gives: an error number or the subpath and the inode to begin at; then the path of
-- the caller, and the store.
pub data Begin : Type 0 where
  stops : ℕ → Begin
  begins : List ℕ → ℕ → Begin

abbrev pub begin : List ℕ → Ret → Begin
begin sub (ok n) = begins sub n
begin sub (fails e) = stops e

module _ (o : Ops) where
  unfoldable pub vfs_get_curdir : Layer o.D → Ret × Store o.D
  vfs_get_curdir l =
      if l.pwd == 0 then (fails e_noent, l.store) else (ok l.pwd, inode_ref_inc l.pwd l.store)

  unfoldable pub vfs_get_bootfs : Layer o.D → Ret × Store o.D
  vfs_get_bootfs l =
      if l.bootfs_node == 0
      then (fails e_noent, l.store)
      else (ok l.bootfs_node, inode_ref_inc l.bootfs_node l.store)

  -- The root of the file system of an inode, whose reference goes.
  abbrev pub root_beside : Ret × Store o.D → Option (Ret × Store o.D)
  root_beside (fails e, s) = some (fails e, s)
  root_beside (ok n, s) = assert (not ((s.nodes n).in_fs == 0)) (
      let (root, s') = o.fsop_get_root (s.nodes n).in_fs s in
      inode_ref_dec o n s' >>= λ s''. some (ok root, s''))

  abbrev pub found_at : List ℕ → List ℕ → Ret × Store o.D → Begin × List ℕ × Store o.D
  found_at path sub (r, s) = (begin sub r, path, s)

  abbrev pub device_at : List ℕ → Mark → Layer o.D → Option (Begin × List ℕ × Store o.D)
  device_at path no_mark l = some (found_at path path (vfs_get_curdir l))
  device_at path (at_slash (suc i)) l = some (found_at path path (vfs_get_curdir l))
  device_at path (at_colon (suc i)) l =
      let name = take (suc i) path in
      some (
        found_at name (skip_slashes (drop (suc (suc i)) path))
          (vfs_get_root o name l.vdev_list l.store))
  device_at path (at_slash zero) l =
      some (found_at path (skip_slashes (drop 1 path)) (vfs_get_bootfs l))
  device_at path (at_colon zero) l =
      root_beside (vfs_get_curdir l) >>= λ r. some (found_at path (skip_slashes (drop 1 path)) r)

  unfoldable pub get_device : List ℕ → Layer o.D → Option (Begin × List ℕ × Store o.D)
  get_device path l = device_at path (first_mark 0 path) l

  abbrev pub look_below : Begin × List ℕ × Store o.D → Option (Ret × List ℕ × Store o.D)
  look_below (stops e, path, s) = some (fails e, path, s)
  look_below (begins [] n, path, s) = some (ok n, path, s)
  look_below (begins (c ∷ cs) n, path, s) = assert (vop_op o op_lookup n s) (
      let (r, s') = o.vop_lookup n (c ∷ cs) s in
      inode_ref_dec o n s' >>= λ s''. some (r, path, s''))

  unfoldable pub vfs_lookup : List ℕ → Layer o.D → Option (Ret × List ℕ × Store o.D)
  vfs_lookup path l = get_device path l >>= look_below

  unfoldable pub vfs_lookup_parent : List ℕ → Layer o.D → Option (Begin × List ℕ × Store o.D)
  vfs_lookup_parent path l = get_device path l

  -- `s_isdir` tells a directory by its type.
  module _ (s_isdir : ℕ → Bool) where
    abbrev pub drop_old : ℕ → Layer o.D → Option (ℕ × Layer o.D)
    drop_old old l =
        if old == 0
        then some (0, l)
        else inode_ref_dec o old l.store >>= λ s. some (0, record l { store = s })

    abbrev pub enter_dir : Ret → ℕ → Layer o.D → Option (ℕ × Layer o.D)
    enter_dir (fails e) dir l = some (e, l)
    enter_dir (ok type) dir l =
        if not (s_isdir type)
        then some (e_notdir, l)
        else drop_old l.pwd (record l { pwd = dir; store = inode_ref_inc dir l.store })

    unfoldable pub vfs_set_curdir : ℕ → Layer o.D → Option (ℕ × Layer o.D)
    vfs_set_curdir dir l =
        if l.pwd == dir
        then some (0, l)
        else if dir == 0
        then drop_old l.pwd (record l { pwd = 0 })
        else assert (vop_op o op_gettype dir l.store) (enter_dir (o.vop_gettype dir l.store) dir l)

    abbrev pub chdir_to : Ret × List ℕ × Store o.D → Layer o.D → Option (ℕ × Layer o.D)
    chdir_to (fails e, path, s) l = some (e, record l { store = s })
    chdir_to (ok n, path, s) l = vfs_set_curdir n (record l { store = s }) >>= λ (ret, l').
        inode_ref_dec o n l'.store >>= λ s'. some (ret, record l' { store = s' })

    unfoldable pub vfs_chdir : List ℕ → Layer o.D → Option (ℕ × Layer o.D)
    vfs_chdir path l = vfs_lookup path l >>= λ r. chdir_to r l
