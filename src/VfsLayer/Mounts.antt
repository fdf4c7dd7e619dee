-- ===== src/VfsLayer/Mounts.antt =====
-- kern/fs/vfs/vfsdev.c: mounting file systems on the devices of the list. An entry is found as its
-- position in the list.
use oscmp.Base.{
  ℕ, suc, not, ◌&&◌, Option, none, some, List, [], ◌∷◌, ◌==◌, if◌then◌else◌, assert, ◌>>=◌,
  get_elem?, set,
}
use oscmp.Files.{e_busy, e_inval}
use oscmp.VfsLayer.Defs.{Store, Ops}
use oscmp.VfsLayer.Devices.{Vdev, e_no_dev, same_name}

unfoldable pub find_mount : List ℕ → List Vdev → Option ℕ
find_mount name [] = none
find_mount name (v ∷ vs) =
    let rest = find_mount name vs >>= λ i. some (suc i) in
    if v.mountable && same_name v.devname name then some 0 else rest

abbrev pub with_fs : List Vdev → ℕ → Vdev → ℕ → List Vdev
with_fs vs i v fs = set vs i (record v { fs = fs })

module _ (o : Ops) where
  -- `mountfunc` gives an error number, what it stores in the field `fs`, and the store.
  module _ (mountfunc : ℕ → Store o.D → ℕ × ℕ × Store o.D) where
    abbrev pub mount_on : Vdev → ℕ → List Vdev → Store o.D → Option (ℕ × List Vdev × Store o.D)
    mount_on v i vs s =
        if not (v.fs == 0)
        then some (e_busy, vs, s)
        else (let (ret, fs, s') = mountfunc v.devnode s in
            if ret == 0
            then assert (not (fs == 0)) (some (ret, with_fs vs i v fs, s'))
            else some (ret, with_fs vs i v fs, s'))

    abbrev pub mount_found : Option ℕ → List Vdev → Store o.D → Option (ℕ × List Vdev × Store o.D)
    mount_found none vs s = some (e_no_dev, vs, s)
    mount_found (some i) vs s = get_elem? vs i >>= λ v. mount_on v i vs s

    unfoldable pub vfs_mount : List ℕ → List Vdev → Store o.D → Option (ℕ × List Vdev × Store o.D)
    vfs_mount name vs s = mount_found (find_mount name vs) vs s

  -- `fsop_sync`, and then `fsop_unmount` if that went well.
  abbrev pub sync_unmount : ℕ → Store o.D → ℕ × Store o.D
  sync_unmount fs s =
      let (ret, s') = o.fsop_sync fs s in if not (ret == 0) then (ret, s') else o.fsop_unmount fs s'

  abbrev pub unmount_on : Vdev → ℕ → List Vdev → Store o.D → Option (ℕ × List Vdev × Store o.D)
  unmount_on v i vs s =
      if v.fs == 0
      then some (e_inval, vs, s)
      else (let (ret, s') = sync_unmount v.fs s in
          some (ret, if ret == 0 then with_fs vs i v 0 else vs, s'))

  abbrev pub unmount_found : Option ℕ → List Vdev → Store o.D → Option (ℕ × List Vdev × Store o.D)
  unmount_found none vs s = some (e_no_dev, vs, s)
  unmount_found (some i) vs s = get_elem? vs i >>= λ v. unmount_on v i vs s

  unfoldable pub vfs_unmount : List ℕ → List Vdev → Store o.D → Option (ℕ × List Vdev × Store o.D)
  vfs_unmount name vs s = unmount_found (find_mount name vs) vs s

  -- One round of the loop of vfs_unmount_all; an error is printed, and the entry stays.
  abbrev pub unmount_entry : Vdev → Store o.D → Vdev × Store o.D
  unmount_entry v s =
      if v.mountable && not (v.fs == 0)
      then (let (ret, s') = sync_unmount v.fs s in
          (if ret == 0 then record v { fs = 0 } else v, s'))
      else (v, s)

  unfoldable pub vfs_unmount_all : List Vdev → Store o.D → List Vdev × Store o.D
  vfs_unmount_all [] s = ([], s)
  vfs_unmount_all (v ∷ vs) s =
      let (v', s') = unmount_entry v s in let (vs', s'') = vfs_unmount_all vs s' in (v' ∷ vs', s'')
