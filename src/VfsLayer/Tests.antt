-- ===== src/VfsLayer/Tests.antt =====
-- A device with a file system that has one file, `a`.
use oscmp.Base.{
  ℕ, ◌+◌, ◌==◌, ◌≡◌, refl, inl, inr, Bool, true, false, Option, none, some, List, [], ◌∷◌, ◌++◌,
  if◌then◌else◌, arith, Bool-cases, get_elem?,
}
use oscmp.VfsLayer.Defs.{
  Store, Ret, ok, fails, Vop, op_create, Ops, with_node, vop_op, inode_check, inode_ref_inc,
  inode_ref_dec,
}
use oscmp.VfsLayer.Devices.{
  Vdev, same_name, vfs_do_add, check_devname_conflict, vfs_get_root, e_exists,
}
use oscmp.Files.{e_busy}
use oscmp.VfsLayer.Mounts.{find_mount, vfs_mount, vfs_unmount, sync_unmount}
use oscmp.VfsLayer.Lookup.{Layer, colon, get_device, vfs_lookup, first_mark, skip_slashes}
use oscmp.VfsLayer.Opening.{vfs_open}
use oscmp.VfsLayer.Names.{Added, vfs_do_add-Added}
use oscmp.VfsLayer.Mounting.{mount-unmount}
use oscmp.VfsLayer.Parsing.{Plain, Reads, get_device-Reads}
use oscmp.VfsLayer.References.{refs, Balanced, Kept, Counting, Lasting, Stands, refs-ref_inc}
use oscmp.VfsLayer.Balance.{vfs_lookup-Balanced, vfs_open-leak}

abbrev St : Type 0
St = Store (Unit {0})

-- The file `a` is inode 5, and the root of file system n is inode n + 10.
abbrev look : List ℕ → St → Ret × St
look path s = if same_name path (b'a' ∷ []) then (ok 5, inode_ref_inc 5 s) else (fails 16, s)

-- Inode n with one reference more and the table of operations at 4.
abbrev given : ℕ → St → St
given n s = with_node n (record (s.nodes n) { ref_count = refs s n + 1; in_ops = 4 }) s

-- The table has all operations but vop_create.
abbrev has : Vop → ℕ → Bool
has op_create t = false
has _ t = t == 4

abbrev ops : Ops
ops = record {
  D = Unit {0};
  defines = has;
  vop_reclaim = λ n s. s;
  vop_close = λ n s. s;
  vop_open = λ n flags s. (0, s);
  vop_truncate = λ n size s. (0, s);
  vop_gettype = λ n s. ok 2;
  vop_lookup = λ n path s. look path s;
  vop_create = λ n path excl s. (ok 6, inode_ref_inc 6 s);
  fsop_get_root = λ fs s. (fs + 10, given (fs + 10) s);
  fsop_sync = λ fs s. (0, s);
  fsop_unmount = λ fs s. (0, s);
  fsop_cleanup = λ fs s. s;
}

look-Balanced : (path : List ℕ) (s : St) → Balanced (look path s).0 s (look path s).1
look-Balanced path s = elim (Bool-cases (same_name path (b'a' ∷ []))) [
  | inl e ↦ rw e (ground arith, λ m. refs-ref_inc 5 m s)
  | inr e ↦ rw e (λ m. refl)
]

look-Kept : (path : List ℕ) (s : St) → Kept ops s (look path s).1
unfolding inode_ref_inc
look-Kept path s m = elim (Bool-cases (same_name path (b'a' ∷ []))) [
  | inl e ↦ rw e (ground arith, λ q. ground (arith, q))
  | inr e ↦ rw e (refl, λ q. q)
]

ops-Counting : Counting ops
ops-Counting = record {
  root = λ fs s. (ground arith, λ m. ground arith);
  lookup = λ n path s. look-Balanced path s;
  reclaim = λ n s m. refl;
}

ops-Lasting : Lasting ops
ops-Lasting = record {
  root = λ fs s m. (ground arith, λ q. ground (arith, q));
  root_ready = λ fs s. ground arith;
  lookup = λ n path s. look-Kept path s;
}

abbrev disk : List ℕ
disk = b'd' ∷ b'0' ∷ []

abbrev device : ℕ → Vdev
device fs = record { devname = disk; devnode = 3; fs = fs; mountable = true }

abbrev store : St
store = record {
  nodes = λ n. record { ref_count = 1; open_count = 0; in_ops = 4; in_fs = 1 };
  drivers = tt;
}

abbrev layer : Layer (Unit {0})
layer = record { pwd = 11; bootfs_node = 11; vdev_list = device 1 ∷ []; store = store }

layer-Stands : Stands ops layer
layer-Stands = record {
  usable = (λ e. ground arith, tt);
  in_fs = λ e. refl;
  pwd_ready = λ e. refl;
  pwd_held = λ e. omega arith;
  boot_ready = λ e. refl;
  open_few = λ m. omega arith;
  room = λ m. omega arith;
}

abbrev second : Vdev
second = record { devname = b'e' ∷ []; devnode = 3; fs = 1; mountable = true }

vfs_do_add-Added_example : Added true true second (device 1 ∷ []) (0, second ∷ device 1 ∷ [])
unfolding vfs_do_add check_devname_conflict
vfs_do_add-Added_example =
    vfs_do_add-Added true true (λ n. true) (b'e' ∷ []) 3 1 true (device 1 ∷ [])
      (0, second ∷ device 1 ∷ []) (tt, tt) refl

mount-unmount_example :
    (i : ℕ) × (v : Vdev) × (find_mount disk (device 0 ∷ []) ≡ some i)
    × (get_elem? (device 7 ∷ []) i ≡ some v)
    × ((t : St)
        → vfs_mount ops (λ n s. (0, 8, s)) disk (device 7 ∷ []) t ≡ some (e_busy, device 7 ∷ [], t))
    × ((t u : St)
        → sync_unmount ops v.fs t ≡ (0, u)
        → vfs_unmount ops disk (device 7 ∷ []) t ≡ some (0, device 0 ∷ [], u))
unfolding vfs_mount find_mount
mount-unmount_example =
    mount-unmount ops (λ n s. (0, 7, s)) (λ n s. (0, 8, s)) disk (device 0 ∷ []) (device 7 ∷ [])
      store store refl

get_device-Reads_example :
    (name : List ℕ) × (tail : List ℕ) × Plain name
    × (disk ++ (colon ∷ b'a' ∷ []) ≡ name ++ tail)
    × Reads ops layer (disk ++ (colon ∷ b'a' ∷ [])) name tail
get_device-Reads_example = get_device-Reads ops layer (disk ++ (colon ∷ b'a' ∷ []))

vfs_lookup-Balanced_example :
    (r : Ret) × (path' : List ℕ) × (s : St) × (vfs_lookup ops (disk ++ (colon ∷ b'a' ∷ [])) layer
      ≡ some (r, path', s))
    × Balanced r layer.store s
vfs_lookup-Balanced_example =
    vfs_lookup-Balanced ops ops-Counting ops-Lasting layer layer-Stands
      (disk ++ (colon ∷ b'a' ∷ []))

-- The store after a lookup, if it gives one.
abbrev after : Option (Ret × List ℕ × St) → St
after none = store
after (some (r, path, s)) = s

abbrev there : List ℕ
there = disk ++ (colon ∷ b'a' ∷ [])

abbrev missing : List ℕ
missing = disk ++ (colon ∷ b'b' ∷ [])

-- `d0:a` is opened with O_RDWR, O_CREAT and O_EXCL, and `d0:b` with O_RDWR and O_CREAT.
vfs_open-leak_example :
    (vfs_open ops 0 there 14 layer ≡ some (fails e_exists, after (vfs_lookup ops there layer)))
    × (refs (after (vfs_lookup ops there layer)) 5 ≡ 2)
unfolding vfs_lookup get_device first_mark skip_slashes vfs_get_root inode_ref_inc inode_ref_dec
    vop_op inode_check
vfs_open-leak_example =
    vfs_open-leak ops layer 0 14 there disk 5 (after (vfs_lookup ops there layer)) ops-Counting
      (λ e. ground arith, tt) refl refl refl
