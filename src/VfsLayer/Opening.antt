-- ===== src/VfsLayer/Opening.antt =====
-- kern/fs/vfs/vfsfile.c: vfs_open and vfs_close. The local variable `node` is not set where nothing
-- was looked up or created: its content then is an argument.
use oscmp.Base.{
  ℕ, ◌/◌, ◌%◌, Bool, not, ◌&&◌, ◌||◌, Option, some, List, ◌==◌, if◌then◌else◌, assert, ◌>>=◌,
}
use oscmp.VfsLayer.Defs.{
  Store, Ret, ok, fails, Ops, op_open, op_truncate, op_create, vop_op, inode_open_inc,
  inode_open_dec, inode_ref_dec,
}
use oscmp.VfsLayer.Devices.{e_exists}
use oscmp.Files.{e_inval}
use oscmp.VfsLayer.Lookup.{Layer, e_noent, Begin, stops, begins, vfs_lookup, vfs_lookup_parent}

-- The bits of `open_flags`.
abbrev pub accmode : ℕ → ℕ
accmode flags = flags % 4

abbrev pub can_write : ℕ → Bool
can_write flags = not (accmode flags == 0)

abbrev pub o_creat : ℕ → Bool
o_creat flags = flags / 4 % 2 == 1

abbrev pub o_excl : ℕ → Bool
o_excl flags = flags / 8 % 2 == 1

abbrev pub o_trunc : ℕ → Bool
o_trunc flags = flags / 16 % 2 == 1

-- The flags that vfs_open accepts.
abbrev pub flags_ok : ℕ → Bool
flags_ok flags = not (accmode flags == 3) && not (o_trunc flags && not (can_write flags))

module _ (o : Ops) where
  abbrev pub after_truncate : ℕ → ℕ × Store o.D → Option (Ret × Store o.D)
  after_truncate node (ret, s) =
      if ret == 0
      then some (ok node, s)
      else inode_open_dec o node s >>= λ s'.
          inode_ref_dec o node s' >>= λ s''. some (fails ret, s'')

  abbrev pub after_open : ℕ → ℕ → ℕ × Store o.D → Option (Ret × Store o.D)
  after_open flags node (ret, s) =
      if not (ret == 0)
      then (inode_ref_dec o node s >>= λ s'. some (fails ret, s'))
      else (let s' = inode_open_inc node s in
          if o_trunc flags || o_creat flags
          then assert (vop_op o op_truncate node s')
              (after_truncate node (o.vop_truncate node 0 s'))
          else some (ok node, s'))

  -- From `assert(node != NULL)` on.
  unfoldable pub open_node : ℕ → ℕ → Store o.D → Option (Ret × Store o.D)
  open_node flags node s =
      assert (not (node == 0))
        (assert (vop_op o op_open node s) (after_open flags node (o.vop_open node flags s)))

  abbrev pub open_created : ℕ → ℕ → Ret × Store o.D → Option (Ret × Store o.D)
  open_created flags junk (ok node, s) = open_node flags node s
  open_created flags junk (fails e, s) = open_node flags junk s

  abbrev pub create_in : ℕ → ℕ → Begin × List ℕ × Store o.D → Option (Ret × Store o.D)
  create_in flags junk (stops e, path, s) = some (fails e, s)
  create_in flags junk (begins name dir, path, s) =
      assert (vop_op o op_create dir s)
        (open_created flags junk (o.vop_create dir name (o_excl flags) s))

  -- What follows vfs_lookup, with the path as it has left it.
  abbrev pub open_found : ℕ → ℕ → Layer o.D → Ret × List ℕ × Store o.D → Option (Ret × Store o.D)
  open_found flags junk l (ok node, path, s) =
      if o_excl flags && o_creat flags then some (fails e_exists, s) else open_node flags node s
  open_found flags junk l (fails e, path, s) =
      if e == e_noent && o_creat flags
      then vfs_lookup_parent o path (record l { store = s }) >>= create_in flags junk
      else some (fails e, s)

  unfoldable pub vfs_open : ℕ → List ℕ → ℕ → Layer o.D → Option (Ret × Store o.D)
  vfs_open junk path flags l =
      if flags_ok flags
      then vfs_lookup o path l >>= open_found flags junk l
      else some (fails e_inval, l.store)

  unfoldable pub vfs_close : ℕ → Store o.D → Option (Store o.D)
  vfs_close node s = inode_open_dec o node s >>= λ s'. inode_ref_dec o node s'
