-- ===== src/VfsLayer/Defs.antt =====
-- kern/fs/vfs/inode.c: inodes and their counts, and the operations of the file systems below.
-- NULL is address 0, and a failed assertion is `none`.
use oscmp.Base.{
  ℕ, ◌+◌, ◌-◌, Bool, not, ◌&&◌, Option, some, List, ltb, leb, ◌==◌, if◌then◌else◌, assert, update,
}

-- What `struct inode` has in every file system.
pub record Node : Type 0 where
  pub ref_count : ℕ
  pub open_count : ℕ
  pub in_ops : ℕ
  pub in_fs : ℕ

-- The inodes, and all that the file systems keep for themselves.
pub record Store (D : Type 0) : Type 0 where
  pub nodes : ℕ → Node
  pub drivers : D

-- A call gives 0 and a value, or a negated error number.
pub data Ret : Type 0 where
  ok : ℕ → Ret
  fails : ℕ → Ret

-- The operations of `struct inode_ops` that are called here.
pub data Vop : Type 0 where
  op_reclaim op_close op_open op_truncate op_gettype op_lookup op_create : Vop

-- The operations that C calls through the pointers of an inode or of a file system. `defines op t`
-- tells whether a table of operations, with its magic number, stands at the address `t`, and has a
-- pointer to `op` that is not NULL.
pub record Ops : Type 1 where
  pub D : Type 0
  pub defines : Vop → ℕ → Bool
  pub vop_reclaim : ℕ → Store D → Store D
  pub vop_close : ℕ → Store D → Store D
  pub vop_open : ℕ → ℕ → Store D → ℕ × Store D
  pub vop_truncate : ℕ → ℕ → Store D → ℕ × Store D
  pub vop_gettype : ℕ → Store D → Ret
  pub vop_lookup : ℕ → List ℕ → Store D → Ret × Store D
  pub vop_create : ℕ → List ℕ → Bool → Store D → Ret × Store D
  pub fsop_get_root : ℕ → Store D → ℕ × Store D
  pub fsop_sync : ℕ → Store D → ℕ × Store D
  pub fsop_unmount : ℕ → Store D → ℕ × Store D
  pub fsop_cleanup : ℕ → Store D → Store D

abbrev pub max_inode_count : ℕ
max_inode_count = 0x10000

module _ {D : Type 0} where
  abbrev pub with_node : ℕ → Node → Store D → Store D
  with_node n x s = record s { nodes = update s.nodes n x }

  unfoldable pub inode_ref_inc : ℕ → Store D → Store D
  inode_ref_inc n s = with_node n (record (s.nodes n) { ref_count = (s.nodes n).ref_count + 1 }) s

  unfoldable pub inode_open_inc : ℕ → Store D → Store D
  inode_open_inc n s =
      with_node n (record (s.nodes n) { open_count = (s.nodes n).open_count + 1 }) s

  unfoldable pub inode_init : ℕ → ℕ → ℕ → Store D → Store D
  inode_init n ops fs s =
      inode_ref_inc n
        (with_node n (record { ref_count = 0; open_count = 0; in_ops = ops; in_fs = fs }) s)

  -- The assertions of inode_kill; the memory of the inode is given back then.
  unfoldable pub inode_kill : ℕ → Store D → Option (Store D)
  inode_kill n s =
      assert ((s.nodes n).ref_count == 0) (assert ((s.nodes n).open_count == 0) (some s))

  -- The counts that inode_check wants of an inode.
  unfoldable pub inode_check : ℕ → Store D → Bool
  inode_check n s =
      not (n == 0)
      && leb (s.nodes n).open_count (s.nodes n).ref_count
      && ltb (s.nodes n).ref_count max_inode_count
      && ltb (s.nodes n).open_count max_inode_count

module _ (o : Ops) where
  -- The assertions of `__vop_op`, in front of each operation.
  unfoldable pub vop_op : Vop → ℕ → Store o.D → Bool
  vop_op op n s =
      not ((s.nodes n).in_ops == 0) && o.defines op (s.nodes n).in_ops && inode_check n s

  unfoldable pub inode_ref_dec : ℕ → Store o.D → Option (Store o.D)
  inode_ref_dec n s = assert (ltb 0 (s.nodes n).ref_count) (
      let s' = with_node n (record (s.nodes n) { ref_count = (s.nodes n).ref_count - 1 }) s in
      if (s.nodes n).ref_count - 1 == 0
      then assert (vop_op op_reclaim n s') (some (o.vop_reclaim n s'))
      else some s')

  unfoldable pub inode_open_dec : ℕ → Store o.D → Option (Store o.D)
  inode_open_dec n s = assert (ltb 0 (s.nodes n).open_count) (
      let s' = with_node n (record (s.nodes n) { open_count = (s.nodes n).open_count - 1 }) s in
      if (s.nodes n).open_count - 1 == 0
      then assert (vop_op op_close n s') (some (o.vop_close n s'))
      else some s')
