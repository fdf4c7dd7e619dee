-- ===== src/Sfs/Load.antt =====
-- `sfs_bmap_load_nolock` of kern/fs/sfs/sfs_inode.c for a block that the file has.
use oscmp.Base.{
  ℕ, ◌-◌, ◌<◌, ◌≤◌, ◌≡◌, refl, ap, ◌⊎◌, inl, inr, true, false, ◌&&◌, some, ltb, leb, ◌==◌,
  get_elem?, arith,
}
use oscmp.Bitmap.{bitmap_test}
use oscmp.Sfs.Disk.{Sfs, on_disk}
use oscmp.Sfs.Blocks.{
  disk_entry, sfs_block_inuse, sfs_bmap_get_nolock, sfs_bmap_get_sub_nolock, sfs_bmap_load_nolock,
}

-- Where the number of block `k` stands.
abbrev pub Direct : Sfs → ℕ → ℕ → Type 0
Direct s k ino = (k < 12) × (get_elem? s.direct k ≡ some ino)

abbrev pub Indirect : Sfs → ℕ → ℕ → Type 0
Indirect s k ino =
    (12 ≤ k)
    × (k < 1036)
    × (on_disk s s.indirect ≡ true)
    × (disk_entry (s.disk s.indirect) (k - 12) ≡ ino)

-- Block `k` of the file is block `ino` of the disk, and in use.
pub record Placed (s : Sfs) (k ino : ℕ) : Type 0 where
  pub inside : k < s.blocks
  pub held : Direct s k ino ⊎ Indirect s k ino
  pub valid : on_disk s ino ≡ true
  pub used : bitmap_test s.freemap ino ≡ some false

in_use :
    (s : Sfs) (ino : ℕ)
    → on_disk s ino ≡ true
    → bitmap_test s.freemap ino ≡ some false
    → sfs_block_inuse s ino ≡ some true
unfolding sfs_block_inuse
in_use s ino v u = rw (v, u) refl

get-Placed :
    (s : Sfs) (k ino : ℕ)
    → Placed s k ino
    → (e : ℕ) × (sfs_bmap_get_nolock k false s
        ≡ some (record { ret = 0; ent = e; ino = ino; fs = s }))
unfolding sfs_bmap_get_nolock sfs_bmap_get_sub_nolock
get-Placed s k ino p =
    let some_block : (ino == 0) ≡ false = ground (arith, p.valid) in
    let used = in_use s ino p.valid p.used in
    elim p.held [
      | inl (low, d) ↦
          let l : ltb k 12 ≡ true = ground (arith, low) in
          (0, rw (l, d) (rw (ap (λ b. b && false) some_block) (rw (some_block, used) refl)))
      | inr (high, below, v, e) ↦
          let l : ltb k 12 ≡ false = ground (arith, high) in
          let i : ltb (k - 12) 1024 ≡ true = ground (arith, below) in
          let z : (s.indirect == 0) ≡ false = ground (arith, v) in
          let same : (s.indirect == s.indirect) ≡ true = ground arith in
          (s.indirect, rw (l, i, v, z, e) (rw some_block (rw same (rw (some_block, used) refl))))
    ]

-- The block is found, and the state is as before.
pub sfs_bmap_load_nolock-Placed :
    (s : Sfs) (k ino : ℕ)
    → Placed s k ino
    → (e : ℕ) × (sfs_bmap_load_nolock k s ≡ some (record { ret = 0; ent = e; ino = ino; fs = s }))
unfolding sfs_bmap_load_nolock
sfs_bmap_load_nolock-Placed s k ino p =
    let old : (k == s.blocks) ≡ false = ground (arith, p.inside) in
    let inside : leb k s.blocks ≡ true = ground (arith, p.inside) in
    let (e, g) = get-Placed s k ino p in
    let used = in_use s ino p.valid p.used in (e, rw (inside, old, g) (rw used refl))
