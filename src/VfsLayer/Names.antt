-- ===== src/VfsLayer/Names.antt =====
-- The names on the device list of kern/fs/vfs/vfsdev.c.
use oscmp.Base.{
  ℕ, ◌≤◌, ◌≡◌, ◌≢◌, ◌↔◌, refl, inl, inr, Bool, true, some, List, [], ◌∷◌, length, arith, Bool-cases,
}
use oscmp.VfsLayer.Devices.{Vdev, fs_max_dname_len, same_name, check_devname_conflict, vfs_do_add}

pub same_name_iff : (xs ys : List ℕ) → (same_name xs ys ≡ true) ↔ (xs ≡ ys)
same_name_iff [] [] = (λ _. refl, λ _. refl)
same_name_iff [] (y ∷ ys) = (λ e. ground arith, λ e. ground arith)
same_name_iff (x ∷ xs) [] = (λ e. ground arith, λ e. ground arith)
same_name_iff (x ∷ xs) (y ∷ ys) =
    let (f, g) = same_name_iff xs ys in (λ e. ground (arith, f), λ e. ground (arith, g))

-- No device of the list has the name.
abbrev pub Unused : List ℕ → List Vdev → Type 0
Unused name [] = Unit
Unused name (v ∷ vs) = (v.devname ≢ name) × Unused name vs

-- No two devices of the list have one name.
abbrev pub Names : List Vdev → Type 0
Names [] = Unit
Names (v ∷ vs) = Unused v.devname vs × Names vs

pub check_devname_conflict_sound :
    (name : List ℕ) (vs : List Vdev) → check_devname_conflict name vs ≡ true → Unused name vs
unfolding check_devname_conflict
check_devname_conflict_sound name [] e = tt
check_devname_conflict_sound name (v ∷ vs) e = (
  ground (arith, same_name_iff v.devname name),
  check_devname_conflict_sound name vs (ground (arith, e)),
)

pub check_devname_conflict_complete :
    (name : List ℕ) (vs : List Vdev) → Unused name vs → check_devname_conflict name vs ≡ true
unfolding check_devname_conflict
check_devname_conflict_complete name [] u = refl
check_devname_conflict_complete name (v ∷ vs) u =
    ground (arith, same_name_iff v.devname name, check_devname_conflict_complete name vs u.1)

-- What vfs_do_add has to come to, by what it is called with.
abbrev pub Added : Bool → Bool → Vdev → List Vdev → ℕ × List Vdev → Type 0
Added dup_ok entry_ok v vs (ret, vs') =
    Names vs'
    × ((ret ≡ 0) ↔ (
        (length v.devname ≤ fs_max_dname_len)
        × (dup_ok ≡ true)
        × (entry_ok ≡ true)
        × Unused v.devname vs))
    × (ret ≡ 0 → vs' ≡ v ∷ vs)
    × (ret ≢ 0 → vs' ≡ vs)

-- If the names on the device list differ and vfs_do_add passes its assertions, then the names differ
-- afterwards; the result is 0 exactly when the name has at most 31 characters, there is memory for
-- the copy of the name and for the entry, and no device has the name. Then the device with its name,
-- inode, file system and kind is in front of the list; otherwise the list stays.
pub vfs_do_add-Added :
    (dup_ok entry_ok : Bool) (is_device : ℕ → Bool) (name : List ℕ) (devnode fs : ℕ)
    (mountable : Bool) (vs : List Vdev) (r : ℕ × List Vdev)
    → Names vs
    → vfs_do_add dup_ok entry_ok is_device name devnode fs mountable vs ≡ some r
    → Added dup_ok entry_ok
        (record { devname = name; devnode = devnode; fs = fs; mountable = mountable })
        vs
        r
unfolding vfs_do_add
vfs_do_add-Added dup_ok entry_ok is_device name devnode fs mountable vs (ret, vs') h e =
    elim (Bool-cases (check_devname_conflict name vs)) [
      | inl free ↦
          let u = check_devname_conflict_sound name vs free in
          (
            ground (arith, e, free),
            (
              λ z. (
                ground (arith, e, free, z),
                ground (arith, e, free, z),
                ground (arith, e, free, z),
                u,
              ),
              λ p. ground (arith, e, free),
            ),
            λ z. ground (arith, e, free, z),
            λ z. ground (arith, e, free),
          )
      | inr taken ↦
          let n = λ (u : Unused name vs). check_devname_conflict_complete name vs u in
          (
            ground (arith, e, taken),
            (λ z. absurd (ground (arith, e, taken, z)), λ p. absurd (ground (arith, n p.3, taken))),
            λ z. absurd (ground (arith, e, taken, z)),
            λ z. ground (arith, e, taken),
          )
    ]
