-- ===== src/Files/Slots.antt =====
-- The entries of the table of kern/fs/file.c and their reference counts.
use oscmp.Base.{
  ℕ, zero, suc, ◌+◌, ◌-◌, ◌≡◌, ◌<◌, refl, sym, ◌∙◌, ap, true, false, none, some, List, [], ◌∷◌,
  ◌==◌, ltb, if◌then◌else◌, get_elem?, set, get_elem?-set_ne, pos, arith, Bool-cases, inl, inr, ◌⊎◌,
}
use oscmp.Files.{
  Status, fd_none, fd_init, fd_opened, fd_closed, is_none, File, ok, Vfs, Files, first_free,
  fd_array_init, fd2file, entry_at, drop_count, fd_array_free, fd_array_close, file_close,
}

-- An entry is counted exactly while its file is open or closing.
abbrev pub Counted : Status → ℕ → Type 0
Counted fd_none n = n ≡ 0
Counted fd_init n = n ≡ 0
Counted fd_opened n = 0 < n
Counted fd_closed n = 0 < n

pub record Slot (i : ℕ) (f : File) : Type 0 where
  pub numbered : f.fd ≡ i
  pub counted : Counted f.status f.open_count

abbrev pub IsValid : List File → Type 0
IsValid a = (i : ℕ) (f : File) → get_elem? a i ≡ some f → Slot i f

-- A write to an entry that is there is read back.
pub get_elem?-set :
    (a : List File) (i : ℕ) (f g : File) → get_elem? a i ≡ some f → get_elem? (set a i g) i ≡ some g
get_elem?-set [] i f g e = grind (arith, e)
get_elem?-set (x ∷ a) zero f g e = refl
get_elem?-set (x ∷ a) (suc i) f g e = get_elem?-set a i f g e

pub set-set : (a : List File) (i : ℕ) (f g : File) → set (set a i f) i g ≡ set a i g
set-set [] i f g = refl
set-set (x ∷ a) zero f g = refl
set-set (x ∷ a) (suc i) f g = ap (λ r. x ∷ r) (set-set a i f g)

pub some_inj : {f g : File} → some f ≡ some g → f ≡ g
some_inj e = grind (arith, e)

-- Writing a valid entry keeps the table valid.
pub set-IsValid :
    (a : List File) (i : ℕ) (f g : File)
    → IsValid a
    → get_elem? a i ≡ some f
    → Slot i g
    → IsValid (set a i g)
set-IsValid a i f g v e s j h p = elim (Bool-cases (i == j)) [
  | inl q ↦
      let ij : i ≡ j = ground (arith, q) in
      let gh : g ≡ h =
        some_inj (sym (get_elem?-set a i f g e) ∙ ap (get_elem? (set a i g)) ij ∙ p) in
      rw (sym ij, sym gh) s
  | inr q ↦ v j h (sym (get_elem?-set_ne a i j g (ground (arith, q))) ∙ p)
]

pub opened-Counted : (s : Status) (n : ℕ) → s ≡ fd_opened → Counted s n → 0 < n
opened-Counted fd_opened n e c = c
opened-Counted fd_none n e c = grind (arith, e)
opened-Counted fd_init n e c = grind (arith, e)
opened-Counted fd_closed n e c = c

-- `fd_array_init` makes every table valid, with all entries free and as many as before.
pub fd_array_init-IsValid :
    (k : ℕ) (a : List File) (i : ℕ) (f : File)
    → get_elem? (fd_array_init k a) i ≡ some f
    → (f.status ≡ fd_none) × (f.open_count ≡ 0) × (f.fd ≡ k + i)
unfolding fd_array_init
fd_array_init-IsValid k [] i f e = grind (arith, e)
fd_array_init-IsValid k (x ∷ a) zero f e = rw (sym (some_inj e)) (refl, refl, omega arith)
fd_array_init-IsValid k (x ∷ a) (suc i) f e =
    let (p, q, r) = fd_array_init-IsValid (k + 1) a i f e in (p, q, omega (arith, r))

-- Entry `i` is there and holds no file.
abbrev pub IsFree : ℕ → List File → Type 0
IsFree i a = (f : File) × (get_elem? a i ≡ some f) × (f.status ≡ fd_none)

-- The search finds the lowest free entry, or there is none.
pub first_free_lem :
    (k : ℕ) (a : List File)
    → ((i : ℕ) × (f : File) × (first_free k a ≡ some (k + i))
        × (get_elem? a i ≡ some f)
        × (f.status ≡ fd_none)
        × ((j : ℕ) (g : File) → j < i → get_elem? a j ≡ some g → is_none g.status ≡ false))
      ⊎ ((first_free k a ≡ none)
          × ((j : ℕ) (g : File) → get_elem? a j ≡ some g → is_none g.status ≡ false))
unfolding first_free
first_free_lem k [] = inr (refl, λ j g e. grind (arith, e))
first_free_lem k (f ∷ a) = elim (Bool-cases (is_none f.status)) [
  | inl z ↦ inl (0, f, ground arith, refl, ground arith, λ j g lt. absurd (omega arith))
  | inr z ↦ elim (first_free_lem (k + 1) a) [
    | inl (i, g, p, q, r, least) ↦ inl (suc i, g, ground arith, q, r, lower z i least)
    | inr (p, all) ↦ inr (ground arith, higher z all)
  ]
]
  where
    lower :
        is_none f.status ≡ false
        → (i : ℕ) → ((j : ℕ) (g : File) → j < i → get_elem? a j ≡ some g → is_none g.status ≡ false)
        → (j : ℕ) (g : File) → j < suc i
        → get_elem? (f ∷ a) j ≡ some g
        → is_none g.status ≡ false
    lower z i least zero g lt e = rw (sym (some_inj e)) z
    lower z i least (suc j) g lt e = least j g (omega arith) e

    higher :
        is_none f.status ≡ false
        → ((j : ℕ) (g : File) → get_elem? a j ≡ some g → is_none g.status ≡ false)
        → (j : ℕ) (g : File) → get_elem? (f ∷ a) j ≡ some g
        → is_none g.status ≡ false
    higher z all zero g e = rw (sym (some_inj e)) z
    higher z all (suc j) g e = all j g e

module _ (v : Vfs) where
  open v use {Fs, vfs_close}

  -- What is left of the table when the last reference to entry `i`, which is `f`, is closed, or
  -- another one is; `u` is what vfs_close makes of the file system.
  abbrev pub closed : ℕ → File → Fs → Files v → Files v
  closed i f u t =
      if f.open_count == 1
      then record {
        fd_array = set t.fd_array i (record f { status = fd_none; open_count = 0 });
        fs = u;
      }
      else record t {
        fd_array =
            set t.fd_array i (record f { status = fd_closed; open_count = f.open_count - 1 });
      }

  -- On a valid table, closing the open entry `i` succeeds if vfs_close of its inode does: the last reference makes the entry free
  -- and closes its inode once, an earlier one counts down and leaves the inode; the table stays
  -- valid, and no other entry changes.
  pub file_close-closed :
      (t : Files v) (i : ℕ) (f : File) (u : Fs)
      → IsValid t.fd_array
      → get_elem? t.fd_array i ≡ some f
      → f.status ≡ fd_opened
      → vfs_close f.node t.fs ≡ some u
      → (file_close v (pos i) t ≡ some (ok 0, closed i f u t)) × IsValid (closed i f u t).fd_array
  unfolding file_close fd_array_close drop_count fd_array_free fd2file entry_at
  file_close-closed t i f u val e o q =
      let s = val i f e in
      let num : (f.fd == i) ≡ true = ground (arith, s.numbered) in
      let live : 0 < f.open_count = opened-Counted f.status f.open_count o s.counted in
      let lt : ltb 0 f.open_count ≡ true = ground (arith, live) in
      let back : (g : File) → get_elem? (set t.fd_array i g) i ≡ some g =
        λ g. get_elem?-set t.fd_array i f g e in
      elim (Bool-cases (f.open_count == 1)) [
        | inl z ↦
            let y : (f.open_count - 1 == 0) ≡ true = ground (arith, z) in
            let y' : f.open_count - 1 ≡ 0 = ground (arith, z) in
            (
              rw (e, o, num, e, o, lt, y, z, back, q, set-set, y') refl,
              rw z (
                  set-IsValid t.fd_array i f (record f { status = fd_none; open_count = 0 }) val e
                    (record { numbered = s.numbered; counted = refl })),
            )
        | inr z ↦
            let y : (f.open_count - 1 == 0) ≡ false = ground (arith, z, live) in
            (
              rw (e, o, num, e, o, lt, y, z) refl,
              rw z (
                  set-IsValid t.fd_array i f
                    (record f { status = fd_closed; open_count = f.open_count - 1 }) val e
                    (record { numbered = s.numbered; counted = ground (arith, z, live) })),
            )
      ]
