-- ===== src/Files/Opening.antt =====
-- What `file_open` of kern/fs/file.c does to the table.
use oscmp.Base.{
  ℕ, ◌+◌, ◌≡◌, ◌≢◌, ◌<◌, refl, sym, ◌∙◌, Bool, true, false, Option, none, some, List, ◌==◌,
  get_elem?, set, get_elem?-set_ne, arith, Bool-cases, inl, inr, ◌⊎◌,
}
use oscmp.Files.Defs.{
  Status, fd_none, fd_init, fd_opened, is_none, File, Ret, ok, err, e_inval, e_max_open, Vfs, Files,
  claim, fd_array_alloc, fd_array_free, fd_array_open,
}
use oscmp.Files.Ops.{
  access, appends, open_file, give_back, open_end, open_at, opened, open_with, file_open,
}
use oscmp.Files.Slots.{
  IsValid, IsFree, Counted, get_elem?-set, set-set, set-IsValid, first_free_lem,
}

-- Entry `j` is as it was, or free as it was.
abbrev pub Same : ℕ → List File → List File → Type 0
Same j a a' = (get_elem? a' j ≡ get_elem? a j) ⊎ (IsFree j a × IsFree j a')

-- All entries below `i` are in use.
abbrev pub Lowest : ℕ → List File → Type 0
Lowest i a = (j : ℕ) (g : File) → j < i → get_elem? a j ≡ some g → is_none g.status ≡ false

-- The entry that a successful call hands out.
pub record Granted (flags i : ℕ) (a a' : List File) : Type 0 where
  pub entry : File
  pub was_free : IsFree i a
  pub lowest : Lowest i a
  pub there : get_elem? a' i ≡ some entry
  pub status : entry.status ≡ fd_opened
  pub once : entry.open_count ≡ 1
  pub rights : access flags ≡ some (entry.readable, entry.writable)
  pub inode : entry.node ≢ 0
  pub others : (j : ℕ) → i ≢ j → get_elem? a' j ≡ get_elem? a j

abbrev pub Outcome : ℕ → List File → Ret → List File → Type 0
Outcome flags a (ok i) a' = Granted flags i a a'
Outcome flags a (err e) a' = (j : ℕ) → Same j a a'

module _ (v : Vfs) where
  open v use {Fs, vfs_open, vop_fstat, vfs_close}

  -- What vfs_open gives: an inode on which vop_fstat and then vfs_close fail no assertion.
  abbrev pub Given : ℕ → Fs → Type 0
  Given node s =
      (node ≢ 0)
      × ((st : ℕ × ℕ × Fs) × (vop_fstat node s ≡ some st)
          × ((u : Fs) × (vfs_close node st.2 ≡ some u)))

  give_back_lem :
      (a : List File) (s : Fs) (i e : ℕ) (f : File)
      → get_elem? a i ≡ some f
      → f.status ≡ fd_init
      → f.open_count ≡ 0
      → give_back v i e (record { fd_array = a; fs = s })
        ≡ some (err e, record { fd_array = set a i (record f { status = fd_none }); fs = s })
  unfolding give_back fd_array_free
  give_back_lem a s i e f p q c = rw (p, q, c) refl

  open_file_lem :
      (a : List File) (s : Fs) (i node offset : ℕ) (rights : Bool × Bool) (f : File)
      → get_elem? a i ≡ some f
      → f.status ≡ fd_init
      → node ≢ 0
      → open_file v i node offset rights (record { fd_array = a; fs = s })
        ≡ some (
          ok f.fd,
          record {
            fd_array = set a i (record f {
              status = fd_opened;
              readable = rights.0;
              writable = rights.1;
              offset = offset;
              node = node;
              open_count = f.open_count + 1;
            });
            fs = s;
          },
        )
  unfolding open_file fd_array_open
  open_file_lem a s i node offset rights f p q n =
      let nz : (node == 0) ≡ false = ground (arith, n) in
      rw (p, get_elem?-set a i f _ p, q, nz, set-set) refl

  abbrev Done : ℕ → List File → Option (Ret × Files v) → Type 0
  Done flags a x =
      (r : Ret) × (t : Files v) × (x ≡ some (r, t))
      × IsValid t.fd_array
      × Outcome flags a r t.fd_array

  -- The calls below act on the table `a` with its lowest free entry `i` claimed.
  module _ (flags : ℕ) (a : List File) (i : ℕ) (f : File) (val : IsValid a)
      (p : get_elem? a i ≡ some f) (q : f.status ≡ fd_none) (low : Lowest i a) where
    claimed : File
    claimed = record f { status = fd_init; node = 0 }

    unused : f.open_count ≡ 0
    unused = none-Counted f.status f.open_count q (val i f p).counted
      where
        none-Counted : (s : Status) (n : ℕ) → s ≡ fd_none → Counted s n → n ≡ 0
        none-Counted fd_none n e c = c
        none-Counted fd_init n e c = c
        none-Counted Status.fd_opened n e c = grind (arith, e)
        none-Counted Status.fd_closed n e c = grind (arith, e)

    refuse :
        (e : ℕ) (s : Fs)
        → Done flags a (give_back v i e (record { fd_array = set a i claimed; fs = s }))
    unfolding claimed
    refuse e s =
        let g : File = record f { status = fd_none; node = 0 } in
        (
          err e,
          record { fd_array = set a i g; fs = s },
          give_back_lem (set a i claimed) s i e claimed (get_elem?-set a i f claimed p) refl unused
              ∙ rw set-set refl,
          set-IsValid a i f g val p (record { numbered = (val i f p).numbered; counted = unused }),
          λ j. elim (Bool-cases (i == j)) [
            | inl z ↦
                let ij : i ≡ j = ground (arith, z) in
                rw (sym ij) (inr ((f, p, q), (g, get_elem?-set a i f g p, refl)))
            | inr z ↦ inl (get_elem?-set_ne a i j g (ground (arith, z)))
          ],
        )

    grant :
        (node offset : ℕ) (rights : Bool × Bool) (s : Fs)
        → node ≢ 0
        → access flags ≡ some rights
        → Done flags a
            (open_file v i node offset rights (record { fd_array = set a i claimed; fs = s }))
    unfolding claimed
    grant node offset rights s nz acc =
        let g : File = record {
          status = fd_opened;
          readable = rights.0;
          writable = rights.1;
          fd = f.fd;
          offset = offset;
          node = node;
          open_count = f.open_count + 1;
        } in
        let num : f.fd ≡ i = (val i f p).numbered in
        (
          ok i,
          record { fd_array = set a i g; fs = s },
          open_file_lem (set a i claimed) s i node offset rights claimed
                (get_elem?-set a i f claimed p) refl nz
              ∙ rw (set-set, num) refl,
          set-IsValid a i f g val p (record { numbered = num; counted = omega arith }),
          record {
            entry = g;
            was_free = (f, p, q);
            lowest = low;
            there = get_elem?-set a i f g p;
            status = refl;
            once = omega (arith, unused);
            rights = acc;
            inode = nz;
            others = λ j n. get_elem?-set_ne a i j g n;
          },
        )

    at_end :
        (node : ℕ) (rights : Bool × Bool) (s : Fs) (st : ℕ × ℕ × Fs)
        → node ≢ 0
        → access flags ≡ some rights
        → ((u : Fs) × (vfs_close node st.2 ≡ some u))
        → Done flags a (open_end v i node rights st (record { fd_array = set a i claimed; fs = s }))
    unfolding open_end
    at_end node rights s (e, size, s') nz acc (u, c) = elim (Bool-cases (e == 0)) [
      | inl z ↦ rw z (grant node size rights s' nz acc)
      | inr z ↦ rw (z, c) (refuse e u)
    ]

    finish :
        (rights : Bool × Bool) (r : Ret × Fs)
        → access flags ≡ some rights
        → ((node : ℕ) (s : Fs) → r ≡ (ok node, s) → Given node s)
        → Done flags a (opened v i flags rights r (set a i claimed))
    unfolding open_at open_end
    finish rights (err e, s) acc nz = refuse e s
    finish rights (ok node, s) acc nz = elim (Bool-cases (appends flags)) [
      | inr z ↦ rw z (grant node 0 rights s (nz node s refl).0 acc)
      | inl z ↦
          let (there, (st, f, c)) = nz node s refl in
          rw (z, f) (at_end node rights s st there acc c)
    ]

  -- On a valid table that is in use by a process, where `vfs_open` fails no assertion, and gives no
  -- null inode and none on which `vop_fstat` and then `vfs_close` fail one, `file_open` runs through
  -- without a failed assertion and leaves the table valid. If it returns a descriptor, this is the
  -- lowest free entry, which is now open once with the rights asked for, and no other entry changed;
  -- if it returns an error, all entries in use are as they were and the others are free.
  pub file_open-Outcome :
      (path flags : ℕ) (t : Files v)
      → IsValid t.fd_array
      → (o : Ret × Fs) → vfs_open path flags t.fs ≡ some o
      → ((node : ℕ) (s : Fs) → o ≡ (ok node, s) → Given node s)
      → (r : Ret) × (t' : Files v) × (file_open v path flags t ≡ some (r, t'))
        × IsValid t'.fd_array
        × Outcome flags t.fd_array r t'.fd_array
  unfolding file_open fd_array_alloc claim claimed
  file_open-Outcome path flags t val o passes given = allot (access flags) refl
    where
      allot :
          (b : Option (Bool × Bool))
          → access flags ≡ b
          → Done flags t.fd_array (open_with v b path flags t)
      allot none e = (err e_inval, t, refl, val, λ j. inl refl)
      allot (some rights) e = elim (first_free_lem 0 t.fd_array) [
        | inr (none_free, all) ↦ rw none_free (err e_max_open, t, refl, val, λ j. inl refl)
        | inl (i, f, found, p, q, low) ↦
            let zero_count : (f.open_count == 0) ≡ true =
              ground (arith, unused flags t.fd_array i f val p q low) in
            let plain : 0 + i ≡ i = omega arith in
            rw (found, plain, p, zero_count, passes)
              (finish flags t.fd_array i f val p q low rights o e given)
      ]
