-- ===== src/VfsLayer/Parsing.antt =====
-- How get_device of kern/fs/vfs/vfslookup.c reads a path.
use oscmp.Base.{
  ℕ, suc, ◌+◌, ◌==◌, ◌≡◌, ◌≢◌, ◌⊎◌, inl, inr, refl, sym, ap, ◌∙◌, some, List, [], ◌∷◌, ◌++◌,
  if◌then◌else◌, ◌>>=◌, length, take, drop, arith, Bool-cases, ==_iff,
}
use mathlib.Core.List.{append-nil}
use oscmp.VfsLayer.Defs.{Ops}
use oscmp.VfsLayer.Devices.{vfs_get_root}
use oscmp.VfsLayer.Lookup.{
  Layer, slash, colon, Mark, no_mark, at_colon, at_slash, first_mark, skip_slashes, vfs_get_curdir,
  vfs_get_bootfs, root_beside, found_at, get_device,
}

-- Characters that are neither `:` nor `/`.
abbrev pub Plain : List ℕ → Type 0
Plain [] = Unit
Plain (c ∷ cs) = (c ≢ colon) × (c ≢ slash) × Plain cs

-- The mark that follows a plain name.
abbrev mark_of : ℕ → List ℕ → Mark
mark_of i [] = no_mark
mark_of i (c ∷ cs) = if c == colon then at_colon i else at_slash i

abbrev Marks : List ℕ → Type 0
Marks [] = Unit
Marks (c ∷ cs) = (c ≡ slash) ⊎ (c ≡ colon)

pub first_mark-Plain :
    (i : ℕ) (name tail : List ℕ)
    → Plain name
    → Marks tail
    → first_mark i (name ++ tail) ≡ mark_of (i + length name) tail
unfolding first_mark
first_mark-Plain i [] [] p m = refl
first_mark-Plain i [] (c ∷ cs) p m = ground (arith, m)
first_mark-Plain i (x ∷ xs) tail p m = ground (arith, first_mark-Plain (suc i) xs tail p.2 m)

-- Every path is a plain name, and what follows its first `:` or `/`.
path_parts :
    (path : List ℕ)
    → (name : List ℕ) × (tail : List ℕ) × Plain name × Marks tail × (path ≡ name ++ tail)
path_parts [] = ([], [], tt, tt, refl)
path_parts (c ∷ cs) = elim (Bool-cases (c == colon)) [
  | inl a ↦ ([], c ∷ cs, tt, inr ((==_iff c colon).0 a), refl)
  | inr a ↦ elim (Bool-cases (c == slash)) [
    | inl b ↦ ([], c ∷ cs, tt, inl ((==_iff c slash).0 b), refl)
    | inr b ↦
        let (name, tail, p, m, e) = path_parts cs in
        (c ∷ name, tail, (ground arith, ground arith, p), m, ap (λ l. c ∷ l) e)
  ]
]

take-append : (xs ys : List ℕ) → take (length xs) (xs ++ ys) ≡ xs
take-append [] ys = refl
take-append (x ∷ xs) ys = ap (λ l. x ∷ l) (take-append xs ys)

drop-append : (xs : List ℕ) (c : ℕ) (ys : List ℕ) → drop (suc (length xs)) (xs ++ (c ∷ ys)) ≡ ys
drop-append [] c ys = refl
drop-append (x ∷ xs) c ys = drop-append xs c ys

pub first_mark-colon :
    (name rest : List ℕ) (c : ℕ)
    → Plain name
    → c ≡ colon
    → first_mark 0 (name ++ (c ∷ rest)) ≡ at_colon (length name)
first_mark-colon name rest c p m = first_mark-Plain 0 name (c ∷ rest) p (inr m) ∙ ground (arith, m)

first_mark-slash :
    (name rest : List ℕ) (c : ℕ)
    → Plain name
    → c ≡ slash
    → first_mark 0 (name ++ (c ∷ rest)) ≡ at_slash (length name)
first_mark-slash name rest c p m = first_mark-Plain 0 name (c ∷ rest) p (inl m) ∙ ground (arith, m)

module _ (o : Ops) (l : Layer o.D) where
  -- Where a path begins, by its plain name and the rest.
  abbrev pub Reads : List ℕ → List ℕ → List ℕ → Type 0
  Reads path name [] = get_device o path l ≡ some (found_at o path path (vfs_get_curdir o l))
  Reads path [] (c ∷ rest) =
      ((c ≡ slash)
        × (get_device o path l ≡ some (found_at o path (skip_slashes rest) (vfs_get_bootfs o l))))
      ⊎ ((c ≡ colon)
          × (get_device o path l ≡ (
              root_beside o (vfs_get_curdir o l) >>= λ r.
              some (found_at o path (skip_slashes rest) r))))
  Reads path (x ∷ xs) (c ∷ rest) =
      ((c ≡ slash) × (get_device o path l ≡ some (found_at o path path (vfs_get_curdir o l))))
      ⊎ ((c ≡ colon)
          × (get_device o path l
              ≡ some (
                  found_at o (x ∷ xs) (skip_slashes rest)
                    (vfs_get_root o (x ∷ xs) l.vdev_list l.store))))

  Plain-Reads : (name tail : List ℕ) → Plain name → Marks tail → Reads (name ++ tail) name tail
  unfolding get_device
  Plain-Reads name [] p m = rw (first_mark-Plain 0 name [] p m) refl
  Plain-Reads [] (c ∷ rest) p (inl m) = inl (m, rw (first_mark-slash [] rest c p m) refl)
  Plain-Reads [] (c ∷ rest) p (inr m) = inr (m, rw (first_mark-colon [] rest c p m) refl)
  Plain-Reads (x ∷ xs) (c ∷ rest) p (inl m) =
      inl (m, rw (first_mark-slash (x ∷ xs) rest c p m) refl)
  Plain-Reads (x ∷ xs) (c ∷ rest) p (inr m) = inr (
    m,
    rw (first_mark-colon (x ∷ xs) rest c p m)
        (rw (take-append xs (c ∷ rest), drop-append xs c rest) refl),
  )

  equal-Reads :
      (path name tail : List ℕ)
      → Plain name
      → Marks tail
      → path ≡ name ++ tail
      → Reads path name tail
  equal-Reads path name tail p m e = rw e (Plain-Reads name tail p m)

  pub get_device-Plain :
      (name : List ℕ)
      → Plain name
      → get_device o name l ≡ some (found_at o name name (vfs_get_curdir o l))
  unfolding get_device
  get_device-Plain name p = rw (plain_mark name p) refl
    where
      plain_mark : (name : List ℕ) → Plain name → first_mark 0 name ≡ no_mark
      plain_mark name p =
          ap (first_mark 0) (sym (append-nil name)) ∙ first_mark-Plain 0 name [] p tt

  pub get_device-device :
      (x : ℕ) (xs rest : List ℕ)
      → Plain (x ∷ xs)
      → get_device o ((x ∷ xs) ++ (colon ∷ rest)) l
        ≡ some
            (found_at o (x ∷ xs) (skip_slashes rest) (vfs_get_root o (x ∷ xs) l.vdev_list l.store))
  unfolding get_device
  get_device-device x xs rest p =
      rw (first_mark-colon (x ∷ xs) rest colon p refl)
        (rw (take-append xs (colon ∷ rest), drop-append xs colon rest) refl)

  -- Every path is a name without `:` and `/` and a rest that is empty or begins with one of them.
  -- get_device begins at the working directory with the whole path if the rest is empty or there is
  -- a name before a `/`; at the root of the device with that name, after the `:` and the slashes
  -- behind it, for a name before a `:`, and then the caller's path is cut at the `:`; at the boot
  -- file system for a path that begins with `/`; and at the root of the file system of the working
  -- directory for one that begins with `:`.
  pub get_device-Reads :
      (path : List ℕ)
      → (name : List ℕ) × (tail : List ℕ) × Plain name
        × (path ≡ name ++ tail)
        × Reads path name tail
  get_device-Reads path =
      let (name, tail, p, m, e) = path_parts path in
      (name, tail, p, e, equal-Reads path name tail p m e)
