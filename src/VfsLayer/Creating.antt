-- ===== src/VfsLayer/Creating.antt =====
-- What vfs_open of kern/fs/vfs/vfsfile.c creates.
use oscmp.Base.{
  ℕ, ◌≡◌, ◌≢◌, asserted, ap, ◌∙◌, true, some, assert, List, [], ◌∷◌, ◌++◌, ◌>>=◌, arith, bind_some,
}
use oscmp.VfsLayer.Defs.{
  Store, Ret, fails, Ops, op_lookup, op_create, vop_op, inode_ref_inc, inode_ref_dec,
}
use oscmp.VfsLayer.Lookup.{
  Layer, colon, e_noent, Begin, stops, begins, vfs_get_curdir, get_device, look_below, vfs_lookup,
  vfs_lookup_parent,
}
use oscmp.VfsLayer.Opening.{
  flags_ok, o_creat, o_excl, open_found, create_in, open_created, vfs_open,
}
use oscmp.VfsLayer.Parsing.{Plain, get_device-Plain, get_device-device}

module _ (o : Ops) where
  -- What a lookup leaves of its caller's path.
  look_below_path :
      (b : Begin × List ℕ × Store o.D) (s' : Store o.D) (r : Ret) (path' : List ℕ)
      → look_below o b ≡ some (r, path', s')
      → path' ≡ b.1
  look_below_path (stops e, path, s) s' r path' f = ground (arith, f)
  look_below_path (begins [] n, path, s) s' r path' f = ground (arith, f)
  look_below_path (begins (c ∷ cs) n, path, s) s' r path' f =
      let (t, a, b) =
        bind_some (inode_ref_dec o n (o.vop_lookup n (c ∷ cs) s).1) _ _
          (asserted (vop_op o op_lookup n s) _ f) in
      ground (arith, b)

  lookup_path :
      (x : ℕ) (xs rest : List ℕ) (l : Layer o.D) (s : Store o.D) (r : Ret) (path' : List ℕ)
      → Plain (x ∷ xs)
      → vfs_lookup o ((x ∷ xs) ++ (colon ∷ rest)) l ≡ some (r, path', s)
      → path' ≡ x ∷ xs
  unfolding vfs_lookup
  lookup_path x xs rest l s r path' p e =
      let (b, f, g) = bind_some (get_device o ((x ∷ xs) ++ (colon ∷ rest)) l) _ _ e in
      look_below_path b s r path' g ∙ ground (arith, f, get_device-device o l x xs rest p)

  module _ (junk flags : ℕ) (l : Layer o.D) (s : Store o.D) where
    create_here :
        (name : List ℕ)
        → Plain name
        → l.pwd ≢ 0
        → (vfs_lookup_parent o name (record l { store = s }) >>= create_in o flags junk)
          ≡ assert (vop_op o op_create l.pwd (inode_ref_inc l.pwd s)) (
              open_created o flags junk
                (o.vop_create l.pwd name (o_excl flags) (inode_ref_inc l.pwd s)))
    unfolding vfs_lookup_parent vfs_get_curdir
    create_here name p n =
        rw (get_device-Plain o (record l { store = s }) name p) (ground (arith, n))

    create_noent :
        (path' : List ℕ)
        → o_creat flags ≡ true
        → open_found o flags junk l (fails e_noent, path', s)
          ≡ (vfs_lookup_parent o path' (record l { store = s }) >>= create_in o flags junk)
    create_noent path' c = ground (arith, c)

    -- A path that begins with the name of a device and is not found: the file is to be created with
    -- the name of the device in the working directory.
    pub vfs_open-misplaced :
        (x : ℕ) (xs rest path' : List ℕ)
        → Plain (x ∷ xs)
        → flags_ok flags ≡ true
        → o_creat flags ≡ true
        → l.pwd ≢ 0
        → vfs_lookup o ((x ∷ xs) ++ (colon ∷ rest)) l ≡ some (fails e_noent, path', s)
        → vfs_open o junk ((x ∷ xs) ++ (colon ∷ rest)) flags l
          ≡ assert (vop_op o op_create l.pwd (inode_ref_inc l.pwd s)) (
              open_created o flags junk
                (o.vop_create l.pwd (x ∷ xs) (o_excl flags) (inode_ref_inc l.pwd s)))
    unfolding vfs_open
    vfs_open-misplaced x xs rest path' p f c n e = rw f (
        rw e (
          create_noent path' c
          ∙ ap (λ q. vfs_lookup_parent o q (record l { store = s }) >>= create_in o flags junk)
              (lookup_path x xs rest l s (fails e_noent) path' p e)
          ∙ create_here (x ∷ xs) p n))
