-- ===== src/Fork/Tables.antt =====
-- What a refused do_fork of kern/process/proc.c does to the tables of files.
use oscmp.Base.{
  ℕ, ◌<◌, ◌==◌, ◌≡◌, ◌≢◌, refl, sym, ◌∙◌, Bool, true, false, Option, some, ◌>>=◌, arith, Bool-cases,
  inl, inr, bind_some,
}
use oscmp.Fork.Defs.{
  Kernel, Space, Memory, Forked, refused, no_mem, take_all, pwd_list, files_create, dup_files,
  files_destroy, good_files_struct, copy_files, put_files, copy_mm, alloc_proc, setup_kstack,
  put_kstack, free_proc, fork_mm, fork_files,
}
use oscmp.Fork.Counts.{take_all_lem, drop_all_lem, drop-take}
use oscmp.Fork.Undone.{Restored, no_files, copy_mm_fails, bind_assoc, fork_mm_refused}

module _ (mem : Memory) (k : Kernel) (old : ℕ) (other : k.family.sched.current ≢ mem.proc_at)
    (has : k.filesp k.family.sched.current ≡ old) (there : (old == 0) ≡ false)
    (counted : 0 < (k.files old).files_count) (apart : mem.files_at ≢ old) where
  -- The child with its stack.
  unfoldable pub stacked : Kernel
  stacked = setup_kstack mem mem.proc_at (alloc_proc mem.proc_at k)

  stacked_files : stacked.filesp stacked.family.sched.current ≡ old
  unfolding stacked alloc_proc
  stacked_files = ground (arith, has)

  -- The child shared the table of its parent.
  put_shared :
      (c : ℕ → Space) (u : Kernel)
      → ((m : ℕ) → m ≢ mem.mm_at → c m ≡ k.spaces m)
      → put_files mem.proc_at (record (good_files_struct mem.proc_at old stacked) { spaces = c })
        ≡ some u
      → Restored mem k (free_proc (put_kstack u))
  unfolding put_files stacked alloc_proc
  put_shared c u mc e = record {
    taken = ground (arith, e);
    refs = λ n. ground (arith, e);
    opens = λ n. ground (arith, e);
    tables = λ g n. ground (arith, e);
    spaces = λ m n. ground (arith, e, mc m);
    procs = λ q n. (ground (arith, e), ground (arith, e), ground (arith, e), ground (arith, e));
    proc_list = ground (arith, e);
    hash_list = ground (arith, e);
    count = ground (arith, e);
    rq = ground (arith, e);
  }

  -- The child has a table of its own.
  own_table : Kernel
  own_table = files_create mem.files_at stacked

  put_own :
      (v u : Kernel) (c : ℕ → Space)
      → ((m : ℕ) → m ≢ mem.mm_at → c m ≡ k.spaces m)
      → (mem.files_at == 0) ≡ false
      → dup_files mem.files_at old own_table ≡ some v
      → put_files mem.proc_at (record (good_files_struct mem.proc_at mem.files_at v) { spaces = c })
        ≡ some u
      → Restored mem k (free_proc (put_kstack u))
  unfolding own_table put_files stacked alloc_proc files_create dup_files files_destroy
  put_own v u c mc n d e =
      let table = k.files old in
      let (h, a, hr) = drop-take (pwd_list table.pwd) table.opened k.ref_count in
      let (o, b, ho) =
        drop_all_lem table.opened k.node_opens (take_all table.opened k.node_opens)
          (take_all_lem table.opened k.node_opens) in
      record {
        taken = ground (arith, e, d, a, b);
        refs = λ i. ground (arith, e, d, a, b, hr i);
        opens = λ i. ground (arith, e, d, a, b, ho i);
        tables = λ g z. ground (arith, e, d, a, b);
        spaces = λ m z. ground (arith, e, d, a, b, mc m);
        procs = λ q z. (
          ground (arith, e, d, a, b),
          ground (arith, e, d, a, b),
          ground (arith, e, d, a, b),
          ground (arith, e, d, a, b),
        );
        proc_list = ground (arith, e, d, a, b);
        hash_list = ground (arith, e, d, a, b);
        count = ground (arith, e, d, a, b);
        rq = ground (arith, e, d, a, b);
      }

  copy_shared :
      copy_files mem true mem.proc_at stacked ≡ some (0, good_files_struct mem.proc_at old stacked)
  unfolding copy_files
  copy_shared = rw stacked_files (rw there refl)

  copy_none :
      (mem.files_at == 0) ≡ true → copy_files mem false mem.proc_at stacked ≡ some (no_mem, stacked)
  unfolding copy_files
  copy_none n = rw stacked_files (rw there (rw n refl))

  copy_own :
      (mem.files_at == 0) ≡ false
      → copy_files mem false mem.proc_at stacked ≡ (
          dup_files mem.files_at old own_table >>= λ v.
          some (0, good_files_struct mem.proc_at mem.files_at v))
  unfolding copy_files own_table
  copy_own n = rw stacked_files (rw there (rw n refl))

  own_refused :
      (clone_vm : Bool) (e : ℕ) (k' : Kernel)
      → (mem.files_at == 0) ≡ false
      → (copy_files mem false mem.proc_at stacked >>= fork_files mem clone_vm mem.proc_at)
        ≡ some (refused e, k')
      → (dup_files mem.files_at old own_table >>= λ v.
          fork_files mem clone_vm mem.proc_at (0, good_files_struct mem.proc_at mem.files_at v))
        ≡ some (refused e, k')
  own_refused clone_vm e k' n h =
      sym (
        bind_assoc (dup_files mem.files_at old own_table)
          (λ v. some (0, good_files_struct mem.proc_at mem.files_at v))
          (fork_files mem clone_vm mem.proc_at))
      ∙ (rw (copy_own n) at h)

  dup_spaces :
      (v : Kernel)
      → dup_files mem.files_at old own_table ≡ some v
      → (m : ℕ) → v.spaces m ≡ k.spaces m
  unfolding own_table dup_files stacked alloc_proc files_create
  dup_spaces v d m = ground (arith, d)

  -- Behind copy_files: the table that the child has got, and what it is undone to.
  module _ (clone_vm : Bool) (e : ℕ) (k' : Kernel) where
    mm_refused :
        (t : Kernel)
        → ((c : ℕ → Space) (u : Kernel)
            → ((m : ℕ) → m ≢ mem.mm_at → c m ≡ t.spaces m)
            → put_files mem.proc_at (record t { spaces = c }) ≡ some u
            → Restored mem k (free_proc (put_kstack u)))
        → (copy_mm mem clone_vm mem.proc_at t >>= fork_mm mem.proc_at) ≡ some (refused e, k')
        → Restored mem k k'
    mm_refused t undo h =
        let ((ret, v), f, g) =
          bind_some {B = Forked × Kernel} (copy_mm mem clone_vm mem.proc_at t) (fork_mm mem.proc_at)
            (refused e, k') h in
        let (n, (u, a, b)) = fork_mm_refused mem.proc_at e ret v k' g in
        let (c, d, mc) = copy_mm_fails mem clone_vm mem.proc_at t v ret f n in
        rw b (undo c u mc (rw d at a))

    pub files_refused :
        (clone_fs : Bool)
        → (copy_files mem clone_fs mem.proc_at stacked >>= fork_files mem clone_vm mem.proc_at)
          ≡ some (refused e, k')
        → Restored mem k k'
    unfolding stacked alloc_proc
    files_refused true h =
        mm_refused (good_files_struct mem.proc_at old stacked) put_shared (rw copy_shared at h)
    files_refused false h = elim (Bool-cases (mem.files_at == 0)) [
      | inl no_table ↦
          let g : ◌≡◌ {A = Option (Forked × Kernel)}
              (some (refused no_mem, free_proc (put_kstack stacked))) (some (refused e, k')) =
            rw (copy_none no_table) at h in
          let same : k' ≡ free_proc (put_kstack stacked) = ground (arith, g) in
          rw same (no_files mem k)
      | inr table ↦
          let (v, d, g) =
            bind_some {B = Forked × Kernel} (dup_files mem.files_at old own_table)
              (λ v.
                fork_files mem clone_vm mem.proc_at
                  (0, good_files_struct mem.proc_at mem.files_at v))
              (refused e, k') (own_refused clone_vm e k' table h) in
          mm_refused (good_files_struct mem.proc_at mem.files_at v)
            (λ c u mc. put_own v u c (λ m z. mc m z ∙ dup_spaces v d m) table d) g
    ]
