-- ===== src/Fork/Defs.antt =====
-- kern/process/proc.c: do_fork and what it calls, and kern/fs/fs.c: files_create, dup_files and
-- files_destroy. The trap frame and the context of the child are not modelled. What memory there is,
-- and what dup_mmap does, are arguments (`Memory`); of the memory that is taken the number of pieces
-- is kept (`Taken`). That unmap_range and exit_range give all pages below the areas back is taken for
-- granted. An open entry of a table has the count 1, as between two calls. What a
-- file system does when a count of an inode comes to 0 is not part of the state.
use oscmp.Base.{
  ℕ, ◌+◌, ◌-◌, ◌*◌, ◌^◌, Bool, false, not, ◌&&◌, Option, some, List, [], ◌∷◌, ltb, leb, ◌==◌,
  if◌then◌else◌, assert, ◌>>=◌, update,
}
use mathlib.Core.List.{map}
use oscmp.Sched.{Proc, ProcState, wakeup_proc}
use oscmp.Process.{Family, hash_proc, set_links, get_pid, max_process, max_pid}

-- `struct files_struct`: of the table, the inodes of the open entries.
pub record FilesStruct : Type 0 where
  pub pwd : ℕ
  pub files_count : ℕ
  pub opened : List ℕ

-- `struct mm_struct`: its count, the number of its areas, and of the pages below them.
pub record Space : Type 0 where
  pub mm_count : ℕ
  pub areas : ℕ
  pub pages : ℕ

-- The pieces of memory that are in use: processes, stacks, tables of files, address spaces, page
-- directories, areas, and the pages below areas.
pub record Taken : Type 0 where
  pub procs : ℕ
  pub stacks : ℕ
  pub tables : ℕ
  pub spaces : ℕ
  pub directories : ℕ
  pub areas : ℕ
  pub pages : ℕ

pub record Kernel : Type 0 where
  pub family : Family
  pub last_pid : ℕ
  pub next_safe : ℕ
  pub kstack : ℕ → ℕ
  pub filesp : ℕ → ℕ
  pub mm : ℕ → ℕ
  pub files : ℕ → FilesStruct
  pub ref_count : ℕ → ℕ
  pub node_opens : ℕ → ℕ
  pub spaces : ℕ → Space
  pub taken : Taken

-- What kmalloc and alloc_pages give, 0 for nothing, what dup_mmap gives, and how many areas and pages
-- it has taken then.
pub record Memory : Type 0 where
  pub proc_at : ℕ
  pub stack_at : ℕ
  pub files_at : ℕ
  pub mm_at : ℕ
  pub pgdir_ok : Bool
  pub dup_mmap_ret : ℕ
  pub areas : ℕ
  pub pages : ℕ

pub data Forked : Type 0 where
  child : ℕ → Forked
  refused : ℕ → Forked

abbrev pub e_no_free_proc : ℕ
e_no_free_proc = 5

abbrev pub no_mem : ℕ
no_mem = 4

-- One more, or one less, of a count for each inode of a list. A count of 0 is not lowered.
unfoldable pub take_all : List ℕ → (ℕ → ℕ) → ℕ → ℕ
take_all [] f = f
take_all (n ∷ ns) f = take_all ns (update f n (f n + 1))

unfoldable pub drop_all : List ℕ → (ℕ → ℕ) → Option (ℕ → ℕ)
drop_all [] f = some f
drop_all (n ∷ ns) f = assert (ltb 0 (f n)) (drop_all ns (update f n (f n - 1)))

-- `if (pwd != NULL)`
abbrev pub pwd_list : ℕ → List ℕ
pwd_list pwd = if pwd == 0 then [] else pwd ∷ []

unfoldable pub files_create : ℕ → Kernel → Kernel
files_create f k = record k {
  files = update k.files f (record { pwd = 0; files_count = 0; opened = [] });
  taken = record k.taken { tables = k.taken.tables + 1 };
}

-- The working directory has a reference, and each open entry a reference and an opening.
unfoldable pub dup_files : ℕ → ℕ → Kernel → Option Kernel
dup_files to from k =
    let old = k.files from in
    assert ((k.files to).files_count == 0 && ltb 0 (k.files from).files_count) (
      some (record k {
        files = update k.files to (record (k.files to) { pwd = old.pwd; opened = old.opened });
        ref_count = take_all old.opened (take_all (pwd_list old.pwd) k.ref_count);
        node_opens = take_all old.opened k.node_opens;
      }))

unfoldable pub files_destroy : ℕ → Kernel → Option Kernel
files_destroy f k =
    let table = k.files f in
    assert (table.files_count == 0) (
      drop_all (pwd_list table.pwd) k.ref_count >>= drop_all table.opened >>= λ refs.
      drop_all table.opened k.node_opens >>= λ opens. some (record k {
        ref_count = refs;
        node_opens = opens;
        taken = record k.taken { tables = k.taken.tables - 1 };
      }))

abbrev pub good_files_struct : ℕ → ℕ → Kernel → Kernel
good_files_struct p f k = record k {
  files = update k.files f (record (k.files f) { files_count = (k.files f).files_count + 1 });
  filesp = update k.filesp p f;
}

unfoldable pub copy_files : Memory → Bool → ℕ → Kernel → Option (ℕ × Kernel)
copy_files mem clone_fs p k =
    let old = k.filesp k.family.sched.current in
    assert (not (old == 0)) (
      if clone_fs
      then some (0, good_files_struct p old k)
      else if mem.files_at == 0
      then some (no_mem, k)
      else (dup_files mem.files_at old (files_create mem.files_at k) >>= λ k'.
          some (0, good_files_struct p mem.files_at k')))

unfoldable pub put_files : ℕ → Kernel → Option Kernel
put_files p k =
    let f = k.filesp p in
    let left = (k.files f).files_count - 1 in
    if f == 0
    then some k
    else (let k' = record k {
      files = update k.files f (record (k.files f) { files_count = left });
    } in
        if left == 0 then files_destroy f k' else some k')

abbrev pub good_mm : ℕ → ℕ → Kernel → Kernel
good_mm p m k = record k {
  spaces = update k.spaces m (record (k.spaces m) { mm_count = (k.spaces m).mm_count + 1 });
  mm = update k.mm p m;
}

-- mm_create where there is memory.
abbrev pub with_space : Memory → Kernel → Kernel
with_space mem k = record k {
  spaces = update k.spaces mem.mm_at (record { mm_count = 0; areas = 0; pages = 0 });
  taken = record k.taken { spaces = k.taken.spaces + 1 };
}

-- mm_destroy gives back the areas, and then the address space.
unfoldable pub drop_space : ℕ → Kernel → Option Kernel
drop_space m k = assert ((k.spaces m).mm_count == 0) (
    some (record k {
      taken = record k.taken {
        areas = k.taken.areas - (k.spaces m).areas;
        spaces = k.taken.spaces - 1;
      };
    }))

-- What dup_mmap leaves in the address space, whether it succeeds or not.
abbrev pub with_areas : Memory → Kernel → Kernel
with_areas mem k = record k {
  spaces = update k.spaces mem.mm_at (record (k.spaces mem.mm_at) {
    areas = (k.spaces mem.mm_at).areas + mem.areas;
    pages = (k.spaces mem.mm_at).pages + mem.pages;
  });
  taken = record k.taken { areas = k.taken.areas + mem.areas; pages = k.taken.pages + mem.pages };
}

-- exit_mmap gives back the pages; the areas stay.
unfoldable pub exit_mmap : ℕ → Kernel → Option Kernel
exit_mmap m k = assert ((k.spaces m).mm_count == 0) (
    some (record k {
      spaces = update k.spaces m (record (k.spaces m) { pages = 0 });
      taken = record k.taken { pages = k.taken.pages - (k.spaces m).pages };
    }))

abbrev pub setup_pgdir : Kernel → Kernel
setup_pgdir k = record k { taken = record k.taken { directories = k.taken.directories + 1 } }

abbrev pub put_pgdir : Kernel → Kernel
put_pgdir k = record k { taken = record k.taken { directories = k.taken.directories - 1 } }

unfoldable pub copy_mm : Memory → Bool → ℕ → Kernel → Option (ℕ × Kernel)
copy_mm mem clone_vm p k =
    let old = k.mm k.family.sched.current in
    if old == 0
    then some (0, k)
    else if clone_vm
    then some (0, good_mm p old k)
    else if mem.mm_at == 0
    then some (no_mem, k)
    else if not mem.pgdir_ok
    then (drop_space mem.mm_at (with_space mem k) >>= λ k'. some (no_mem, k'))
    else (let copied = with_areas mem (setup_pgdir (with_space mem k)) in
        if mem.dup_mmap_ret == 0
        then some (0, good_mm p mem.mm_at copied)
        else (exit_mmap mem.mm_at copied >>= λ k₁.
            drop_space mem.mm_at (put_pgdir k₁) >>= λ k₂. some (mem.dup_mmap_ret, k₂)))

abbrev pub new_proc : Proc
new_proc = record {
  state = ProcState.uninit;
  wait_state = 0;
  need_resched = false;
  runs = 0;
  in_rq = false;
  time_slice = 0;
  stride = 0;
  priority = 0;
}

-- alloc_proc where there is memory (-1 is 2^32 - 1), and `proc->parent = current`.
unfoldable pub alloc_proc : ℕ → Kernel → Kernel
alloc_proc p k = record k {
  family = record k.family {
    parent = update k.family.parent p k.family.sched.current;
    children = update k.family.children p [];
    pid = update k.family.pid p (2 ^ 32 - 1);
    exiting = update k.family.exiting p false;
    sched = record k.family.sched { procs = update k.family.sched.procs p new_proc };
  };
  kstack = update k.kstack p 0;
  filesp = update k.filesp p 0;
  mm = update k.mm p 0;
  taken = record k.taken { procs = k.taken.procs + 1 };
}

abbrev pub setup_kstack : Memory → ℕ → Kernel → Kernel
setup_kstack mem p k = record k {
  kstack = update k.kstack p mem.stack_at;
  taken = record k.taken { stacks = k.taken.stacks + 1 };
}

abbrev pub put_kstack : Kernel → Kernel
put_kstack k = record k { taken = record k.taken { stacks = k.taken.stacks - 1 } }

abbrev pub free_proc : Kernel → Kernel
free_proc k = record k { taken = record k.taken { procs = k.taken.procs - 1 } }

-- With the identifier and the new `next_safe` that get_pid has given.
abbrev pub link_child : ℕ → Kernel → ℕ × ℕ → Option (Forked × Kernel)
link_child p k (pid, safe) =
    let f : Family = record k.family { pid = update k.family.pid p pid } in
    let linked = set_links (hash_proc f p) p in
    wakeup_proc linked.sched p >>= λ s.
    some (
      child pid,
      record k { family = record linked { sched = s }; last_pid = pid; next_safe = safe },
    )

-- From get_pid on.
unfoldable pub start_child : ℕ → Kernel → Option (Forked × Kernel)
start_child p k =
    get_pid (2 * max_pid) (map k.family.pid k.family.proc_list) k.last_pid k.next_safe
    >>= link_child p k

abbrev pub fork_mm : ℕ → ℕ × Kernel → Option (Forked × Kernel)
fork_mm p (ret, k) =
    if not (ret == 0)
    then (put_files p k >>= λ k'. some (refused no_mem, free_proc (put_kstack k')))
    else start_child p k

abbrev pub fork_files : Memory → Bool → ℕ → ℕ × Kernel → Option (Forked × Kernel)
fork_files mem clone_vm p (ret, k) =
    if not (ret == 0)
    then some (refused no_mem, free_proc (put_kstack k))
    else copy_mm mem clone_vm p k >>= fork_mm p

-- From setup_kstack on.
abbrev pub fork_kstack : Memory → Bool → Bool → Kernel → Option (Forked × Kernel)
fork_kstack mem clone_fs clone_vm k =
    if mem.stack_at == 0
    then some (refused no_mem, free_proc k)
    else copy_files mem clone_fs mem.proc_at (setup_kstack mem mem.proc_at k)
      >>= fork_files mem clone_vm mem.proc_at

unfoldable pub do_fork : Memory → Bool → Bool → Kernel → Option (Forked × Kernel)
do_fork mem clone_fs clone_vm k =
    let p = mem.proc_at in
    let k' = alloc_proc p k in
    if leb max_process k.family.nr_process
    then some (refused e_no_free_proc, k)
    else if p == 0
    then some (refused no_mem, k)
    else assert ((k'.family.sched.procs k'.family.sched.current).wait_state == 0)
        (fork_kstack mem clone_fs clone_vm k')
