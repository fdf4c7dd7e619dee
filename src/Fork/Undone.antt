-- ===== src/Fork/Undone.antt =====
-- What the ways out of do_fork of kern/process/proc.c undo.
use oscmp.Base.{
  ℕ, ◌*◌, ◌==◌, ◌≡◌, ◌≢◌, refl, Bool, false, Option, none, some, ◌>>=◌, arith, Bool-cases, inl, inr,
  bind_some,
}
use mathlib.Core.List.{map}
use oscmp.Process.{max_pid, get_pid}
use oscmp.Fork.Defs.{
  Kernel, Memory, Forked, refused, no_mem, put_files, Space, drop_space, exit_mmap, copy_mm,
  alloc_proc, setup_kstack, put_kstack, free_proc, link_child, start_child, fork_mm,
}

-- What is as before in a kernel, but for the memory that has been given back.
pub record Restored (mem : Memory) (k k' : Kernel) : Type 0 where
  pub taken : k'.taken ≡ k.taken
  pub refs : (n : ℕ) → k'.ref_count n ≡ k.ref_count n
  pub opens : (n : ℕ) → k'.node_opens n ≡ k.node_opens n
  pub tables : (g : ℕ) → g ≢ mem.files_at → k'.files g ≡ k.files g
  pub spaces : (m : ℕ) → m ≢ mem.mm_at → k'.spaces m ≡ k.spaces m
  pub procs :
      (q : ℕ)
      → q ≢ mem.proc_at
      → (k'.family.sched.procs q ≡ k.family.sched.procs q)
        × (k'.filesp q ≡ k.filesp q)
        × (k'.mm q ≡ k.mm q)
        × (k'.family.children q ≡ k.family.children q)
  pub proc_list : k'.family.proc_list ≡ k.family.proc_list
  pub hash_list : k'.family.hash_list ≡ k.family.hash_list
  pub count : k'.family.nr_process ≡ k.family.nr_process
  pub rq : k'.family.sched.rq ≡ k.family.sched.rq

pub same-Restored : (mem : Memory) (k : Kernel) → Restored mem k k
same-Restored mem k = record {
  taken = refl;
  refs = λ n. refl;
  opens = λ n. refl;
  tables = λ g n. refl;
  spaces = λ m n. refl;
  procs = λ q n. (refl, refl, refl, refl);
  proc_list = refl;
  hash_list = refl;
  count = refl;
  rq = refl;
}

pub no_stack : (mem : Memory) (k : Kernel) → Restored mem k (free_proc (alloc_proc mem.proc_at k))
unfolding alloc_proc
no_stack mem k = record {
  taken = ground arith;
  refs = λ n. refl;
  opens = λ n. refl;
  tables = λ g n. refl;
  spaces = λ m n. refl;
  procs = λ q n. (ground arith, ground arith, ground arith, ground arith);
  proc_list = refl;
  hash_list = refl;
  count = refl;
  rq = refl;
}

pub no_files :
    (mem : Memory) (k : Kernel)
    → Restored mem k
        (free_proc (put_kstack (setup_kstack mem mem.proc_at (alloc_proc mem.proc_at k))))
unfolding alloc_proc
no_files mem k = record {
  taken = ground arith;
  refs = λ n. refl;
  opens = λ n. refl;
  tables = λ g n. refl;
  spaces = λ m n. refl;
  procs = λ q n. (ground arith, ground arith, ground arith, ground arith);
  proc_list = refl;
  hash_list = refl;
  count = refl;
  rq = refl;
}

-- What a copy_mm that fails has changed.
pub copy_mm_fails :
    (mem : Memory) (clone_vm : Bool) (p : ℕ) (k k' : Kernel) (ret : ℕ)
    → copy_mm mem clone_vm p k ≡ some (ret, k')
    → (ret == 0) ≡ false
    → (c : ℕ → Space) × (k' ≡ record k { spaces = c })
      × ((m : ℕ) → m ≢ mem.mm_at → c m ≡ k.spaces m)
unfolding copy_mm exit_mmap drop_space
copy_mm_fails mem clone_vm p k k' ret e n =
    (k'.spaces, ground (arith, e, n), λ m d. ground (arith, e, n))

pub bind_assoc {ℓ κ μ} :
    {A : Type ℓ} {B : Type κ} {C : Type μ} (o : Option A) (f : A → Option B) (g : B → Option C)
    → ((o >>= f) >>= g) ≡ (o >>= λ a. f a >>= g)
bind_assoc none f g = refl
bind_assoc (some a) f g = refl

bind-ne {ℓ κ} :
    {A : Type ℓ} {B : Type κ} (o : Option A) (f : A → Option B) (b : B)
    → ((a : A) → f a ≢ some b)
    → (o >>= f) ≢ some b
bind-ne none f b h e = ground (arith, e)
bind-ne (some a) f b h e = h a e

link_child-ne-refused :
    (p e : ℕ) (k k' : Kernel) (r : ℕ × ℕ) → link_child p k r ≢ some (refused e, k')
link_child-ne-refused p e k k' (pid, safe) h = ground (arith, h)

start_child-ne-refused : (p e : ℕ) (k k' : Kernel) → start_child p k ≢ some (refused e, k')
unfolding start_child
start_child-ne-refused p e k k' =
    bind-ne (get_pid (2 * max_pid) (map k.family.pid k.family.proc_list) k.last_pid k.next_safe)
      (link_child p k) (refused e, k') (link_child-ne-refused p e k k')

-- A fork that is refused behind copy_files has undone it by put_files.
pub fork_mm_refused :
    (p e ret : ℕ) (k k' : Kernel)
    → fork_mm p (ret, k) ≡ some (refused e, k')
    → ((ret == 0) ≡ false)
      × ((u : Kernel) × (put_files p k ≡ some u) × (k' ≡ free_proc (put_kstack u)))
fork_mm_refused p e ret k k' h = elim (Bool-cases (ret == 0)) [
  | inl z ↦ absurd (start_child-ne-refused p e k k' (ground (arith, h, z)))
  | inr n ↦
      let (u, a, b) =
        bind_some {B = Forked × Kernel} (put_files p k)
          (λ u. some (refused no_mem, free_proc (put_kstack u))) (refused e, k')
          (ground (arith, h, n)) in
      (n, (u, a, ground (arith, b)))
]
