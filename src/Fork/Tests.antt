-- ===== src/Fork/Tests.antt =====
-- Process 3 forks, and there is no memory for the address space of the child.
use oscmp.Base.{true, false, Option, none, some, [], ◌∷◌, refl, arith}
use oscmp.SkewHeap.{null}
use oscmp.Sched.{Proc, ProcState}
use oscmp.Fork.Defs.{
  Kernel, Memory, Forked, do_fork, alloc_proc, copy_files, files_create, dup_files, take_all,
  drop_all, drop_space, exit_mmap, copy_mm, put_files, files_destroy,
}
use oscmp.Fork.Undone.{Restored}
use oscmp.Fork.Refusal.{do_fork-Restored}

abbrev running : Proc
running = record {
  state = ProcState.runnable;
  wait_state = 0;
  need_resched = false;
  runs = 1;
  in_rq = false;
  time_slice = 3;
  stride = 0;
  priority = 1;
}

abbrev kernel : Kernel
kernel = record {
  family = record {
    parent = λ q. 1;
    children = λ q. [];
    pid = λ q. q;
    exiting = λ q. false;
    exit_code = λ q. 0;
    hash_list = λ h. [];
    proc_list = 3 ∷ [];
    nr_process = 1;
    initproc = 1;
    sched = record {
      procs = λ q. running;
      rq = record { pool = null; proc_num = 0; max_time_slice = 5 };
      current = 3;
      idleproc = 2;
    };
  };
  last_pid = 3;
  next_safe = 8192;
  kstack = λ q. 0;
  filesp = λ q. 5;
  mm = λ q. 6;
  files = λ f. record { pwd = 2; files_count = 1; opened = 4 ∷ 4 ∷ [] };
  ref_count = λ n. 3;
  node_opens = λ n. 2;
  spaces = λ m. record { mm_count = 1; areas = 4; pages = 6 };
  taken = record {
    procs = 1;
    stacks = 1;
    tables = 1;
    spaces = 1;
    directories = 1;
    areas = 4;
    pages = 6;
  };
}

abbrev memory : Memory
memory = record {
  proc_at = 7;
  stack_at = 8;
  files_at = 9;
  mm_at = 10;
  pgdir_ok = true;
  dup_mmap_ret = 4;
  areas = 2;
  pages = 3;
}

-- The kernel after a call.
abbrev after : Option (Forked × Kernel) → Kernel
after none = kernel
after (some (r, k)) = k

do_fork-Restored_example : Restored memory kernel (after (do_fork memory false false kernel))
unfolding do_fork alloc_proc copy_files files_create dup_files take_all drop_all copy_mm drop_space
    exit_mmap put_files files_destroy
do_fork-Restored_example =
    do_fork-Restored memory false false kernel (after (do_fork memory false false kernel)) 4
      (ground arith) (ground arith) (omega arith) (ground arith) refl
