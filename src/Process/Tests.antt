-- ===== src/Process/Tests.antt =====
-- The functions on processes at concrete ones.
use oscmp.Base.{
  ℕ, ◌≡◌, ◌<◌, ◌≤◌, ◌⊎◌, refl, inl, inr, true, false, some, [], ◌∷◌, ◌==◌, if◌then◌else◌, arith,
  Fresh,
}
use oscmp.SkewHeap.{null}
use oscmp.Sched.{ProcState, is_zombie, is_runnable}
use oscmp.Process.Defs.{max_pid, get_pid}
use oscmp.Process.Relations.{Family, wt_child, hash_proc, find_proc, exit_links, found, find_zombie}
use oscmp.Process.Pid.{Gap, get_pid-Gap}
use oscmp.Process.Exit.{member, exit_links-found}
use oscmp.Process.Find.{find_proc-hash_proc}

-- The last identifier was 5, and that of process 6 is taken.
get_pid-Gap_example :
    (l : ℕ) × (s : ℕ) × (get_pid 16384 (6 ∷ 2 ∷ 1 ∷ []) 5 6 ≡ some (l, s))
    × (1 ≤ l)
    × (l < max_pid)
    × Fresh l (6 ∷ 2 ∷ 1 ∷ [])
    × Gap (l ∷ 6 ∷ 2 ∷ 1 ∷ []) l s
get_pid-Gap_example =
    get_pid-Gap 16384 (6 ∷ 2 ∷ 1 ∷ []) 5 6
      (record {
        within = omega arith;
        gap = (inr (omega arith), (inl (omega arith), (inl (omega arith), tt)));
      })
      (omega arith) (omega arith) (omega arith)

-- Process 10 is init, 30 the parent that waits, and 40 with its child 50 leaves.
abbrev family : Family
family = record {
  parent = λ p. if p == 50 then 40 else if p == 40 then 30 else 10;
  children = λ p. if p == 30 then 40 ∷ [] else if p == 40 then 50 ∷ [] else [];
  pid = λ p. p;
  exiting = λ p. false;
  exit_code = λ p. 0;
  hash_list = λ h. [];
  proc_list = 50 ∷ 40 ∷ 30 ∷ 10 ∷ [];
  nr_process = 5;
  initproc = 10;
  sched = record {
    procs = λ _. record {
      state = ProcState.sleeping;
      wait_state = 0x80000001;
      need_resched = false;
      runs = 0;
      in_rq = false;
      time_slice = 0;
      stride = 0;
      priority = 1;
    };
    rq = record { pool = null; proc_num = 0; max_time_slice = 5 };
    current = 40;
    idleproc = 5;
  };
}

exit_links-found_example :
    (f' : Family) × (exit_links family 7 ≡ some f')
    × (is_zombie (f'.sched.procs 40).state ≡ true)
    × (f'.exit_code 40 ≡ 7)
    × (f'.children 40 ≡ [])
    × (f'.children 10 ≡ 50 ∷ [])
    × ((k : ℕ) → f'.parent k ≡ (if member k (50 ∷ []) then 10 else family.parent k))
    × ((◌≡◌ {A = ℕ} 0x80000001 wt_child) ⊎ (is_runnable (family.sched.procs 30).state ≡ true)
        → is_runnable (f'.sched.procs 30).state ≡ true)
    × ((c : ℕ) × (find_zombie f' false (f'.children 30) ≡ found c)
        × (member c (f'.children 30) ≡ true))
exit_links-found_example =
    exit_links-found family 7 (omega arith) (omega arith) (omega arith) (omega arith) refl refl refl

find_proc-hash_proc_example :
    find_proc (hash_proc family 40) 40 ≡ (if 40 == 40 then 40 else find_proc family 40)
find_proc-hash_proc_example = find_proc-hash_proc family 40 40 (omega arith) (omega arith)
