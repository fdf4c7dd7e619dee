-- ===== src/Process/Relations.antt =====
-- kern/process/proc.c: the processes with their relations and identifiers, over the scheduler. The
-- children of a process, `cptr` and from there `optr`, are the sequence `children`, youngest first;
-- a bucket of the hash list and the list of all processes are sequences too. NULL is address 0.
-- `do_exit` and `do_wait` are modelled for the relations of processes: what they do to the address
-- space, the open files and the stack of a process is not.
use oscmp.Base.{
  ℕ, ◌+◌, ◌-◌, ◌*◌, ◌/◌, ◌%◌, ◌^◌, Bool, true, false, not, ◌&&◌, Option, some, List, [], ◌∷◌, ltb,
  ◌==◌, if◌then◌else◌, assert, ◌>>=◌, update,
}
use oscmp.Sched.{Sched, ProcState, is_zombie, wakeup_proc}
use oscmp.Process.Defs.{max_pid}

pub record Family : Type 0 where
  pub parent : ℕ → ℕ
  pub children : ℕ → List ℕ
  pub pid : ℕ → ℕ
  pub exiting : ℕ → Bool
  pub exit_code : ℕ → ℕ
  pub hash_list : ℕ → List ℕ
  pub proc_list : List ℕ
  pub nr_process : ℕ
  pub initproc : ℕ
  pub sched : Sched

abbrev pub wt_child : ℕ
wt_child = 0x80000001

-- The results of this file, negated in C.
abbrev pub e_bad_proc : ℕ
e_bad_proc = 2

abbrev pub e_inval : ℕ
e_inval = 3

abbrev pub e_killed : ℕ
e_killed = 9

-- libs/hash.c
unfoldable pub hash32 : ℕ → ℕ → ℕ
hash32 val bits = val * 0x9e370001 % 2 ^ 32 / 2 ^ (32 - bits)

abbrev pub pid_hashfn : ℕ → ℕ
pid_hashfn pid = hash32 pid 10

unfoldable pub drop_entry : ℕ → List ℕ → List ℕ
drop_entry p [] = []
drop_entry p (q ∷ qs) = if p == q then qs else q ∷ drop_entry p qs

unfoldable pub hash_proc : Family → ℕ → Family
hash_proc f p =
    let h = pid_hashfn (f.pid p) in
    record f { hash_list = update f.hash_list h (p ∷ f.hash_list h) }

unfoldable pub unhash_proc : Family → ℕ → Family
unhash_proc f p =
    let h = pid_hashfn (f.pid p) in
    record f { hash_list = update f.hash_list h (drop_entry p (f.hash_list h)) }

unfoldable pub find_in : Family → ℕ → List ℕ → ℕ
find_in f pid [] = 0
find_in f pid (p ∷ ps) = if f.pid p == pid then p else find_in f pid ps

unfoldable pub find_proc : Family → ℕ → ℕ
find_proc f pid =
    if ltb 0 pid && ltb pid max_pid then find_in f pid (f.hash_list (pid_hashfn pid)) else 0

unfoldable pub set_links : Family → ℕ → Family
set_links f p =
    let q = f.parent p in
    record f {
      children = update f.children q (p ∷ f.children q);
      proc_list = p ∷ f.proc_list;
      nr_process = f.nr_process + 1;
    }

unfoldable pub remove_links : Family → ℕ → Family
remove_links f p =
    let q = f.parent p in
    record f {
      children = update f.children q (drop_entry p (f.children q));
      proc_list = drop_entry p f.proc_list;
      nr_process = f.nr_process - 1;
    }

-- `if (proc->wait_state == WT_CHILD) { wakeup_proc(proc); }`
unfoldable pub wake_parent : Family → ℕ → Option Family
wake_parent f p =
    if (f.sched.procs p).wait_state == wt_child
    then (wakeup_proc f.sched p >>= λ s. some (record f { sched = s }))
    else some f

-- One round of the loop of `do_exit` that hands a child to `initproc`.
unfoldable pub adopt : Family → ℕ → Option Family
adopt f c =
    let f' : Family = record f {
      parent = update f.parent c f.initproc;
      children = update f.children f.initproc (c ∷ f.children f.initproc);
    } in
    if is_zombie (f.sched.procs c).state then wake_parent f' f.initproc else some f'

unfoldable pub adopt_all : List ℕ → Family → Option Family
adopt_all [] f = some f
adopt_all (c ∷ cs) f = adopt f c >>= λ f'. adopt_all cs f'

-- `do_exit` from `current->state = PROC_ZOMBIE` up to the call of `schedule`.
unfoldable pub exit_links : Family → ℕ → Option Family
exit_links f code =
    let p = f.sched.current in
    assert (not (p == f.sched.idleproc) && not (p == f.initproc)) (
      wake_parent
        (record f {
          exit_code = update f.exit_code p code;
          sched = record f.sched {
            procs = update f.sched.procs p (record (f.sched.procs p) { state = ProcState.zombie });
          };
        })
        (f.parent p)
      >>= λ f'. adopt_all (f'.children p) (record f' { children = update f'.children p [] }))

-- What a round of `do_wait` finds: a zombie, a child to wait for, or no child.
pub data Search : Type 0 where
  found : ℕ → Search
  wait missing : Search

unfoldable pub find_zombie : Family → Bool → List ℕ → Search
find_zombie f any [] = if any then wait else missing
find_zombie f any (c ∷ cs) =
    if is_zombie (f.sched.procs c).state then found c else find_zombie f true cs

-- A round of `do_wait` for any child (`pid == 0`) or for one.
unfoldable pub wait_search : Family → ℕ → Search
wait_search f pid =
    let p = f.sched.current in
    let q = find_proc f pid in
    if pid == 0
    then find_zombie f false (f.children p)
    else if not (q == 0) && f.parent q == p
    then (if is_zombie (f.sched.procs q).state then found q else wait)
    else missing

-- From the label `found` of `do_wait`: the exit code, and the state without the process.
unfoldable pub reap : Family → ℕ → Option (ℕ × Family)
reap f p =
    assert (not (p == f.sched.idleproc) && not (p == f.initproc))
      (some (f.exit_code p, remove_links (unhash_proc f p) p))

-- The error number, 0 for success.
unfoldable pub do_kill : Family → ℕ → Option (ℕ × Family)
do_kill f pid =
    let p = find_proc f pid in
    let f' : Family = record f { exiting = update f.exiting p true } in
    if p == 0
    then some (e_inval, f)
    else if f.exiting p
    then some (e_killed, f)
    else if (f.sched.procs p).wait_state / 2 ^ 31 % 2 == 1
    then (wakeup_proc f.sched p >>= λ s. some (0, record f' { sched = s }))
    else some (0, f')
