-- ===== src/Kpu/Pool.antt =====
-- The controller thread of kern/fs/devs/kpu_spooling.c: identifiers of tasks, and the task that a
-- round starts.
use oscmp.Base.{
  ℕ, zero, suc, ◌+◌, ◌%◌, ◌<◌, ◌≤◌, ◌≡◌, ◌≢◌, refl, ap, ◌∙◌, true, false, not, ◌&&◌, some, List, [],
  ◌∷◌, ◌++◌, ltb, leb, ◌==◌, ℤ, pos, length, get_elem?, arith, length-append,
}
use oscmp.Sched.{is_zombie, wakeup_proc, wake}
use oscmp.Process.{find_proc}
use oscmp.Kpu.Defs.{Task, Kpu, is_neg, is_int}
use oscmp.Kpu.Spool.{
  new_task, totsize, jpgsize, wt_kpu_init, clear_lens, add_buff, add_kpu_task, find_task,
  try_run_task, sleep_current, wake_caller, ctrl_round,
}
use oscmp.Kpu.Collect.{Collected}

-- The identifiers count up from `k`, modulo the number of tasks, and each task has a process.
abbrev pub Ids : ℕ → List Task → Type 0
Ids k [] = Unit
Ids k (t ∷ ts) = (t.id ≡ k % 8) × (t.proc ≢ 0) × Ids (k + 1) ts

-- The state of the pool after `kpu_spooling_init` and any number of tasks added.
pub record IsPool (s : Kpu) : Type 0 where
  pub ids : Ids 1 s.tasklist
  pub last : s.maxid ≡ length s.tasklist % 8

pub Ids-append :
    (k : ℕ) (ts : List Task) (t : Task)
    → Ids k ts
    → t.id ≡ (k + length ts) % 8
    → t.proc ≢ 0
    → Ids k (ts ++ (t ∷ []))
Ids-append k [] t h e p = (ground (arith, e), p, tt)
Ids-append k (x ∷ ts) t (hx, px, h) e p =
    (hx, px, Ids-append (k + 1) ts t h (e ∙ ap (λ n. n % 8) (omega arith)) p)

-- Among the first eight tasks, the identifier leads to the task.
find_task-Ids :
    (d i k : ℕ) (ts : List Task)
    → Ids k ts
    → d < length ts
    → d < 8
    → (t : Task) × (find_task i ((k + d) % 8) ts ≡ some (i + d))
      × (get_elem? ts d ≡ some t)
      × (t.proc ≢ 0)
unfolding find_task
find_task-Ids d i k [] h l m = absurd (omega (arith, l))
find_task-Ids zero i k (t ∷ ts) h l m =
    let here : (t.id == (k + 0) % 8) ≡ true = ground (arith, h.0) in
    (t, rw here (ap some (omega arith)), refl, h.1)
find_task-Ids (suc d) i k (t ∷ ts) h l m =
    let there : (t.id == (k + suc d) % 8) ≡ false = ground (arith, h.0, m) in
    let (u, e, g, p) =
      find_task-Ids d (i + 1) (k + 1) ts h.2 (omega (arith, l)) (omega (arith, m)) in
    (
      u,
      rw there (ap (λ n. find_task (i + 1) (n % 8) ts) (omega arith) ∙ e ∙ ap some (omega arith)),
      g,
      p,
    )

-- What the controller needs of the bytes of a buffer.
pub record IsBuff (buff : List ℕ) : Type 0 where
  pub whole : 48 ≤ length buff
  pub size : totsize buff ≡ length buff
  pub picture : 0 < jpgsize buff

-- The task that `add_kpu_task` makes of them in state `c`.
abbrev pub task_of : ℕ → ℕ → List ℕ → Kpu → Task
task_of stale pid buff c = new_task stale buff ((c.maxid + 1) % 8) (find_proc c.family pid)

abbrev pub with_task : ℕ → ℕ → List ℕ → Kpu → Kpu
with_task stale pid buff c = record c {
  lens = clear_lens c.numblock c.lens;
  maxid = (c.maxid + 1) % 8;
  tasklist = c.tasklist ++ (task_of stale pid buff c ∷ []);
}

pub add_kpu_task-with_task :
    (stale tot pid : ℕ) (buff : List ℕ) (c : Kpu)
    → Collected tot pid buff c
    → tot ≡ length buff
    → IsBuff buff
    → add_kpu_task stale pid c ≡ some ((c.maxid + 1) % 8, with_task stale pid buff c)
unfolding add_kpu_task add_buff
add_kpu_task-with_task stale tot pid buff c k e b =
    let not_neg : is_neg c.totlength ≡ false = ap is_neg k.total in
    let not_zero : is_int c.totlength 0 ≡ false =
      ap (λ z. is_int z 0) k.total ∙ ground (arith, e, b.whole) in
    let all : is_int c.totlength (length buff) ≡ true =
      ap (λ z. is_int z (length buff)) k.total ∙ ground (arith, e) in
    let same : is_int c.totlength (totsize buff) ≡ true =
      ap (λ z. is_int z (totsize buff)) k.total ∙ ground (arith, e, b.size) in
    let long : leb 48 (length buff) ≡ true = ground (arith, b.whole) in
    let picture : ltb 0 (jpgsize buff) ≡ true = ground (arith, b.picture) in
    rw (not_neg, not_zero, k.joined, all, long, same, picture) refl

-- `try_run_task` with the identifier that was given out last.
try_run_task-last :
    (n : ℕ) (u : Kpu)
    → Ids 1 u.tasklist
    → length u.tasklist ≡ n + 1
    → u.maxid ≡ (n + 1) % 8
    → (i : ℕ) → i ≡ u.maxid
    → (pid : ℤ) × (try_run_task i u ≡ some (pid, record u { started = u.started ++ (n % 8 ∷ []) }))
unfolding try_run_task
try_run_task-last n u h l m i e =
    let (t, f, g, p) = find_task-Ids (n % 8) 0 1 u.tasklist h (omega (arith, l)) (omega arith) in
    let found : find_task 0 i u.tasklist ≡ some (n % 8) =
      ap (λ k. find_task 0 k u.tasklist) (omega (arith, e, m)) ∙ f ∙ ap some (omega arith) in
    let some_proc : (t.proc == 0) ≡ false = ground (arith, p) in
    (pos (u.family.pid t.proc), rw (try_run_task, found, g, some_proc) refl)

-- A round of the controller that adds a task.
pub record Round (stale : ℕ) (buff : List ℕ) (c u : Kpu) : Type 0 where
  pub tasklist : u.tasklist ≡ c.tasklist ++ (task_of stale c.caller_pid buff c ∷ [])
  pub started : u.started ≡ c.started ++ (length c.tasklist % 8 ∷ [])
  pub pool : IsPool u

with_task-IsPool :
    (stale pid : ℕ) (buff : List ℕ) (c : Kpu)
    → IsPool c
    → find_proc c.family pid ≢ 0
    → IsPool (with_task stale pid buff c)
with_task-IsPool stale pid buff c p q = record {
  ids = Ids-append 1 c.tasklist (task_of stale pid buff c) p.ids (omega (arith, p.last)) q;
  last = omega (arith, p.last, length-append c.tasklist (task_of stale pid buff c ∷ []));
}

pub ctrl_round-Round :
    (stale : ℕ) (buff : List ℕ) (c : Kpu)
    → Collected (length buff) c.caller_pid buff c
    → IsBuff buff
    → IsPool c
    → c.kpuio_init ≡ true
    → c.kpuio_check ≡ false
    → 2 < c.caller_pid
    → find_proc c.family c.caller_pid ≢ 0
    → is_zombie (c.family.sched.procs (find_proc c.family c.caller_pid)).state ≡ false
    → (u : Kpu) × (ctrl_round stale c ≡ some u) × Round stale buff c u
unfolding ctrl_round wake_caller wakeup_proc sleep_current
ctrl_round-Round stale buff c k b p on off big q z =
    let go : (c.kpuio_init && not c.kpuio_check) ≡ true = rw (on, off) refl in
    let user : ltb 2 c.caller_pid ≡ true = ground (arith, big) in
    let caller : (find_proc c.family c.caller_pid == 0) ≡ false = ground (arith, q) in
    let added = with_task stale c.caller_pid buff c in
    let pool = with_task-IsPool stale c.caller_pid buff c p q in
    let made = add_kpu_task-with_task stale (length buff) c.caller_pid buff c k refl b in
    let (pid, run) =
      try_run_task-last (length c.tasklist) added pool.ids
        (omega (arith, length-append c.tasklist (task_of stale c.caller_pid buff c ∷ [])))
        (omega (arith, p.last)) ((c.maxid + 1) % 8) refl in
    (
      sleep_current wt_kpu_init (record added {
        started = c.started ++ (length c.tasklist % 8 ∷ []);
        family = record c.family { sched = wake c.family.sched (find_proc c.family c.caller_pid) };
      }),
      rw (go, user, made) (rw run (rw (caller, z) refl)),
      record {
        tasklist = refl;
        started = refl;
        pool = record { ids = pool.ids; last = pool.last };
      },
    )
