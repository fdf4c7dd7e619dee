-- ===== src/Kpu/Results.antt =====
-- What a process is told of its task: kpuio_read of kern/fs/devs/dev_kpuio.c, with
-- `try_check_result` and `run_kpu` of kpu_spooling.c.
use oscmp.Base.{
  ℕ, suc, ◌≡◌, ◌≢◌, refl, ap, ◌∙◌, Bool, true, false, not, ◌&&◌, Option, none, some, List, [], ◌∷◌,
  ◌++◌, ltb, ◌==◌, if◌then◌else◌, ◌>>=◌, ℤ, arith, inl, inr, Bool-cases, Option-cases,
}
use mathlib.Core.Path.{subst}
use oscmp.Sched.{is_zombie, wakeup_proc, wake}
use oscmp.Process.{Family, find_proc, find_in, pid_hashfn, max_pid}
use oscmp.Kpu.Defs.{
  Task, Kpu, has_bit, set_bit, clear_bit, is_running, is_success, result_got, result_running,
  result_waiting, result_notexist,
}
use oscmp.Kpu.Device.{dev_try_getresult, kpuio_read}
use oscmp.Kpu.Spool.{
  check_tasks, wake_caller, sleep_current, ctrl_round, change_task, run_kpu_begin, run_kpu_end,
  wt_kpu,
}

-- The first task of a process, and its place.
abbrev pub own_task : Family → ℕ → List Task → Option (ℕ × Task)
own_task f pid [] = none
own_task f pid (t ∷ ts) =
    if pid == f.pid t.proc then some (0, t) else (own_task f pid ts >>= λ r. some (suc r.0, r.1))

abbrev pub told : Option (ℕ × Task) → ℤ
told none = result_notexist
told (some (i, t)) =
    if is_running t then result_running else if is_success t then result_got else result_waiting

abbrev pub HasProcs : List Task → Type 0
HasProcs [] = Unit
HasProcs (t ∷ ts) = (t.proc ≢ 0) × HasProcs ts

pub check_tasks-told :
    (f : Family) (pid : ℕ) (ts : List Task)
    → HasProcs ts
    → check_tasks f pid ts ≡ some (told (own_task f pid ts))
unfolding check_tasks
check_tasks-told f pid [] h = refl
check_tasks-told f pid (t ∷ ts) (p, h) =
    let some_proc : (t.proc == 0) ≡ false = ground (arith, p) in
    rw (some_proc, check_tasks-told f pid ts h)
      (branches (pid == f.pid t.proc) (is_running t) (is_success t) refl refl (own_task f pid ts))
  where
    branches :
        (own running success : Bool)
        → is_running t ≡ running
        → is_success t ≡ success
        → (o : Option (ℕ × Task))
        → (if not running && success && own
            then some result_got
            else if running
            then (if own then some result_running else some (told o))
            else if own
            then some result_waiting
            else some (told o))
          ≡ some (told (if own then some (0, t) else (o >>= λ r. some (suc r.0, r.1))))
    branches true true b r g o = rw r refl
    branches true false true r g o = rw (r, g) refl
    branches true false false r g o = rw (r, g) refl
    branches false true b r g none = refl
    branches false true b r g (some x) = refl
    branches false false true r g none = refl
    branches false false true r g (some x) = refl
    branches false false false r g none = refl
    branches false false false r g (some x) = refl

find_in-sched :
    (f g : Family) (pid : ℕ) (ps : List ℕ) → f.pid ≡ g.pid → find_in f pid ps ≡ find_in g pid ps
unfolding find_in
find_in-sched f g pid [] e = refl
find_in-sched f g pid (p ∷ ps) e =
    ap (λ h. if h p == pid then p else find_in f pid ps) e
    ∙ ap (λ q. if g.pid p == pid then p else q) (find_in-sched f g pid ps e)

find_proc-sleep :
    (wait : ℕ) (s : Kpu) (pid : ℕ)
    → find_proc (sleep_current wait s).family pid ≡ find_proc s.family pid
unfolding find_proc sleep_current
find_proc-sleep wait s pid =
    ap (λ p. if ltb 0 pid && ltb pid max_pid then p else 0)
      (find_in-sched (sleep_current wait s).family s.family pid
        (s.family.hash_list (pid_hashfn pid)) refl)

is_zombie-sleep :
    (wait : ℕ) (s : Kpu) (p : ℕ)
    → is_zombie (s.family.sched.procs p).state ≡ false
    → is_zombie ((sleep_current wait s).family.sched.procs p).state ≡ false
unfolding sleep_current
is_zombie-sleep wait s p h = elim (Bool-cases (s.family.sched.current == p)) [
  | inl e ↦ rw e refl
  | inr e ↦ rw e h
]

-- Where each task has a process and the controller runs next, a read by a process that the kernel
-- knows and that is no zombie is answered by the state of the first task in the list that is the
-- process's own, or by `result_notexist` if it has none; the list does not change.
pub kpuio_read-told :
    (stale pid : ℕ) (s : Kpu)
    → HasProcs s.tasklist
    → find_proc s.family pid ≢ 0
    → is_zombie (s.family.sched.procs (find_proc s.family pid)).state ≡ false
    → (u : Kpu) × (kpuio_read (ctrl_round stale) pid s
        ≡ some (told (own_task s.family pid s.tasklist), u))
      × (u.tasklist ≡ s.tasklist)
unfolding kpuio_read dev_try_getresult ctrl_round wake_caller wakeup_proc sleep_current
kpuio_read-told stale pid s h f z =
    let answer = told (own_task s.family pid s.tasklist) in
    let r : Kpu = record s {
      kpuio_init = false;
      kpuio_check = true;
      caller_pid = pid;
      result = answer;
    } in
    let same = find_proc-sleep wt_kpu r pid in
    let some_proc : (find_proc (sleep_current wt_kpu r).family pid == 0) ≡ false =
      ap (λ p. p == 0) same ∙ ground (arith, f) in
    let alive : is_zombie
          ((sleep_current wt_kpu r).family.sched.procs
            (find_proc (sleep_current wt_kpu r).family pid)).state
        ≡ false =
      ap (λ p. is_zombie ((sleep_current wt_kpu r).family.sched.procs p).state) same
      ∙ is_zombie-sleep wt_kpu r (find_proc s.family pid) z in
    let asleep = sleep_current wt_kpu r in
    (
      record asleep {
        kpuio_init = false;
        kpuio_check = false;
        family = record asleep.family {
          sched = wake asleep.family.sched (find_proc asleep.family pid);
        };
      },
      rw (check_tasks-told s.family pid s.tasklist h) (rw (some_proc, alive) refl),
      refl,
    )

from_some : {A : Type 0} → A → Option A → A
from_some a none = a
from_some a (some x) = x

-- A task behind another of the same process changes nothing for it.
pub own_task-append :
    (f : Family) (pid : ℕ) (ts us : List Task) (r : ℕ × Task)
    → own_task f pid ts ≡ some r
    → own_task f pid (ts ++ us) ≡ some r
own_task-append f pid [] us r h = grind (arith, h)
own_task-append f pid (t ∷ ts) us r h = elim (Bool-cases (pid == f.pid t.proc)) [
  | inl e ↦ rw e (rw e at h)
  | inr e ↦ elim (Option-cases (own_task f pid ts)) [
    | inl q ↦ grind (arith, rw (e, q) at h)
    | inr (q, g) ↦ rw (e, own_task-append f pid ts us q g) (rw (e, g) at h)
  ]
]

own_task-change_task :
    (f : Family) (pid : ℕ) (g : Task → Task)
    → ((t : Task) → (g t).proc ≡ t.proc)
    → (ts : List Task) (r : ℕ × Task) → own_task f pid ts ≡ some r
    → own_task f pid (change_task g r.0 ts) ≡ some (r.0, g r.1)
unfolding change_task from_some
own_task-change_task f pid g k [] r h = grind (arith, h)
own_task-change_task f pid g k (t ∷ ts) r h = elim (Bool-cases (pid == f.pid t.proc)) [
  | inl e ↦
      let here : (pid == f.pid (g t).proc) ≡ true = rw (k t) e in
      subst (λ x. own_task f pid (change_task g x.0 (t ∷ ts)) ≡ some (x.0, g x.1))
        (ap (from_some r) (rw e at h)) (rw here refl)
  | inr e ↦ elim (Option-cases (own_task f pid ts)) [
    | inl q ↦ grind (arith, rw (e, q) at h)
    | inr (q, p) ↦
        subst (λ x. own_task f pid (change_task g x.0 (t ∷ ts)) ≡ some (x.0, g x.1))
          (ap (from_some r) (rw (e, p) at h)) (rw (e, own_task-change_task f pid g k ts q p) refl)
  ]
]

has_bit-set_bit_2 : (n : ℕ) → has_bit (set_bit n 2) 2 ≡ true
has_bit-set_bit_2 n = ground arith

has_bit-set_bit_8 : (n : ℕ) → has_bit (set_bit n 8) 8 ≡ true
has_bit-set_bit_8 n = ground arith

has_bit-clear_bit : (n : ℕ) → has_bit (clear_bit n 2) 2 ≡ false
has_bit-clear_bit n = ground arith

-- The bit of success does not change the one of running.
has_bit-set_bit_other : (n : ℕ) → has_bit n 2 ≡ false → has_bit (set_bit n 8) 2 ≡ false
has_bit-set_bit_other n h = ground (arith, h)

-- If the first task of a process is at position `i`, then its answer is `result_running` once the
-- thread of this task has begun, and `result_got` once it has ended, whatever flags the task had.
pub run_kpu-told :
    (pid : ℕ) (s : Kpu) (i : ℕ) (t : Task)
    → own_task s.family pid s.tasklist ≡ some (i, t)
    → (told (own_task s.family pid (run_kpu_begin i s).tasklist) ≡ result_running)
      × (told (own_task s.family pid (run_kpu_end i (run_kpu_begin i s)).tasklist) ≡ result_got)
unfolding run_kpu_begin run_kpu_end
run_kpu-told pid s i t h =
    let one =
      own_task-change_task s.family pid (λ t'. record t' { sflag = set_bit t'.sflag 2 })
        (λ t'. refl) s.tasklist (i, t) h in
    let two =
      own_task-change_task s.family pid
        (λ t'. record t' { sflag = set_bit (clear_bit t'.sflag 2) 8 }) (λ t'. refl) _ _ one in
    let n = clear_bit (set_bit t.sflag 2) 2 in
    let stopped = has_bit-set_bit_other n (has_bit-clear_bit (set_bit t.sflag 2)) in
    (
      ap told one ∙ rw (has_bit-set_bit_2 t.sflag) refl,
      ap told two ∙ rw (stopped, has_bit-set_bit_8 n) refl,
    )
