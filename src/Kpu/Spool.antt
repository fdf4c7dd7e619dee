-- ===== src/Kpu/Spool.antt =====
-- kern/fs/devs/kpu_spooling.c. `kmalloc` and `kernel_thread` succeed; a failed assertion, a panic and an
-- access outside of an array or a block is `none`.
use oscmp.Base.{
  ℕ, zero, suc, ◌+◌, ◌%◌, not, ◌&&◌, Option, none, some, List, [], ◌∷◌, ◌++◌, ltb, leb, ◌==◌,
  if◌then◌else◌, assert, ◌>>=◌, update, ℤ, pos, negsuc, length, get_elem?, take, drop,
}
use oscmp.Sched.{ProcState, wakeup_proc}
use oscmp.Process.{Family, find_proc}
use oscmp.Kpu.Defs.{
  max_tasknum, init_state_bit, running_state_bit, success_state_bit, result_got, result_running,
  result_waiting, result_notexist, Task, set_bit, clear_bit, is_running, is_success, Kpu, little,
  is_neg, is_int,
}

-- `buff->totsize` and `buff->jpgsize` in bytes.
abbrev pub totsize : List ℕ → ℕ
totsize bs = little (take 8 (drop 16 bs))

abbrev pub jpgsize : List ℕ → ℕ
jpgsize bs = little (take 8 (drop 24 bs))

-- The loop of `add_kpu_task` over the first `n` blocks.
unfoldable pub gather : ℕ → List (List ℕ) → List ℕ → Option (List ℕ)
gather zero bufs lens = some []
gather (suc n) [] lens = none
gather (suc n) (b ∷ bufs) [] = none
gather (suc n) (b ∷ bufs) (l ∷ lens) =
    assert (leb l (length b)) (gather n bufs lens >>= λ rest. some (take l b ++ rest))

unfoldable pub clear_lens : ℕ → List ℕ → List ℕ
clear_lens zero lens = lens
clear_lens (suc n) [] = []
clear_lens (suc n) (l ∷ lens) = 0 ∷ clear_lens n lens

-- `offsetof(kpu_buff, jpeg) + sizeof(uintptr_t)`
abbrev pub jpeg_offset : ℕ
jpeg_offset = 48

-- Bytes 40 to 47 of the buffer are the field `jpeg` of `kpu_buff`, which is kept apart from `input`.
-- `stale` is what the memory of the task holds before: only `task_init` writes `sflag`.
abbrev pub new_task : ℕ → List ℕ → ℕ → ℕ → Task
new_task stale input id proc = record {
  sflag = set_bit stale init_state_bit;
  id = id;
  input = input;
  jpeg = jpeg_offset;
  proc = proc;
}

-- `add_kpu_task` from the comparison of `totsize` on, with the whole buffer.
unfoldable pub add_buff : ℕ → ℕ → List ℕ → Kpu → Option (ℕ × Kpu)
add_buff stale callerpid buff s =
    let id = (s.maxid + 1) % max_tasknum in
    assert (leb jpeg_offset (length buff) && is_int s.totlength (totsize buff)) (
      if ltb 0 (jpgsize buff)
      then some (
        id,
        record s {
          maxid = id;
          tasklist = s.tasklist ++ (new_task stale buff id (find_proc s.family callerpid) ∷ []);
        },
      )
      else some (99, s))

unfoldable pub add_kpu_task : ℕ → ℕ → Kpu → Option (ℕ × Kpu)
add_kpu_task stale callerpid s = assert (not (is_neg s.totlength) && not (is_int s.totlength 0)) (
    gather s.numblock s.bufs s.lens >>= λ buff.
    assert (is_int s.totlength (length buff))
      (add_buff stale callerpid buff (record s { lens = clear_lens s.numblock s.lens })))

-- The position of the first task with an identifier, counted from `i`.
unfoldable pub find_task : ℕ → ℕ → List Task → Option ℕ
find_task i id [] = none
find_task i id (t ∷ ts) = if t.id == id then some i else find_task (i + 1) id ts

unfoldable pub try_run_task : ℕ → Kpu → Option (ℤ × Kpu)
try_run_task taskid s = elim (find_task 0 taskid s.tasklist) [
  | none ↦ some (negsuc 0, s)
  | some i ↦ get_elem? s.tasklist i >>= λ t.
      assert (not (t.proc == 0))
        (some (pos (s.family.pid t.proc), record s { started = s.started ++ (i ∷ []) }))
]

-- The loop of `try_check_result`.
unfoldable pub check_tasks : Family → ℕ → List Task → Option ℤ
check_tasks f pid [] = some result_notexist
check_tasks f pid (t ∷ ts) =
    let own = pid == f.pid t.proc in
    let rest = check_tasks f pid ts in
    assert (not (t.proc == 0)) (
      if not (is_running t) && is_success t && own
      then some result_got
      else if is_running t
      then (if own then some result_running else rest)
      else if own
      then some result_waiting
      else rest)

abbrev pub try_check_result : ℕ → Kpu → Option ℤ
try_check_result pid s = check_tasks s.family pid s.tasklist

abbrev pub wt_kpu : ℕ
wt_kpu = 0x80000008

abbrev pub wt_kpu_init : ℕ
wt_kpu_init = 0x80000010

unfoldable pub sleep_current : ℕ → Kpu → Kpu
sleep_current wait s =
    let t = s.family.sched in
    record s {
      family = record s.family {
        sched = record t {
          procs =
              update t.procs t.current
                (record (t.procs t.current) { state = ProcState.sleeping; wait_state = wait });
        };
      };
    }

-- `wakeup_proc(find_proc(caller_pid))`
unfoldable pub wake_caller : Kpu → Option Kpu
wake_caller s =
    let p = find_proc s.family s.caller_pid in
    assert (not (p == 0)) (
      wakeup_proc s.family.sched p >>= λ t.
      some (record s { family = record s.family { sched = t } }))

-- A round of `kpu_task_ctrl`, between two calls of `schedule`.
unfoldable pub ctrl_round : ℕ → Kpu → Option Kpu
ctrl_round stale s =
    if s.kpuio_init && not s.kpuio_check
    then ((if ltb 2 s.caller_pid
          then (add_kpu_task stale s.caller_pid s >>= λ r.
              try_run_task r.0 r.1 >>= λ u. wake_caller u.1)
          else some s)
        >>= λ u. some (sleep_current wt_kpu_init u))
    else if s.kpuio_check && not s.kpuio_init
    then (try_check_result s.caller_pid s >>= λ status.
        wake_caller (sleep_current wt_kpu (record s { result = status })))
    else some (sleep_current wt_kpu s)

-- The two parts of `run_kpu`, the thread of the task at position `i`, inside the semaphore.
unfoldable pub change_task : (Task → Task) → ℕ → List Task → List Task
change_task f i [] = []
change_task f zero (t ∷ ts) = f t ∷ ts
change_task f (suc i) (t ∷ ts) = t ∷ change_task f i ts

unfoldable pub run_kpu_begin : ℕ → Kpu → Kpu
run_kpu_begin i s = record s {
  tasklist = change_task (λ t. record t { sflag = set_bit t.sflag running_state_bit }) i s.tasklist;
}

unfoldable pub run_kpu_end : ℕ → Kpu → Kpu
run_kpu_end i s = record s {
  tasklist =
      change_task
        (λ t. record t { sflag = set_bit (clear_bit t.sflag running_state_bit) success_state_bit })
        i s.tasklist;
}
