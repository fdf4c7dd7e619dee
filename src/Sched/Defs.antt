-- ===== src/Sched/Defs.antt =====
-- kern/schedule/default_sched_stride.c and the scheduling core of kern/schedule/sched.c. A process is
-- the address of its `proc_struct`; the run pool holds those addresses. Interrupts are off from
-- `local_intr_save` to `local_intr_restore`, so each function is one step. A failed assertion is
-- `none`. `proc_run` is the change of `current`; the switch of stacks and page tables is not modelled.
use oscmp.Base.{
  ℕ, ◌+◌, ◌-◌, ◌/◌, ◌%◌, ◌^◌, Bool, true, false, not, ◌&&◌, ◌||◌, Option, none, some, ltb, ◌==◌,
  if◌then◌else◌, assert, update, ◌>>=◌,
}
use oscmp.SkewHeap.{Sign, minus, zero, plus, Heap, null, entry, skew_heap_insert, skew_heap_remove}

-- `enum proc_state`
pub data ProcState : Type 0 where
  uninit sleeping runnable zombie : ProcState

abbrev pub is_runnable : ProcState → Bool
is_runnable runnable = true
is_runnable _ = false

abbrev pub is_zombie : ProcState → Bool
is_zombie zombie = true
is_zombie _ = false

-- The part of `struct proc_struct` that the scheduler reads and writes. `in_rq` is `rq == &__rq`;
-- `time_slice` is an int that is only set to a positive number and counted down to 0.
pub record Proc : Type 0 where
  pub state : ProcState
  pub wait_state : ℕ
  pub need_resched : Bool
  pub runs : ℕ
  pub in_rq : Bool
  pub time_slice : ℕ
  pub stride : ℕ
  pub priority : ℕ

-- `struct run_queue`
pub record RunQueue : Type 0 where
  pub pool : Heap
  pub proc_num : ℕ
  pub max_time_slice : ℕ

pub record Sched : Type 0 where
  pub procs : ℕ → Proc
  pub rq : RunQueue
  pub current : ℕ
  pub idleproc : ℕ

abbrev pub big_stride : ℕ
big_stride = 2 ^ 30

abbrev pub max_time_slice : ℕ
max_time_slice = 5

abbrev pub u32 : ℕ → ℕ
u32 n = n % 2 ^ 32

-- `int32_t c = p->lab6_stride - q->lab6_stride;` and the three cases of its sign.
unfoldable pub stride_sign : ℕ → ℕ → Sign
stride_sign p q =
    let c = (p + 2 ^ 32 - q) % 2 ^ 32 in
    if c == 0 then zero else if ltb c (2 ^ 31) then plus else minus

abbrev pub proc_stride_comp_f : (ℕ → Proc) → ℕ → ℕ → Sign
proc_stride_comp_f procs a b = stride_sign (procs a).stride (procs b).stride

abbrev pub edit : (ℕ → Proc) → ℕ → (Proc → Proc) → ℕ → Proc
edit procs p f = update procs p (f (procs p))

unfoldable pub stride_init : RunQueue → RunQueue
stride_init rq = record rq { pool = null; proc_num = 0 }

unfoldable pub stride_enqueue : Sched → ℕ → Sched
stride_enqueue s p =
    let slice = (s.procs p).time_slice in
    let full = slice == 0 || ltb s.rq.max_time_slice slice in
    record s {
      procs = edit s.procs p (λ q. record q {
        time_slice = if full then s.rq.max_time_slice else slice;
        in_rq = true;
      });
      rq = record s.rq {
        pool = skew_heap_insert (proc_stride_comp_f s.procs) s.rq.pool p;
        proc_num = u32 (s.rq.proc_num + 1);
      };
    }

unfoldable pub stride_dequeue : Sched → ℕ → Option Sched
stride_dequeue s p = assert ((s.procs p).in_rq && ltb 0 s.rq.proc_num) (
    some (record s {
      rq = record s.rq {
        pool = skew_heap_remove (proc_stride_comp_f s.procs) s.rq.pool p;
        proc_num = s.rq.proc_num - 1;
      };
    }))

-- What `stride_pick_next` adds to the stride of the process that it picks.
abbrev pub pass : Proc → ℕ
pass p = if p.priority == 0 then big_stride else big_stride / p.priority

abbrev pub pick_from : Sched → Heap → Option ℕ × Sched
pick_from s null = (none, s)
pick_from s (entry p l r) = (
  some p,
  record s { procs = edit s.procs p (λ q. record q { stride = u32 (q.stride + pass q) }) },
)

unfoldable pub stride_pick_next : Sched → Option ℕ × Sched
stride_pick_next s = pick_from s s.rq.pool

unfoldable pub stride_proc_tick : Sched → ℕ → Sched
stride_proc_tick s p =
    let left = (s.procs p).time_slice - 1 in
    record s {
      procs = edit s.procs p (λ q. record q {
        time_slice = left;
        need_resched = if left == 0 then true else q.need_resched;
      });
    }

unfoldable pub sched_class_enqueue : Sched → ℕ → Sched
sched_class_enqueue s p = if p == s.idleproc then s else stride_enqueue s p

unfoldable pub sched_class_proc_tick : Sched → ℕ → Sched
sched_class_proc_tick s p =
    if p == s.idleproc
    then record s { procs = edit s.procs p (λ q. record q { need_resched = true }) }
    else stride_proc_tick s p

unfoldable pub sched_init : Sched → Sched
sched_init s = record s { rq = stride_init (record s.rq { max_time_slice = max_time_slice }) }

-- `wakeup_proc` behind its assertion. (Of a runnable process it only prints a warning.)
unfoldable pub wake : Sched → ℕ → Sched
wake s p =
    let woken : Sched = record s {
      procs = edit s.procs p (λ q. record q { state = runnable; wait_state = 0 });
    } in
    if is_runnable (s.procs p).state
    then s
    else if p == s.current
    then woken
    else sched_class_enqueue woken p

unfoldable pub wakeup_proc : Sched → ℕ → Option Sched
wakeup_proc s p = assert (not (is_zombie (s.procs p).state)) (some (wake s p))

-- `next->runs ++` and `proc_run(next)`.
unfoldable pub run_next : Sched → ℕ → Sched
run_next s next = record s {
  procs = edit s.procs next (λ q. record q { runs = q.runs + 1 });
  current = next;
}

-- `schedule` up to the call of `sched_class_enqueue`.
unfoldable pub yield_current : Sched → Sched
yield_current s =
    let s₁ : Sched = record s {
      procs = edit s.procs s.current (λ q. record q { need_resched = false });
    } in
    if is_runnable (s.procs s.current).state then sched_class_enqueue s₁ s.current else s₁

-- `schedule` from the result of `sched_class_pick_next` on.
unfoldable pub switch_to : Option ℕ × Sched → Option Sched
switch_to (none, s) = some (run_next s s.idleproc)
switch_to (some next, s) = stride_dequeue s next >>= λ s'. some (run_next s' next)

unfoldable pub schedule : Sched → Option Sched
schedule s = switch_to (stride_pick_next (yield_current s))
