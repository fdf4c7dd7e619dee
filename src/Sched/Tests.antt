-- ===== src/Sched/Tests.antt =====
-- Runs of the stride scheduler, and the theorems about it at a concrete queue.
use oscmp.Base.{ℕ, ◌+◌, ◌-◌, ◌%◌, ◌^◌, ◌≡◌, refl, true, false, arith, some, update}
use oscmp.SkewHeap.{
  null, entry, is_minus, skew_heap_remove, skew_heap_insert, skew_heap_merge, skew_heap_init,
}
use oscmp.SkewHeap.Order.{IsOrdered, remove-IsOrdered}
use oscmp.Sched.Defs.{
  Proc, Sched, runnable, stride_sign, proc_stride_comp_f, schedule, yield_current, switch_to,
  sched_class_enqueue, stride_enqueue, stride_dequeue, stride_pick_next, run_next,
}
use oscmp.Sched.Stride.{InWindow, stride_sign-window, comp_total, comp_trans}
use oscmp.Sched.Invariant.{IsValid}
use oscmp.Sched.Schedule.{Runs, Scheduled, ready_before, schedule-Scheduled}

abbrev proc : ℕ → ℕ → Proc
proc stride priority = record {
  state = runnable;
  wait_state = 0;
  need_resched = false;
  runs = 0;
  in_rq = true;
  time_slice = 5;
  stride = stride;
  priority = priority;
}

-- Process 1 runs, 2 and 3 wait; the stride of 3 has wrapped at 2^32, and its unbounded stride is the greatest.
abbrev three : Sched
three = record {
  procs =
      update (update (update (λ _. proc 0 1) 1 (proc (2 ^ 32 - 40) 1)) 2 (proc (2 ^ 32 - 50) 4)) 3
        (proc 7 0);
  rq = record { pool = entry 2 (entry 3 null null) null; proc_num = 2; max_time_slice = 5 };
  current = 1;
  idleproc = 9;
}

abbrev unbounded : ℕ → ℕ
unbounded = update (update (update (λ _. 0) 1 (2 ^ 32 - 40)) 2 (2 ^ 32 - 50)) 3 (2 ^ 32 + 7)

-- `schedule` goes on with process 2, and 1 and 3 wait.
next_of_three : (s : Sched) × (schedule three ≡ some s) × (s.current ≡ 2) × (s.rq.proc_num ≡ 2)
unfolding schedule yield_current switch_to sched_class_enqueue stride_enqueue stride_dequeue
    stride_pick_next run_next skew_heap_insert skew_heap_init skew_heap_merge skew_heap_remove
    stride_sign
next_of_three = (_, refl, refl, refl)

three-IsValid : IsValid three unbounded (2 ^ 32 - 50)
unfolding stride_sign
three-IsValid = record {
  window = ground arith;
  ordered = ground arith;
  ready = ground arith;
  once = λ k. ground arith;
  counted = refl;
  few = omega arith;
}

three-Runs : Runs three unbounded (2 ^ 32 - 50)
three-Runs = record { out = refl; window = λ _ _. ground arith }

schedule-Scheduled_example :
    (s : Sched) × (g : ℕ → ℕ) × (base : ℕ) × (schedule three ≡ some s)
    × (s.idleproc ≡ 9)
    × Scheduled (ready_before three) unbounded s g base
schedule-Scheduled_example =
    schedule-Scheduled three unbounded (2 ^ 32 - 50) three-IsValid three-Runs (omega arith)

stride_sign-window_example :
    is_minus (stride_sign ((2 ^ 32 - 50) % 2 ^ 32) ((2 ^ 32 + 7) % 2 ^ 32)) ≡ true
stride_sign-window_example =
    stride_sign-window (2 ^ 32 - 50) (2 ^ 32 - 50) (2 ^ 32 + 7) (omega arith) (omega arith)
      (omega arith) (omega arith)

remove-IsOrdered_example :
    IsOrdered
      (proc_stride_comp_f three.procs)
      (skew_heap_remove (proc_stride_comp_f three.procs) three.rq.pool 2)
remove-IsOrdered_example =
    remove-IsOrdered (proc_stride_comp_f three.procs) (InWindow three.procs unbounded (2 ^ 32 - 50))
      (comp_total three.procs unbounded (2 ^ 32 - 50))
      (comp_trans three.procs unbounded (2 ^ 32 - 50)) three.rq.pool 2 three-IsValid.window
      three-IsValid.ordered
