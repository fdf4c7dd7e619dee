-- ===== src/Timer/Tests.antt =====
-- The theorems about the timer list at a concrete list.
use oscmp.Base.{ℕ, ◌+◌, ◌≡◌, true, false, arith, some, List, [], ◌∷◌}
use oscmp.SkewHeap.{null}
use oscmp.Sched.{Sched, ProcState, is_runnable}
use oscmp.Timer.Defs.{Timer, run_timer_list}
use oscmp.Timer.Due.{due}
use oscmp.Timer.Tick.{AllWakeable, after_tick, proc_of, run_timer_list-tick}

abbrev timer : ℕ → ℕ → Timer
timer k n = record { link = k; expires = n; proc = k + 10 }

-- Two timers that are up in one tick, and one in four.
abbrev timers : List Timer
timers = timer 1 1 ∷ timer 2 0 ∷ timer 3 3 ∷ []

abbrev sleepers : Sched
sleepers = record {
  procs = λ _. record {
    state = ProcState.sleeping;
    wait_state = 0x80000002;
    need_resched = false;
    runs = 0;
    in_rq = false;
    time_slice = 0;
    stride = 0;
    priority = 1;
  };
  rq = record { pool = null; proc_num = 0; max_time_slice = 5 };
  current = 9;
  idleproc = 9;
}

sleepers-AllWakeable : AllWakeable sleepers timers
sleepers-AllWakeable = ground arith

run_timer_list-tick_example :
    (s : Sched) × (ts : List Timer) × (run_timer_list sleepers timers ≡ some (s, ts))
    × ((k : ℕ) → due k ts ≡ after_tick (due k timers))
    × ((k p : ℕ)
        → proc_of k timers ≡ some p
        → due k timers ≡ some 1
        → is_runnable (s.procs p).state ≡ true)
run_timer_list-tick_example =
    run_timer_list-tick sleepers (timer 1 1) (timer 2 0 ∷ timer 3 3 ∷ []) sleepers-AllWakeable
      (omega arith) (omega arith)
