-- ===== src/Sem/Tests.antt =====
-- A semaphore that two processes wait for.
use oscmp.Base.{ℕ, ◌-◌, ◌≡◌, true, false, some, List, [], ◌∷◌, refl}
use oscmp.SkewHeap.{null}
use oscmp.Sched.{Sched, ProcState, is_runnable}
use oscmp.Sem.Defs.{Waiting, Sem, member, up, down_end}
use oscmp.Sem.HandOver.{up-down_end}

abbrev sleepers : Sched
sleepers = record {
  procs = λ _. record {
    state = ProcState.sleeping;
    wait_state = 0x100;
    need_resched = false;
    runs = 0;
    in_rq = false;
    time_slice = 0;
    stride = 0;
    priority = 1;
  };
  rq = record { pool = null; proc_num = 0; max_time_slice = 5 };
  current = 9;
  idleproc = 9;
}

-- Wait 100 + n is of process n.
abbrev waiting : List ℕ → Waiting
waiting ws = record {
  queue = ws;
  waits = λ w. record { proc = w - 100; wakeup_flags = 0 };
  sched = sleepers;
}

abbrev held : Sem
held = record { value = 0; waiting = waiting (101 ∷ 102 ∷ []) }

abbrev two_left : Sem
two_left = record { value = 2; waiting = waiting [] }

abbrev one_left : Sem
one_left = record { value = 1; waiting = waiting [] }

up-down_end_example :
    (s' : Sem) × (up held ≡ some s')
    × (s'.value ≡ 0)
    × (s'.waiting.queue ≡ 102 ∷ [])
    × (is_runnable (s'.waiting.sched.procs 1).state ≡ true)
    × ((s'' : Sem)
        → s''.waiting.waits 101 ≡ s'.waiting.waits 101
        → member 101 s''.waiting.queue ≡ false
        → down_end s'' 101 ≡ some s'')
up-down_end_example = up-down_end held 101 (102 ∷ []) refl refl refl
