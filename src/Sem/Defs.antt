-- ===== src/Sem/Defs.antt =====
-- kern/sync/wait.c and sem.c. A wait is the address of its `wait_t`; the queue is the sequence of
-- waits that its list holds, first to last. Interrupts are off inside each step; `down` is two
-- steps, around the call of `schedule`. A failed assertion is `none`. The value of a semaphore is
-- an int that starts at 0 or above, and only falls where it is positive.
use oscmp.Base.{
  ℕ, ◌+◌, ◌-◌, Bool, true, false, not, ◌&&◌, ◌||◌, Option, none, some, List, [], ◌∷◌, ◌++◌, ltb,
  ◌==◌, if◌then◌else◌, assert, update, ◌>>=◌,
}
use oscmp.Sched.{Sched, ProcState, wakeup_proc, schedule}

abbrev pub wt_interrupted : ℕ
wt_interrupted = 0x80000000

abbrev pub wt_ksem : ℕ
wt_ksem = 0x100

-- `wait_t`; the pointer `wait_queue` is the membership in the queue.
pub record Wait : Type 0 where
  pub proc : ℕ
  pub wakeup_flags : ℕ

-- The queue, the waits and the processes.
pub record Waiting : Type 0 where
  pub queue : List ℕ
  pub waits : ℕ → Wait
  pub sched : Sched

unfoldable pub member : ℕ → List ℕ → Bool
member w [] = false
member w (x ∷ xs) = w == x || member w xs

unfoldable pub remove : ℕ → List ℕ → List ℕ
remove w [] = []
remove w (x ∷ xs) = if w == x then xs else x ∷ remove w xs

abbrev pub wait_in_queue : Waiting → ℕ → Bool
wait_in_queue s w = member w s.queue

abbrev pub wait_queue_empty : Waiting → Bool
wait_queue_empty s = elim s.queue [ [] ↦ true | w ∷ ws ↦ false ]

abbrev pub first_of : List ℕ → Option ℕ
first_of [] = none
first_of (w ∷ ws) = some w

abbrev pub wait_queue_first : Waiting → Option ℕ
wait_queue_first s = first_of s.queue

unfoldable pub wait_queue_add : Waiting → ℕ → Option Waiting
wait_queue_add s w =
    assert (not (wait_in_queue s w) && not ((s.waits w).proc == 0))
      (some (record s { queue = s.queue ++ (w ∷ []) }))

unfoldable pub wait_queue_del : Waiting → ℕ → Option Waiting
wait_queue_del s w = assert (wait_in_queue s w) (some (record s { queue = remove w s.queue }))

-- From `wait->wakeup_flags = wakeup_flags` on.
unfoldable pub signal : Waiting → ℕ → ℕ → Option Waiting
signal s w flags = wakeup_proc s.sched (s.waits w).proc >>= λ t.
    some (record s {
      waits = update s.waits w (record (s.waits w) { wakeup_flags = flags });
      sched = t;
    })

unfoldable pub wakeup_wait : Waiting → ℕ → ℕ → Bool → Option Waiting
wakeup_wait s w flags del = (if del then wait_queue_del s w else some s) >>= λ s'. signal s' w flags

abbrev pub wakeup_found : Option ℕ → Waiting → ℕ → Bool → Option Waiting
wakeup_found none s flags del = some s
wakeup_found (some w) s flags del = wakeup_wait s w flags del

unfoldable pub wakeup_first : Waiting → ℕ → Bool → Option Waiting
wakeup_first s flags del = wakeup_found (wait_queue_first s) s flags del

-- The loops of `wakeup_queue`: both visit the waits that the queue held at the call.
unfoldable pub wakeup_each : List ℕ → Waiting → ℕ → Bool → Option Waiting
wakeup_each [] s flags del = some s
wakeup_each (w ∷ ws) s flags del = wakeup_wait s w flags del >>= λ s'. wakeup_each ws s' flags del

unfoldable pub wakeup_queue : Waiting → ℕ → Bool → Option Waiting
wakeup_queue s flags del = wakeup_each s.queue s flags del

abbrev pub wait_init : ℕ → Wait
wait_init proc = record { proc = proc; wakeup_flags = wt_interrupted }

-- The wait is a new one, on the stack of the caller.
unfoldable pub wait_current_set : Waiting → ℕ → ℕ → Option Waiting
wait_current_set s w state =
    let current = s.sched.current in
    assert (not (current == 0)) (
      wait_queue_add
        (record s {
          waits = update s.waits w (wait_init current);
          sched = record s.sched {
            procs =
                update s.sched.procs current (record (s.sched.procs current) {
                  state = ProcState.sleeping;
                  wait_state = state;
                });
          };
        })
        w)

unfoldable pub wait_current_del : Waiting → ℕ → Option Waiting
wait_current_del s w = if wait_in_queue s w then wait_queue_del s w else some s

-- `semaphore_t`, with the rest of the state.
pub record Sem : Type 0 where
  pub value : ℕ
  pub waiting : Waiting

abbrev pub sem_init : Waiting → ℕ → Sem
sem_init s n = record { value = n; waiting = record s { queue = [] } }

-- The branches of `__up`.
abbrev pub up_found : Option ℕ → Sem → ℕ → Option Sem
up_found none s state = some (record s { value = s.value + 1 })
up_found (some w) s state =
    assert ((s.waiting.sched.procs (s.waiting.waits w).proc).wait_state == state)
      (wakeup_wait s.waiting w state true >>= λ t. some (record s { waiting = t }))

unfoldable pub up : Sem → Option Sem
up s = up_found (wait_queue_first s.waiting) s wt_ksem

-- `__down` up to and with the call of `schedule`: whether it returns 0 at once, and the state.
unfoldable pub down_start : Sem → ℕ → Option (Bool × Sem)
down_start s w =
    if ltb 0 s.value
    then some (true, record s { value = s.value - 1 })
    else (wait_current_set s.waiting w wt_ksem >>= λ t.
        schedule t.sched >>= λ p. some (false, record s { waiting = record t { sched = p } }))

-- `__down` after `schedule` has come back to the caller, with the `assert(flags == 0)` of `down`.
unfoldable pub down_end : Sem → ℕ → Option Sem
down_end s w = wait_current_del s.waiting w >>= λ t.
    assert ((if (t.waits w).wakeup_flags == wt_ksem then 0 else (t.waits w).wakeup_flags) == 0)
      (some (record s { waiting = t }))

unfoldable pub try_down : Sem → Bool × Sem
try_down s = if ltb 0 s.value then (true, record s { value = s.value - 1 }) else (false, s)
