-- ===== src/Monitor/Reachable.antt =====
-- The invariant holds wherever the threads at the functions of kern/sync/monitor.c get to.
use oscmp.Base.{
  ℕ, zero, suc, ◌≡◌, refl, Bool, true, false, some, get_elem?, set, replicate, total-replicate,
  bind_some, arith,
}
use oscmp.Monitor.Defs.{
  Monitor, Condvar, monitor_init, enter, hand_on, cond_signal_start, cond_signal_end,
  cond_wait_start, cond_wait_end,
}
use oscmp.Monitor.Threads.{
  Place, outside, inside, signalling, waiting, System, Choice, leaves, signals, waits, moved,
  after_signal, act, step, Reach, start, then_step,
}
use oscmp.Monitor.Invariant.{
  IsValid, is_inside, is_signalling, waits_for, sem_of, enter-IsValid, hand_on-IsValid,
  cond_signal_start-IsValid, cond_signal_end-IsValid, cond_wait_start-IsValid,
  cond_wait_end-IsValid, stays-IsValid,
}

-- The system that the move of a thread gives.
arrive :
    (i : ℕ) (q : Place) (s t : System) (u : Monitor)
    → IsValid u (set s.threads i q)
    → moved i q s u ≡ some t
    → IsValid t.monitor t.threads
arrive i q s t u v e = ground (arith, v)

cond_signal_start_kept : (c : ℕ) (m u : Monitor) → cond_signal_start c m ≡ some (false, u) → m ≡ u
unfolding cond_signal_start
cond_signal_start_kept c m u e =
    let (v, f, r) = bind_some (get_elem? m.cv c) _ (false, u) e in ground (arith, r)

signal-IsValid :
    (i c : ℕ) (s t : System) (r : Bool × Monitor)
    → get_elem? s.threads i ≡ some inside
    → IsValid s.monitor s.threads
    → cond_signal_start c s.monitor ≡ some r
    → after_signal i s r ≡ some t
    → IsValid t.monitor t.threads
signal-IsValid i c s t (true, u) at h f e =
    arrive i signalling s t u (cond_signal_start-IsValid s.threads i s.monitor u h c at f) e
signal-IsValid i c s t (false, u) at h f e =
    arrive i inside s t u
      (rw (← (cond_signal_start_kept c s.monitor u f))
        (stays-IsValid s.threads i s.monitor s.monitor h at))
      e

act-IsValid :
    (i : ℕ) (k : Choice) (p : Place) (s t : System)
    → get_elem? s.threads i ≡ some p
    → act i k p s ≡ some t
    → IsValid s.monitor s.threads
    → IsValid t.monitor t.threads
act-IsValid i k outside s t at e h =
    let (u, f, r) = bind_some (enter s.monitor) (moved i inside s) t e in
    arrive i inside s t u (enter-IsValid s.threads i s.monitor u h at f) r
act-IsValid i leaves inside s t at e h =
    arrive i outside s t (hand_on s.monitor) (hand_on-IsValid s.threads i s.monitor s.monitor h at)
      e
act-IsValid i (signals c) inside s t at e h =
    let (r, f, g) = bind_some (cond_signal_start c s.monitor) (after_signal i s) t e in
    signal-IsValid i c s t r at h f g
act-IsValid i (waits c) inside s t at e h =
    let (u, f, r) = bind_some (cond_wait_start c s.monitor) (moved i (waiting c) s) t e in
    arrive i (waiting c) s t u (cond_wait_start-IsValid s.threads i s.monitor u h c at f) r
act-IsValid i k signalling s t at e h =
    let (u, f, r) = bind_some (cond_signal_end s.monitor) (moved i inside s) t e in
    arrive i inside s t u (cond_signal_end-IsValid s.threads i s.monitor u h at f) r
act-IsValid i k (waiting c) s t at e h =
    let (u, f, r) = bind_some (cond_wait_end c s.monitor) (moved i inside s) t e in
    arrive i inside s t u (cond_wait_end-IsValid s.threads i s.monitor u h c at f) r

-- A condition variable of a new monitor is new.
get_elem?-replicate : (n c : ℕ) (v w : Condvar) → get_elem? (replicate n v) c ≡ some w → w ≡ v
get_elem?-replicate zero c v w e = ground (arith, e)
get_elem?-replicate (suc n) zero v w e = ground (arith, e)
get_elem?-replicate (suc n) (suc c) v w e = get_elem?-replicate n c v w e

monitor_init-IsValid :
    (num_cv n : ℕ) (m : Monitor) → monitor_init num_cv ≡ some m → IsValid m (replicate n outside)
unfolding monitor_init
monitor_init-IsValid num_cv n m e =
    let new : Condvar = record { sem = 0; count = 0 } in
    let a = total-replicate is_inside n outside refl in
    let b = total-replicate is_signalling n outside refl in
    let d = total-replicate sem_of num_cv new refl in
    record {
      one = ground (arith, e);
      nexts = ground (arith, e);
      owed = ground (arith, e);
      free = ground (arith, e);
      counts = λ c v f. ground (
        arith,
        get_elem?-replicate num_cv c new v,
        e,
        total-replicate (waits_for c) n outside refl,
      );
    }

pub Reach-IsValid : {num_cv n : ℕ} {s : System} → Reach num_cv n s → IsValid s.monitor s.threads
unfolding step
Reach-IsValid (start m e) = monitor_init-IsValid _ _ m e
Reach-IsValid (then_step i k s t r e) =
    let (p, at, f) = bind_some (get_elem? s.threads i) _ t e in
    act-IsValid i k p s t at f (Reach-IsValid r)
