-- ===== src/Monitor/Threads.antt =====
-- Any number of threads at the functions of kern/sync/monitor.c, in any order.
use oscmp.Base.{ℕ, ◌≡◌, Bool, true, false, Option, some, List, ◌>>=◌, get_elem?, set, replicate}
use oscmp.Monitor.Defs.{
  Monitor, monitor_init, enter, hand_on, cond_signal_start, cond_signal_end, cond_wait_start,
  cond_wait_end,
}

-- Where a thread is: outside of the monitor, inside, in `cond_signal` at its `down`, or in
-- `cond_wait` of a condition variable at its `down`.
pub data Place : Type 0 where
  outside inside signalling : Place
  waiting : ℕ → Place

pub record System : Type 0 where
  pub monitor : Monitor
  pub threads : List Place

-- What a thread inside of the monitor does next.
pub data Choice : Type 0 where
  leaves : Choice
  signals waits : ℕ → Choice

abbrev pub moved : ℕ → Place → System → Monitor → Option System
moved i p s m = some (record { monitor = m; threads = set s.threads i p })

abbrev pub after_signal : ℕ → System → Bool × Monitor → Option System
after_signal i s (true, m) = moved i signalling s m
after_signal i s (false, m) = moved i inside s m

-- The step of thread `i`, from where it is; the choice counts inside of the monitor only.
abbrev pub act : ℕ → Choice → Place → System → Option System
act i k outside s = enter s.monitor >>= moved i inside s
act i leaves inside s = moved i outside s (hand_on s.monitor)
act i (signals c) inside s = cond_signal_start c s.monitor >>= after_signal i s
act i (waits c) inside s = cond_wait_start c s.monitor >>= moved i (waiting c) s
act i k signalling s = cond_signal_end s.monitor >>= moved i inside s
act i k (waiting c) s = cond_wait_end c s.monitor >>= moved i inside s

unfoldable pub step : ℕ → Choice → System → Option System
step i k s = get_elem? s.threads i >>= λ p. act i k p s

-- What a monitor and its threads can come to from `monitor_init` on.
pub data Reach (num_cv num_threads : ℕ) : System → Type 0 where
  start :
      (m : Monitor)
      → monitor_init num_cv ≡ some m
      → Reach num_cv num_threads (record { monitor = m; threads = replicate num_threads outside })
  then_step :
      (i : ℕ) (k : Choice) (s t : System)
      → Reach num_cv num_threads s
      → step i k s ≡ some t
      → Reach num_cv num_threads t
