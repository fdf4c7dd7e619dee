-- ===== src/Monitor/Defs.antt =====
-- kern/sync/monitor.c. A semaphore is its value here: `up` adds one, and `down` takes one, or blocks
-- while there is none. (Sem.antt hands a value over to the first waiter instead; each such run is one
-- of these, in which this waiter is the next to take it.) What a function does between two calls of
-- `down` is one function. A failed assertion is `none`, and so is a `down` that blocks.
use oscmp.Base.{
  ℕ, zero, suc, ◌+◌, ◌-◌, Bool, true, false, Option, none, some, List, ltb, if◌then◌else◌, assert,
  ◌>>=◌, get_elem?, set, replicate,
}

-- `condvar_t`
pub record Condvar : Type 0 where
  pub sem : ℕ
  pub count : ℕ

-- `monitor_t`
pub record Monitor : Type 0 where
  pub mutex : ℕ
  pub next : ℕ
  pub next_count : ℕ
  pub cv : List Condvar

unfoldable pub monitor_init : ℕ → Option Monitor
monitor_init num_cv = assert (ltb 0 num_cv) (
    some (record {
      mutex = 1;
      next = 0;
      next_count = 0;
      cv = replicate num_cv (record { sem = 0; count = 0 });
    }))

abbrev pub down : ℕ → Option ℕ
down zero = none
down (suc value) = some value

-- `down(&(mtp->mutex))` on the way into a routine of the monitor.
unfoldable pub enter : Monitor → Option Monitor
enter m = down m.mutex >>= λ v. some (record m { mutex = v })

-- `if (mtp->next_count > 0) up(&(mtp->next)); else up(&(mtp->mutex));`
unfoldable pub hand_on : Monitor → Monitor
hand_on m =
    if ltb 0 m.next_count then record m { next = m.next + 1 } else record m { mutex = m.mutex + 1 }

-- `cond_signal` up to `down(&(mtp->next))`: whether it gets there, and the monitor.
unfoldable pub cond_signal_start : ℕ → Monitor → Option (Bool × Monitor)
cond_signal_start c m = get_elem? m.cv c >>= λ v. some (
    if ltb 0 v.count
    then (
      true,
      record m { next_count = m.next_count + 1; cv = set m.cv c (record v { sem = v.sem + 1 }) },
    )
    else (false, m))

unfoldable pub cond_signal_end : Monitor → Option Monitor
cond_signal_end m = down m.next >>= λ v. some (record m { next = v; next_count = m.next_count - 1 })

-- `cond_wait` up to `down(&(cvp->sem))`.
unfoldable pub cond_wait_start : ℕ → Monitor → Option Monitor
cond_wait_start c m = get_elem? m.cv c >>= λ v.
    some (hand_on (record m { cv = set m.cv c (record v { count = v.count + 1 }) }))

unfoldable pub cond_wait_end : ℕ → Monitor → Option Monitor
cond_wait_end c m = get_elem? m.cv c >>= λ v. down v.sem >>= λ n.
    some (record m { cv = set m.cv c (record { sem = n; count = v.count - 1 }) })
