-- ===== src/Philosophers/Defs.antt =====
-- kern/sync/check_sync.c, the philosophers by semaphores: five threads, each of them at some place
-- in philosopher_using_semaphore, and any of them takes the next step. A step is one statement of
-- phi_take_forks_sema or phi_put_forks_sema; `none` is a `down` that blocks. do_sleep changes
-- nothing here.
use oscmp.Base.{
  ℕ, zero, suc, ◌+◌, ◌-◌, ◌%◌, ◌<◌, ◌==◌, ltb, ◌≡◌, not, ◌&&◌, Option, none, some, if◌then◌else◌,
  ◌>>=◌, update,
}

abbrev pub n_philosophers : ℕ
n_philosophers = 5

abbrev pub times : ℕ
times = 4

abbrev pub thinking : ℕ
thinking = 0

abbrev pub hungry : ℕ
hungry = 1

abbrev pub eating : ℕ
eating = 2

unfoldable pub left : ℕ → ℕ
left i = (i + n_philosophers - 1) % n_philosophers

unfoldable pub right : ℕ → ℕ
right i = (i + 1) % n_philosophers

-- What a philosopher has done last.
pub data Place : Type 0 where
  slept : Place
  take_locked take_hungry take_tested take_unlocked : Place
  has_forks : Place
  put_locked put_thinking put_left put_right : Place
  has_quit : Place

pub record Table : Type 0 where
  pub state_sema : ℕ → ℕ
  pub mutex : ℕ
  pub s : ℕ → ℕ
  pub place : ℕ → Place
  pub iter : ℕ → ℕ

unfoldable pub phi_test_sema : ℕ → Table → Table
phi_test_sema i t =
    if t.state_sema i == hungry
      && not (t.state_sema (left i) == eating)
      && not (t.state_sema (right i) == eating)
    then record t { state_sema = update t.state_sema i eating; s = update t.s i (t.s i + 1) }
    else t

-- `down` of a semaphore: its new value.
abbrev pub down : ℕ → Option ℕ
down zero = none
down (suc value) = some value

abbrev pub goes : ℕ → Place → Table → Table
goes i p t = record t { place = update t.place i p }

abbrev pub lock : ℕ → Place → Table → Option Table
lock i p t = down t.mutex >>= λ v. some (record (goes i p t) { mutex = v })

abbrev pub unlock : ℕ → Place → Table → Table
unlock i p t = record (goes i p t) { mutex = t.mutex + 1 }

abbrev pub set_state : ℕ → ℕ → Table → Table
set_state i v t = record t { state_sema = update t.state_sema i v }

-- `while(iter++<TIMES)`, and the first `down` of phi_take_forks_sema.
abbrev pub next_iter : ℕ → Table → Option Table
next_iter i t =
    let n = record t { iter = update t.iter i (t.iter i + 1) } in
    if ltb (t.iter i) times then lock i take_locked n else some (goes i has_quit n)

abbrev pub phi_take_forks_sema : ℕ → Place → Table → Option Table
phi_take_forks_sema i take_locked t = some (goes i take_hungry (set_state i hungry t))
phi_take_forks_sema i take_hungry t = some (goes i take_tested (phi_test_sema i t))
phi_take_forks_sema i take_tested t = some (unlock i take_unlocked t)
phi_take_forks_sema i take_unlocked t =
    down (t.s i) >>= λ v. some (record (goes i has_forks t) { s = update t.s i v })
phi_take_forks_sema i _ t = none

abbrev pub phi_put_forks_sema : ℕ → Place → Table → Option Table
phi_put_forks_sema i has_forks t = lock i put_locked t
phi_put_forks_sema i put_locked t = some (goes i put_thinking (set_state i thinking t))
phi_put_forks_sema i put_thinking t = some (goes i put_left (phi_test_sema (left i) t))
phi_put_forks_sema i put_left t = some (goes i put_right (phi_test_sema (right i) t))
phi_put_forks_sema i put_right t = some (unlock i slept t)
phi_put_forks_sema i _ t = none

abbrev pub philosopher : ℕ → Place → Table → Option Table
philosopher i slept t = next_iter i t
philosopher i take_locked t = phi_take_forks_sema i take_locked t
philosopher i take_hungry t = phi_take_forks_sema i take_hungry t
philosopher i take_tested t = phi_take_forks_sema i take_tested t
philosopher i take_unlocked t = phi_take_forks_sema i take_unlocked t
philosopher i has_forks t = phi_put_forks_sema i has_forks t
philosopher i put_locked t = phi_put_forks_sema i put_locked t
philosopher i put_thinking t = phi_put_forks_sema i put_thinking t
philosopher i put_left t = phi_put_forks_sema i put_left t
philosopher i put_right t = phi_put_forks_sema i put_right t
philosopher i has_quit t = none

unfoldable pub step : ℕ → Table → Option Table
step i t = philosopher i (t.place i) t

-- check_sync: the semaphores and the threads; `state_sema` is zero before.
unfoldable pub check_sync : Table
check_sync = record {
  state_sema = λ i. thinking;
  mutex = 1;
  s = λ i. 0;
  place = λ i. slept;
  iter = λ i. 0;
}

-- What the table can come to in so many steps of the philosophers.
pub data Reach : ℕ → Table → Type 0 where
  start : Reach 0 check_sync
  then_step :
      {k : ℕ} {t : Table} (i : ℕ) (u : Table)
      → Reach k t
      → i < n_philosophers
      → step i t ≡ some u
      → Reach (suc k) u
