-- ===== src/Philosophers/Counts.antt =====
-- What the five philosophers of kern/sync/check_sync.c have together: the mutex, and the steps ahead.
use oscmp.Base.{ℕ, zero, suc, ◌+◌, ◌-◌, ◌*◌, ◌<◌, ◌≡◌, ◌≢◌, some, arith, refl}
use oscmp.Philosophers.Defs.{
  n_philosophers, times, Place, slept, take_locked, take_hungry, take_tested, take_unlocked,
  has_forks, put_locked, put_thinking, put_left, put_right, has_quit, Table, phi_test_sema,
  philosopher, step, check_sync, Reach, start, then_step,
}
use oscmp.Philosophers.Invariant.{has_mutex}

abbrev pub sum_all : (ℕ → ℕ) → ℕ
sum_all f = f 0 + f 1 + f 2 + f 3 + f 4

sum_all-update :
    (i : ℕ) (f g : ℕ → ℕ)
    → i < n_philosophers
    → ((j : ℕ) → i ≢ j → g j ≡ f j)
    → sum_all g + f i ≡ sum_all f + g i
sum_all-update zero f g b e = ground (arith, e 1, e 2, e 3, e 4)
sum_all-update (suc zero) f g b e = ground (arith, e 0, e 2, e 3, e 4)
sum_all-update (suc (suc zero)) f g b e = ground (arith, e 0, e 1, e 3, e 4)
sum_all-update (suc (suc (suc zero))) f g b e = ground (arith, e 0, e 1, e 2, e 4)
sum_all-update (suc (suc (suc (suc zero)))) f g b e = ground (arith, e 0, e 1, e 2, e 3)
sum_all-update (suc (suc (suc (suc (suc i))))) f g b e = absurd (omega (arith, b))

-- The steps that a philosopher has ahead: ten for each round, and one to quit.
abbrev pub ahead : Place → ℕ → ℕ
ahead slept n = 10 * (times - n) + 1
ahead take_locked n = 10 * (times - n) + 10
ahead take_hungry n = 10 * (times - n) + 9
ahead take_tested n = 10 * (times - n) + 8
ahead take_unlocked n = 10 * (times - n) + 7
ahead has_forks n = 10 * (times - n) + 6
ahead put_locked n = 10 * (times - n) + 5
ahead put_thinking n = 10 * (times - n) + 4
ahead put_left n = 10 * (times - n) + 3
ahead put_right n = 10 * (times - n) + 2
ahead has_quit n = 0

abbrev pub holders : Table → ℕ
holders t = sum_all (λ i. has_mutex (t.place i))

abbrev pub all_ahead : Table → ℕ
all_ahead t = sum_all (λ i. ahead (t.place i) (t.iter i))

-- A step of one philosopher leaves the places and the rounds of the others, takes one of its own
-- steps, and the mutex goes where it goes.
pub record Moved (i : ℕ) (t u : Table) : Type 0 where
  pub others : (j : ℕ) → i ≢ j → (u.place j ≡ t.place j) × (u.iter j ≡ t.iter j)
  pub fewer : ahead (u.place i) (u.iter i) + 1 ≡ ahead (t.place i) (t.iter i)
  pub mutex : u.mutex + has_mutex (u.place i) ≡ t.mutex + has_mutex (t.place i)

philosopher-Moved :
    (i : ℕ) (t u : Table) (p : Place) → t.place i ≡ p → philosopher i p t ≡ some u → Moved i t u
unfolding phi_test_sema
philosopher-Moved i t u slept at e = record {
  others = λ j ne. ground arith;
  fewer = ground arith;
  mutex = ground arith;
}
philosopher-Moved i t u has_quit at e = cc
philosopher-Moved i t u _ at e = record {
  others = λ j ne. ground arith;
  fewer = ground arith;
  mutex = ground arith;
}

step-Moved : (i : ℕ) (t u : Table) → step i t ≡ some u → Moved i t u
unfolding step
step-Moved i t u e = philosopher-Moved i t u (t.place i) refl e

Moved-ahead :
    (i : ℕ) (t u : Table) → i < n_philosophers → Moved i t u → all_ahead u + 1 ≡ all_ahead t
Moved-ahead i t u b m = omega (
  arith,
  m.fewer,
  sum_all-update i (λ j. ahead (t.place j) (t.iter j)) (λ j. ahead (u.place j) (u.iter j)) b
      (λ j ne. ground (arith, m.others j)),
)

Moved-holders :
    (i : ℕ) (t u : Table)
    → i < n_philosophers
    → Moved i t u
    → u.mutex + holders u ≡ t.mutex + holders t
Moved-holders i t u b m = omega (
  arith,
  m.mutex,
  sum_all-update i (λ j. has_mutex (t.place j)) (λ j. has_mutex (u.place j)) b
      (λ j ne. ground (arith, m.others j)),
)

-- The mutex is free, or one philosopher has it.
pub Reach-held : {k : ℕ} {t : Table} → Reach k t → t.mutex + holders t ≡ 1
unfolding check_sync
Reach-held start = refl
Reach-held (then_step {t} i u r b e) =
    omega (arith, Reach-held r, Moved-holders i t u b (step-Moved i t u e))

pub Reach-ahead : {k : ℕ} {t : Table} → Reach k t → k + all_ahead t ≡ 205
unfolding check_sync
Reach-ahead start = refl
Reach-ahead (then_step {t} i u r b e) =
    omega (arith, Reach-ahead r, Moved-ahead i t u b (step-Moved i t u e))
