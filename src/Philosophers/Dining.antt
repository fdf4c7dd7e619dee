-- ===== src/Philosophers/Dining.antt =====
-- Neighbours at the table of kern/sync/check_sync.c.
use oscmp.Base.{ℕ, ◌<◌, ◌≡◌, ◌≢◌, some, arith, refl}
use oscmp.Philosophers.Defs.{
  n_philosophers, right, Place, slept, take_locked, take_hungry, take_tested, take_unlocked,
  has_forks, put_locked, put_thinking, put_left, put_right, has_quit, Table, philosopher, step,
  check_sync, Reach, start, then_step,
}
use oscmp.Philosophers.Served.{right-lt}
use oscmp.Philosophers.Invariant.{
  IsValid, next_iter-IsValid, lock-IsValid, unlock_asking-IsValid, unlock-IsValid, forks-IsValid,
  hungry-IsValid, thinking-IsValid,
}
use oscmp.Philosophers.Tested.{test_self-IsValid, test_left-IsValid, test_right-IsValid}

pub philosopher-IsValid :
    (i : ℕ) (t u : Table) (p : Place)
    → i < n_philosophers
    → t.place i ≡ p
    → philosopher i p t ≡ some u
    → IsValid t
    → IsValid u
philosopher-IsValid i t u slept b at e h = next_iter-IsValid i b t u h at e
philosopher-IsValid i t u take_locked b at e h = hungry-IsValid i b t u h at (cc)
philosopher-IsValid i t u take_hungry b at e h = test_self-IsValid i b t u h at (cc)
philosopher-IsValid i t u take_tested b at e h = unlock_asking-IsValid i b t u h at (cc)
philosopher-IsValid i t u take_unlocked b at e h = forks-IsValid i b t u h at e
philosopher-IsValid i t u has_forks b at e h = lock-IsValid i b t u h at e
philosopher-IsValid i t u put_locked b at e h = thinking-IsValid i b t u h at (cc)
philosopher-IsValid i t u put_thinking b at e h = test_left-IsValid i b t u h at (cc)
philosopher-IsValid i t u put_left b at e h = test_right-IsValid i b t u h at (cc)
philosopher-IsValid i t u put_right b at e h = unlock-IsValid i b t u h at (cc)
philosopher-IsValid i t u has_quit b at e h = cc

check_sync-IsValid : IsValid check_sync
unfolding check_sync
check_sync-IsValid = record {
  one = λ i b. omega arith;
  alone = λ i j b c d. omega arith;
  fits = λ i b. (refl, refl);
  apart = λ i b e. ground arith;
  served = λ i b e. ground arith;
}

pub Reach-IsValid : {k : ℕ} {t : Table} → Reach k t → IsValid t
unfolding step
Reach-IsValid start = check_sync-IsValid
Reach-IsValid (then_step {t} i u r b e) =
    philosopher-IsValid i t u (t.place i) b refl e (Reach-IsValid r)

-- However the steps of the philosophers follow each other, two neighbours never have their forks at
-- the same time.
pub Reach-apart :
    {k : ℕ} {t : Table} (i : ℕ)
    → Reach k t
    → i < n_philosophers
    → t.place i ≡ has_forks
    → t.place (right i) ≢ has_forks
Reach-apart i r b at also =
    let h = Reach-IsValid r in
    h.apart i b (ground (arith, h.fits i b)) (ground (arith, h.fits (right i) (right-lt i b)))
