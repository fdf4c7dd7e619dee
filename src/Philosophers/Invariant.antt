-- ===== src/Philosophers/Invariant.antt =====
-- What holds of the philosophers of kern/sync/check_sync.c at every moment.
use oscmp.Base.{ℕ, ◌+◌, ◌<◌, ◌≤◌, ◌≡◌, ◌≢◌, some, arith, refl}
use oscmp.Philosophers.Defs.{
  n_philosophers, thinking, hungry, eating, right, Place, slept, take_locked, take_hungry,
  take_tested, take_unlocked, has_forks, put_locked, put_thinking, put_left, put_right, has_quit,
  Table, goes, lock, unlock, set_state, next_iter, phi_take_forks_sema,
}
use oscmp.Philosophers.Served.{Served, right-ne, quiet-Served, hungry-Served, thinking-Served}

-- Whether a philosopher has the mutex.
abbrev pub has_mutex : Place → ℕ
has_mutex take_locked = 1
has_mutex take_hungry = 1
has_mutex take_tested = 1
has_mutex put_locked = 1
has_mutex put_thinking = 1
has_mutex put_left = 1
has_mutex put_right = 1
has_mutex _ = 0

-- The state and the semaphore of a philosopher at a place.
abbrev pub Fits : Place → ℕ → ℕ → Type 0
Fits take_hungry st v = (st ≡ hungry) × (v ≡ 0)
Fits take_tested st v = (st ≡ v + hungry) × (v ≤ 1)
Fits take_unlocked st v = (st ≡ v + hungry) × (v ≤ 1)
Fits has_forks st v = (st ≡ eating) × (v ≡ 0)
Fits put_locked st v = (st ≡ eating) × (v ≡ 0)
Fits _ st v = (st ≡ thinking) × (v ≡ 0)

pub record IsValid (t : Table) : Type 0 where
  pub one : (i : ℕ) → i < n_philosophers → t.mutex + has_mutex (t.place i) ≤ 1
  pub alone :
      (i j : ℕ)
      → i < n_philosophers
      → j < n_philosophers
      → i ≢ j
      → has_mutex (t.place i) + has_mutex (t.place j) ≤ 1
  pub fits : (i : ℕ) → i < n_philosophers → Fits (t.place i) (t.state_sema i) (t.s i)
  pub apart :
      (i : ℕ) → i < n_philosophers → t.state_sema i ≡ eating → t.state_sema (right i) ≢ eating
  pub served : Served t.state_sema t.place

module _ (i : ℕ) (b : i < n_philosophers) (t u : Table) (h : IsValid t) where
  pub next_iter-IsValid : t.place i ≡ slept → next_iter i t ≡ some u → IsValid u
  next_iter-IsValid at e = record {
    one = λ j c. ground (arith, h.one i b, h.one j c, h.alone i j b c);
    alone = λ j k c d ne.
        ground (
          arith,
          h.one i b,
          h.one j c,
          h.one k d,
          h.alone j k c d,
          h.alone i j b c,
          h.alone i k b d,
        );
    fits = λ j c. ground (arith, h.fits i b, h.fits j c);
    apart = λ j c. ground (arith, h.apart j c, h.fits i b, right-ne j c);
    served = λ j c. ground (
      arith,
      quiet-Served i b t.state_sema t.place h.served slept take_locked at refl j c,
      quiet-Served i b t.state_sema t.place h.served slept has_quit at refl j c,
    );
  }

  pub lock-IsValid : t.place i ≡ has_forks → lock i put_locked t ≡ some u → IsValid u
  lock-IsValid at e = record {
    one = λ j c. ground (arith, h.one i b, h.one j c, h.alone i j b c);
    alone = λ j k c d ne.
        ground (
          arith,
          h.one i b,
          h.one j c,
          h.one k d,
          h.alone j k c d,
          h.alone i j b c,
          h.alone i k b d,
        );
    fits = λ j c. ground (arith, h.fits i b, h.fits j c);
    apart = λ j c. ground (arith, h.apart j c, h.fits i b, right-ne j c);
    served = λ j c.
        ground
          (arith, quiet-Served i b t.state_sema t.place h.served has_forks put_locked at refl j c);
  }

  pub unlock_asking-IsValid : t.place i ≡ take_tested → unlock i take_unlocked t ≡ u → IsValid u
  unlock_asking-IsValid at e = record {
    one = λ j c. ground (arith, h.one i b, h.one j c, h.alone i j b c);
    alone = λ j k c d ne.
        ground (
          arith,
          h.one i b,
          h.one j c,
          h.one k d,
          h.alone j k c d,
          h.alone i j b c,
          h.alone i k b d,
        );
    fits = λ j c. ground (arith, h.fits i b, h.fits j c);
    apart = λ j c. ground (arith, h.apart j c, h.fits i b, right-ne j c);
    served = λ j c. ground (
      arith,
      quiet-Served i b t.state_sema t.place h.served take_tested take_unlocked at refl j c,
    );
  }

  pub unlock-IsValid : t.place i ≡ put_right → unlock i slept t ≡ u → IsValid u
  unlock-IsValid at e = record {
    one = λ j c. ground (arith, h.one i b, h.one j c, h.alone i j b c);
    alone = λ j k c d ne.
        ground (
          arith,
          h.one i b,
          h.one j c,
          h.one k d,
          h.alone j k c d,
          h.alone i j b c,
          h.alone i k b d,
        );
    fits = λ j c. ground (arith, h.fits i b, h.fits j c);
    apart = λ j c. ground (arith, h.apart j c, h.fits i b, right-ne j c);
    served = λ j c.
        ground (arith, quiet-Served i b t.state_sema t.place h.served put_right slept at refl j c);
  }

  pub forks-IsValid :
      t.place i ≡ take_unlocked → phi_take_forks_sema i take_unlocked t ≡ some u → IsValid u
  forks-IsValid at e = record {
    one = λ j c. ground (arith, h.one i b, h.one j c, h.alone i j b c);
    alone = λ j k c d ne.
        ground (
          arith,
          h.one i b,
          h.one j c,
          h.one k d,
          h.alone j k c d,
          h.alone i j b c,
          h.alone i k b d,
        );
    fits = λ j c. ground (arith, h.fits i b, h.fits j c);
    apart = λ j c. ground (arith, h.apart j c, h.fits i b, right-ne j c);
    served = λ j c.
        ground (
          arith,
          quiet-Served i b t.state_sema t.place h.served take_unlocked has_forks at refl j c,
        );
  }

  pub hungry-IsValid :
      t.place i ≡ take_locked → goes i take_hungry (set_state i hungry t) ≡ u → IsValid u
  hungry-IsValid at e =
      let not_eating : t.state_sema i ≢ eating = ground (arith, h.fits i b) in
      record {
        one = λ j c. ground (arith, h.one i b, h.one j c, h.alone i j b c);
        alone = λ j k c d ne. ground (
          arith,
          h.one i b,
          h.one j c,
          h.one k d,
          h.alone j k c d,
          h.alone i j b c,
          h.alone i k b d,
        );
        fits = λ j c. ground (arith, h.fits i b, h.fits j c);
        apart = λ j c. ground (arith, h.apart j c, h.fits i b, right-ne j c);
        served = λ j c.
            ground (arith, hungry-Served i b t.state_sema t.place h.served at not_eating j c);
      }

  pub thinking-IsValid :
      t.place i ≡ put_locked → goes i put_thinking (set_state i thinking t) ≡ u → IsValid u
  thinking-IsValid at e = record {
    one = λ j c. ground (arith, h.one i b, h.one j c, h.alone i j b c);
    alone = λ j k c d ne.
        ground (
          arith,
          h.one i b,
          h.one j c,
          h.one k d,
          h.alone j k c d,
          h.alone i j b c,
          h.alone i k b d,
        );
    fits = λ j c. ground (arith, h.fits i b, h.fits j c);
    apart = λ j c. ground (arith, h.apart j c, h.fits i b, right-ne j c);
    served = λ j c. ground (arith, thinking-Served i b t.state_sema t.place h.served at j c);
  }
