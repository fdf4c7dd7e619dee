-- ===== src/Philosophers/Ending.antt =====
-- The philosophers of kern/sync/check_sync.c never block each other for good, and come to an end.
use oscmp.Base.{
  ℕ, zero, suc, ◌+◌, ◌*◌, ◌<◌, ◌≤◌, ◌==◌, ltb, ◌≡◌, ◌≢◌, ◌⊎◌, Bool, true, false, ◌&&◌, none, some,
  update, ==_iff, arith, refl, Bool-cases, inl, inr,
}
use oscmp.Philosophers.Defs.{
  n_philosophers, times, hungry, eating, left, right, Place, slept, take_locked, take_hungry,
  take_tested, take_unlocked, has_forks, put_locked, put_thinking, put_left, put_right, has_quit,
  Table, down, goes, philosopher, step, Reach,
}
use oscmp.Philosophers.Invariant.{IsValid, has_mutex, Fits}
use oscmp.Philosophers.Served.{left-lt, right-lt, tests_self, tests_left, tests_right}
use oscmp.Philosophers.Counts.{holders, Reach-held, Reach-ahead}
use oscmp.Philosophers.Dining.{Reach-IsValid}

-- Some philosopher has a step.
abbrev Moves : Table → Type 0
Moves t = (i : ℕ) × (u : Table) × (i < n_philosophers) × (step i t ≡ some u)

-- The places where a philosopher may have to wait.
abbrev waits : Place → Table → ℕ → Bool
waits slept t i = ltb (t.iter i) times && t.mutex == 0
waits take_unlocked t i = t.s i == 0
waits has_forks t i = t.mutex == 0
waits has_quit t i = true
waits _ t i = false

down_pos : (n : ℕ) → (n == 0) ≡ false → (v : ℕ) × (down n ≡ some v)
down_pos zero e = cc
down_pos (suc n) e = (n, refl)

ready-Moves :
    (t : Table) (i : ℕ) (p : Place)
    → i < n_philosophers
    → waits p t i ≡ false
    → (u : Table) × (philosopher i p t ≡ some u)
ready-Moves t i slept b e = elim (Bool-cases (ltb (t.iter i) times)) [
  | inl again ↦
      let (v, d) = down_pos t.mutex (ground (arith, e, again)) in
      (
        record t {
          iter = update t.iter i (t.iter i + 1);
          place = update t.place i take_locked;
          mutex = v;
        },
        rw again (rw d),
      )
  | inr done ↦ (
    record t { iter = update t.iter i (t.iter i + 1); place = update t.place i has_quit },
    rw done,
  )
]
ready-Moves t i take_unlocked b e =
    let (v, d) = down_pos (t.s i) e in (record (goes i has_forks t) { s = update t.s i v }, rw d)
ready-Moves t i has_forks b e =
    let (v, d) = down_pos t.mutex e in (record (goes i put_locked t) { mutex = v }, rw d)
ready-Moves t i has_quit b e = cc
ready-Moves t i take_locked b e = (_, refl)
ready-Moves t i take_hungry b e = (_, refl)
ready-Moves t i take_tested b e = (_, refl)
ready-Moves t i put_locked b e = (_, refl)
ready-Moves t i put_thinking b e = (_, refl)
ready-Moves t i put_left b e = (_, refl)
ready-Moves t i put_right b e = (_, refl)

at-Moves : (t : Table) (i : ℕ) → i < n_philosophers → waits (t.place i) t i ≡ false → Moves t
unfolding step
at-Moves t i b e = let (u, f) = ready-Moves t i (t.place i) b e in (i, u, b, f)

-- A philosopher that has the mutex does not wait.
has_mutex-ready : (t : Table) (i : ℕ) (p : Place) → 0 < has_mutex p → waits p t i ≡ false
has_mutex-ready t i slept h = absurd (omega (arith, h))
has_mutex-ready t i take_unlocked h = absurd (omega (arith, h))
has_mutex-ready t i has_forks h = absurd (omega (arith, h))
has_mutex-ready t i has_quit h = absurd (omega (arith, h))
has_mutex-ready t i _ h = refl

holder-Moves : (t : Table) → 0 < holders t → Moves t
holder-Moves t h =
    pick (has_mutex (t.place 0)) (has_mutex (t.place 1)) (has_mutex (t.place 2))
      (has_mutex (t.place 3)) (has_mutex (t.place 4)) refl refl refl refl refl h
  where
    by : (i : ℕ) (n : ℕ) → i < n_philosophers → has_mutex (t.place i) ≡ suc n → Moves t
    by i n b e = at-Moves t i b (has_mutex-ready t i (t.place i) (omega (arith, e)))

    pick :
        (a b c d e : ℕ)
        → has_mutex (t.place 0) ≡ a
        → has_mutex (t.place 1) ≡ b
        → has_mutex (t.place 2) ≡ c
        → has_mutex (t.place 3) ≡ d
        → has_mutex (t.place 4) ≡ e
        → 0 < a + b + c + d + e
        → Moves t
    pick (suc n) b c d e p q r s u h = by 0 n (omega arith) p
    pick zero (suc n) c d e p q r s u h = by 1 n (omega arith) q
    pick zero zero (suc n) d e p q r s u h = by 2 n (omega arith) r
    pick zero zero zero (suc n) e p q r s u h = by 3 n (omega arith) s
    pick zero zero zero zero (suc n) p q r s u h = by 4 n (omega arith) u
    pick zero zero zero zero zero p q r s u h = absurd (omega (arith, h))

-- Tests ahead are for the one that has the mutex.
tests-le-has_mutex : (p : Place) → tests_self p + tests_left p + tests_right p ≤ 2 * has_mutex p
unfolding tests_self tests_left tests_right
tests-le-has_mutex slept = omega arith
tests-le-has_mutex take_hungry = omega arith
tests-le-has_mutex put_thinking = omega arith
tests-le-has_mutex put_left = omega arith
tests-le-has_mutex _ = omega arith

module _ (t : Table) (h : IsValid t) (free : t.mutex ≡ 1) where
  not_held : (i : ℕ) → i < n_philosophers → has_mutex (t.place i) ≡ 0
  not_held i b = omega (arith, h.one i b)

  eating-ready :
      (i : ℕ) (p : Place)
      → has_mutex p ≡ 0
      → Fits p (t.state_sema i) (t.s i)
      → t.state_sema i ≡ eating
      → waits p t i ≡ false
  eating-ready i slept n f e = ground arith
  eating-ready i take_unlocked n f e = ground arith
  eating-ready i has_forks n f e = ground arith
  eating-ready i has_quit n f e = ground arith
  eating-ready i _ n f e = refl

  eating-Moves : (i : ℕ) → i < n_philosophers → t.state_sema i ≡ eating → Moves t
  eating-Moves i b e = at-Moves t i b (eating-ready i (t.place i) (not_held i b) (h.fits i b) e)

  -- A hungry philosopher sits beside one that eats, while nobody has the mutex.
  hungry-Moves : (i : ℕ) → i < n_philosophers → t.state_sema i ≡ hungry → Moves t
  hungry-Moves i b e = elim (Bool-cases (t.state_sema (left i) == eating)) [
    | inl l ↦ eating-Moves (left i) (left-lt i b) ((==_iff _ _).0 l)
    | inr l ↦ elim (Bool-cases (t.state_sema (right i) == eating)) [
      | inl r ↦ eating-Moves (right i) (right-lt i b) ((==_iff _ _).0 r)
      | inr r ↦
          let due = h.served i b e (ground arith) (ground arith) in
          absurd (
            omega (
              arith,
              due,
              tests-le-has_mutex (t.place i),
              tests-le-has_mutex (t.place (left i)),
              tests-le-has_mutex (t.place (right i)),
              not_held i b,
              not_held (left i) (left-lt i b),
              not_held (right i) (right-lt i b),
            ))
    ]
  ]

  free-Moves : (i : ℕ) (p : Place) → i < n_philosophers → t.place i ≡ p → p ≢ has_quit → Moves t
  free-Moves i take_unlocked b e n = elim (Bool-cases (t.s i == 0)) [
    | inl waits_here ↦ hungry-Moves i b (ground (arith, h.fits i b))
    | inr ready ↦ at-Moves t i b (rw e ready)
  ]
  free-Moves i has_quit b e n = absurd (n refl)
  free-Moves i _ b e n = at-Moves t i b (ground arith)

rest_pos : (m c : ℕ) → m + c ≡ 1 → (m == 1) ≡ false → 0 < c
rest_pos m c e n = ground arith

-- However the steps of the philosophers follow each other, while one of them has not quit, one of
-- them has a step.
Reach-goes_on :
    {k : ℕ} {t : Table} (i : ℕ)
    → Reach k t
    → i < n_philosophers
    → t.place i ≢ has_quit
    → (j : ℕ) × (u : Table) × (j < n_philosophers) × (step j t ≡ some u)
Reach-goes_on {t} i r b n = elim (Bool-cases (t.mutex == 1)) [
  | inl free ↦ free-Moves t (Reach-IsValid r) ((==_iff _ _).0 free) i (t.place i) b refl n
  | inr taken ↦ holder-Moves t (rest_pos t.mutex (holders t) (Reach-held r) taken)
]

quit_or_not : (p : Place) → (p ≡ has_quit) ⊎ (p ≢ has_quit)
quit_or_not has_quit = inl refl
quit_or_not _ = inr (ground arith)

-- However the steps of the philosophers follow each other, there are at most 205 of them, and when
-- none of the philosophers has a step then 205 were made and every philosopher has quit.
pub Reach-ends :
    {k : ℕ} {t : Table}
    → Reach k t
    → (k ≤ 205)
      × (((i : ℕ) → i < n_philosophers → step i t ≡ none)
          → (k ≡ 205) × ((i : ℕ) → i < n_philosophers → t.place i ≡ has_quit))
Reach-ends {k} {t} r = (omega (arith, Reach-ahead r), all_quit)
  where
    quit :
        ((i : ℕ) → i < n_philosophers → step i t ≡ none)
        → (i : ℕ) → i < n_philosophers
        → t.place i ≡ has_quit
    quit stuck i b = elim (quit_or_not (t.place i)) [
      | inl e ↦ e
      | inr n ↦ let (j, u, c, f) = Reach-goes_on i r b n in absurd (ground (arith, stuck j c, f))
    ]

    all_quit :
        ((i : ℕ) → i < n_philosophers → step i t ≡ none)
        → (k ≡ 205) × ((i : ℕ) → i < n_philosophers → t.place i ≡ has_quit)
    all_quit stuck =
        let q = quit stuck in
        (
          ground (
            arith,
            Reach-ahead r,
            q 0 (omega arith),
            q 1 (omega arith),
            q 2 (omega arith),
            q 3 (omega arith),
            q 4 (omega arith),
          ),
          q,
        )
