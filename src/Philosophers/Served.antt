-- ===== src/Philosophers/Served.antt =====
-- Which philosophers of kern/sync/check_sync.c the others are still to test.
use oscmp.Base.{
  ℕ, ◌+◌, ◌<◌, ◌≤◌, ◌==◌, ◌≡◌, ◌≢◌, Bool, true, false, not, ◌&&◌, if◌then◌else◌, update, arith,
  refl, Bool-cases, inl, inr,
}
use oscmp.Philosophers.Defs.{
  n_philosophers, thinking, hungry, eating, left, right, Place, take_locked, take_hungry,
  take_tested, put_locked, put_thinking, put_left, put_right,
}

-- The tests that a philosopher is still to make of itself, of the one on the left and on the right.
unfoldable pub tests_self : Place → ℕ
tests_self take_hungry = 1
tests_self _ = 0

unfoldable pub tests_left : Place → ℕ
tests_left put_thinking = 1
tests_left _ = 0

unfoldable pub tests_right : Place → ℕ
tests_right put_thinking = 1
tests_right put_left = 1
tests_right _ = 0

-- A hungry philosopher between two that do not eat will be tested.
abbrev pub Served : (ℕ → ℕ) → (ℕ → Place) → Type 0
Served st pl =
    (i : ℕ)
    → i < n_philosophers
    → st i ≡ hungry
    → st (left i) ≢ eating
    → st (right i) ≢ eating
    → 0 < tests_self (pl i) + tests_left (pl (right i)) + tests_right (pl (left i))

-- Neighbours.
module _ (i : ℕ) (b : i < n_philosophers) where
  pub left-lt : left i < n_philosophers
  unfolding left
  left-lt = ground arith

  pub right-lt : right i < n_philosophers
  unfolding right
  right-lt = ground arith

  pub left-right : left (right i) ≡ i
  unfolding left right
  left-right = ground arith

  pub right-left : right (left i) ≡ i
  unfolding left right
  right-left = ground arith

  pub left-ne : left i ≢ i
  unfolding left
  left-ne = ground arith

  pub right-ne : right i ≢ i
  unfolding right
  right-ne = ground arith

  pub left-ne-right : left i ≢ right i
  unfolding left right
  left-ne-right = ground arith

module _ (i : ℕ) (b : i < n_philosophers) (st : ℕ → ℕ) (pl : ℕ → Place) (h : Served st pl)
    (p q : Place) (at : pl i ≡ p) where
  pub Served-goes :
      tests_self p ≤ tests_self q
      → tests_left p ≤ tests_left q
      → tests_right p ≤ tests_right q
      → Served st (update pl i q)
  Served-goes x y z j c e l r = ground (arith, h j c e l r)

  pub Served-set :
      (v : ℕ)
      → tests_self p ≤ tests_self q
      → tests_left p ≤ tests_left q
      → tests_right p ≤ tests_right q
      → (v ≡ hungry → 0 < tests_self q)
      → (st i ≡ eating → (0 < tests_left q) × (0 < tests_right q))
      → Served (update st i v) (update pl i q)
  Served-set v x y z f g j c e l r =
      ground (arith, h j c, left-ne j c, right-ne j c, left-ne-right j c)

  -- The test of `w` is the only one that the step takes away.
  module _ (w : ℕ) (x : i ≢ w → tests_self p ≤ tests_self q)
      (y : left i ≢ w → tests_left p ≤ tests_left q)
      (z : right i ≢ w → tests_right p ≤ tests_right q) where
    pub Served-fired : Served (update st w eating) (update pl i q)
    Served-fired j c e l r = ground (arith, h j c, left-right j c, right-left j c)

    pub Served-idle :
        (st w ≡ hungry → st (left w) ≢ eating → st (right w) ≢ eating → ⊥)
        → Served st (update pl i q)
    Served-idle f j c e l r = ground (arith, h j c, left-right j c, right-left j c)

-- The places with no test ahead.
abbrev pub quiet : Place → Bool
quiet take_hungry = false
quiet put_thinking = false
quiet put_left = false
quiet _ = true

quiet_zero : (p : Place) → quiet p ≡ true → tests_self p + tests_left p + tests_right p ≡ 0
unfolding tests_self tests_left tests_right
quiet_zero take_hungry e = cc
quiet_zero put_thinking e = cc
quiet_zero put_left e = cc
quiet_zero _ e = refl

module _ (i : ℕ) (b : i < n_philosophers) (st : ℕ → ℕ) (pl : ℕ → Place) (h : Served st pl) where
  pub quiet-Served : (p q : Place) → pl i ≡ p → quiet p ≡ true → Served st (update pl i q)
  quiet-Served p q at e =
      Served-goes i b st pl h p q at (omega (arith, quiet_zero p e)) (omega (arith, quiet_zero p e))
        (omega (arith, quiet_zero p e))

  pub hungry-Served :
      pl i ≡ take_locked → st i ≢ eating → Served (update st i hungry) (update pl i take_hungry)
  unfolding tests_self tests_left tests_right
  hungry-Served at n =
      Served-set i b st pl h take_locked take_hungry at hungry (omega arith) (omega arith)
        (omega arith) (λ e. omega arith) (λ e. absurd (n e))

  pub thinking-Served : pl i ≡ put_locked → Served (update st i thinking) (update pl i put_thinking)
  unfolding tests_self tests_left tests_right
  thinking-Served at =
      Served-set i b st pl h put_locked put_thinking at thinking (omega arith) (omega arith)
        (omega arith) (λ e. absurd (omega arith)) (λ e. (omega arith, omega arith))

-- The place of a philosopher before and behind the test of another or itself.
pub data Testing (i : ℕ) : Place → Place → ℕ → Type 0 where
  of_self : Testing i take_hungry take_tested i
  of_left : Testing i put_thinking put_left (left i)
  of_right : Testing i put_left put_right (right i)

-- The test of phi_test_sema.
abbrev pub can_eat : (ℕ → ℕ) → ℕ → Bool
can_eat st w = st w == hungry && not (st (left w) == eating) && not (st (right w) == eating)

module _ (i : ℕ) (b : i < n_philosophers) (st : ℕ → ℕ) (pl : ℕ → Place) (h : Served st pl) where
  tested-Served :
      (p q : Place) (w : ℕ)
      → pl i ≡ p
      → (i ≢ w → tests_self p ≤ tests_self q)
      → (left i ≢ w → tests_left p ≤ tests_left q)
      → (right i ≢ w → tests_right p ≤ tests_right q)
      → Served (if can_eat st w then update st w eating else st) (update pl i q)
  tested-Served p q w at x y z = elim (Bool-cases (can_eat st w)) [
    | inl fires ↦ rw fires (Served-fired i b st pl h p q at w x y z)
    | inr idle ↦ rw idle (Served-idle i b st pl h p q at w x y z (λ e l r. ground (arith, idle)))
  ]

  pub test-Served :
      (p q : Place) (w : ℕ)
      → Testing i p q w
      → pl i ≡ p
      → Served (if can_eat st w then update st w eating else st) (update pl i q)
  unfolding tests_self tests_left tests_right
  test-Served p q w of_self at =
      tested-Served take_hungry take_tested i at (λ e. absurd (e refl)) (λ e. omega arith)
        (λ e. omega arith)
  test-Served p q w of_left at =
      tested-Served put_thinking put_left (left i) at (λ e. omega arith) (λ e. absurd (e refl))
        (λ e. omega arith)
  test-Served p q w of_right at =
      tested-Served put_left put_right (right i) at (λ e. omega arith) (λ e. omega arith)
        (λ e. absurd (e refl))
