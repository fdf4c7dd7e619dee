-- ===== src/Philosophers/Tests.antt =====
-- A philosopher that eats while its neighbour asks for the forks.
use oscmp.Base.{ℕ, ◌<◌, ◌≤◌, ◌≡◌, ◌≢◌, none, some, arith, refl}
use oscmp.Philosophers.Defs.{
  n_philosophers, has_forks, has_quit, Table, left, right, phi_test_sema, step, check_sync, Reach,
  start, then_step,
}
use oscmp.Philosophers.Dining.{Reach-apart}
use oscmp.Philosophers.Ending.{Reach-ends}

-- The table after a step, if it is made.
abbrev after : ℕ → Table → Table
after i t = elim (step i t) [ some u ↦ u | none ↦ t ]

abbrev ate : Table
ate = after 0 (after 0 (after 0 (after 0 (after 0 check_sync))))

abbrev asked : Table
asked = after 1 (after 1 (after 1 (after 1 ate)))

eats : Reach 5 ate
unfolding step check_sync phi_test_sema left right
eats =
    then_step 0 _
      (then_step 0 _
        (then_step 0 _ (then_step 0 _ (then_step 0 _ start (omega arith) refl) (omega arith) refl)
          (omega arith) refl)
        (omega arith) refl)
      (omega arith) refl

asks : Reach 9 asked
unfolding step check_sync phi_test_sema left right
asks =
    then_step 1 _
      (then_step 1 _ (then_step 1 _ (then_step 1 _ eats (omega arith) refl) (omega arith) refl)
        (omega arith) refl)
      (omega arith) refl

at_forks : ate.place 0 ≡ has_forks
unfolding step check_sync phi_test_sema left right
at_forks = refl

still_at_forks : asked.place 0 ≡ has_forks
unfolding step check_sync phi_test_sema left right
still_at_forks = refl

Reach-apart_example : asked.place (right 0) ≢ has_forks
Reach-apart_example = Reach-apart 0 asks (omega arith) still_at_forks

Reach-ends_example :
    (9 ≤ 205)
    × (((i : ℕ) → i < n_philosophers → step i asked ≡ none)
        → (◌≡◌ {A = ℕ} 9 205) × ((i : ℕ) → i < n_philosophers → asked.place i ≡ has_quit))
Reach-ends_example = Reach-ends asks
