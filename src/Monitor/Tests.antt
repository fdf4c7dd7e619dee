-- ===== src/Monitor/Tests.antt =====
-- Two threads that use a monitor with one condition variable.
use oscmp.Base.{ℕ, ◌≡◌, some, List, [], ◌∷◌, refl}
use oscmp.Monitor.Defs.{
  monitor_init, enter, cond_signal_start, cond_wait_start, cond_wait_end, hand_on,
}
use oscmp.Monitor.Threads.{
  Place, outside, inside, signalling, waiting, System, Choice, leaves, signals, waits, step, Reach,
  start, then_step,
}
use oscmp.Monitor.Progress.{Reach-alone, Reach-Moves}

abbrev with : ℕ → ℕ → ℕ → ℕ → ℕ → List Place → System
with mutex next_count sem count next ts = record {
  monitor = record {
    mutex = mutex;
    next = next;
    next_count = next_count;
    cv = (record { sem = sem; count = count }) ∷ [];
  };
  threads = ts;
}

-- Thread 0 waits, and thread 1 has signalled.
signalled : Reach 1 2 (with 0 1 1 1 0 (waiting 0 ∷ signalling ∷ []))
unfolding step monitor_init enter cond_signal_start cond_wait_start hand_on
signalled =
    let first = then_step 0 leaves _ (with 0 0 0 0 0 (inside ∷ outside ∷ [])) (start _ refl) refl in
    let second = then_step 0 (waits 0) _ (with 1 0 0 1 0 (waiting 0 ∷ outside ∷ [])) first refl in
    let third = then_step 1 leaves _ (with 0 0 0 1 0 (waiting 0 ∷ inside ∷ [])) second refl in
    then_step 1 (signals 0) _ _ third refl

-- Thread 0 has gone on.
went_on : Reach 1 2 (with 0 1 0 0 0 (inside ∷ signalling ∷ []))
unfolding step cond_wait_end
went_on = then_step 0 leaves _ _ signalled refl

Reach-alone_example : ◌≡◌ {A = ℕ} 0 0
Reach-alone_example = Reach-alone 0 0 went_on refl refl

Reach-Moves_example :
    (j : ℕ) × (k : Choice) × (t : System) × (step j k (with 0 1 1 1 0 (waiting 0 ∷ signalling ∷ []))
      ≡ some t)
Reach-Moves_example = Reach-Moves 1 signalling signalled refl refl
