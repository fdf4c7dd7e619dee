-- ===== src/Monitor/Progress.antt =====
-- Mutual exclusion and progress of the threads at the functions of kern/sync/monitor.c.
use oscmp.Base.{
  ℕ, zero, suc, ◌+◌, ◌-◌, ◌<◌, ◌==◌, ◌≡◌, ◌≢◌, ◌⊎◌, inl, inr, refl, sym, ap, ◌∙◌, Bool, true, false,
  Option, some, ◌>>=◌, get_elem?, set, total, le-total, total_pos, ==_iff, get_elem?-set_ne, arith,
  Bool-cases,
}
use oscmp.Monitor.Defs.{down, Monitor, Condvar, enter, cond_signal_end, cond_wait_end}
use oscmp.Monitor.Threads.{
  Place, outside, inside, signalling, waiting, System, Choice, leaves, moved, act, step, Reach,
}
use oscmp.Monitor.Invariant.{IsValid, is_inside, is_signalling, waits_for, sem_of, inside-moved}
use oscmp.Monitor.Reachable.{Reach-IsValid}

abbrev pub is_waiting : Place → Bool
is_waiting (waiting c) = true
is_waiting _ = false

-- In every system that a monitor and its threads can come to, two threads inside of the monitor are
-- the same one.
pub Reach-alone :
    {num_cv n : ℕ} {s : System} (i j : ℕ)
    → Reach num_cv n s
    → get_elem? s.threads i ≡ some inside
    → get_elem? s.threads j ≡ some inside
    → i ≡ j
Reach-alone {s} i j r at also = elim (Bool-cases (i == j)) [
  | inl same ↦ (==_iff i j).0 same
  | inr other ↦
      let left = inside-moved s.threads i inside outside at in
      let apart : i ≢ j = ground arith in
      let still =
        le-total is_inside (set s.threads i outside) j inside
          (get_elem?-set_ne s.threads i j outside apart ∙ also) in
      absurd (omega (arith, (Reach-IsValid r).one))
]

one_of : (a b c d : ℕ) → a + b + c + d ≡ 1 → (0 < d) ⊎ (0 < b) ⊎ (0 < c) ⊎ (0 < a)
one_of a b c (suc d) e = inl (omega arith)
one_of a (suc b) c zero e = inr (inl (omega arith))
one_of a zero (suc c) zero e = inr (inr (inl (omega arith)))
one_of a zero zero zero e = inr (inr (inr (omega (arith, e))))

-- Some thread has a step.
abbrev Moves : System → Type 0
Moves s = (i : ℕ) × (k : Choice) × (t : System) × (step i k s ≡ some t)

act-Moves :
    (i : ℕ) (k : Choice) (p : Place) (s t : System)
    → get_elem? s.threads i ≡ some p
    → act i k p s ≡ some t
    → Moves s
unfolding step
act-Moves i k p s t at e = (i, k, t, rw at e)

-- `down` passes a semaphore that has a value.
down_pos : (n : ℕ) → 0 < n → down n ≡ some (n - 1)
down_pos zero h = absurd (omega (arith, h))
down_pos (suc n) h = ground arith

enter_total : (m : Monitor) → 0 < m.mutex → (u : Monitor) × (enter m ≡ some u)
unfolding enter
enter_total m h = (record m { mutex = m.mutex - 1 }, rw (down_pos m.mutex h))

cond_signal_end_total : (m : Monitor) → 0 < m.next → (u : Monitor) × (cond_signal_end m ≡ some u)
unfolding cond_signal_end
cond_signal_end_total m h =
    (record m { next = m.next - 1; next_count = m.next_count - 1 }, rw (down_pos m.next h))

cond_wait_end_total :
    (c : ℕ) (v : Condvar) (m : Monitor)
    → get_elem? m.cv c ≡ some v
    → 0 < v.sem
    → (u : Monitor) × (cond_wait_end c m ≡ some u)
unfolding cond_wait_end
cond_wait_end_total c v m f h = (
  record m { cv = set m.cv c (record { sem = v.sem - 1; count = v.count - 1 }) },
  rw f (rw (down_pos v.sem h)),
)

-- A thread whose next part gives a monitor has a step.
come-Moves :
    (s : System) (i : ℕ) (k : Choice) (p q : Place) (o : Option Monitor)
    → get_elem? s.threads i ≡ some p
    → act i k p s ≡ (o >>= moved i q s)
    → (u : Monitor) × (o ≡ some u)
    → Moves s
come-Moves s i k p q o at e (u, f) =
    act-Moves i k p s (record { monitor = u; threads = set s.threads i q }) at
      (e ∙ ap (λ o'. o' >>= moved i q s) f)

-- The thread that the one right to be inside belongs to.
module _ (s : System) (h : IsValid s.monitor s.threads) where
  inside-Moves : 0 < total is_inside s.threads → Moves s
  inside-Moves some_in = let (i, p, at, w) = total_pos is_inside s.threads some_in in by i p at w
    where
      by : (i : ℕ) (p : Place) → get_elem? s.threads i ≡ some p → 0 < is_inside p → Moves s
      by i inside at w = act-Moves i leaves inside s _ at refl
      by i outside at w = absurd (omega (arith, w))
      by i signalling at w = absurd (omega (arith, w))
      by i (waiting c) at w = absurd (omega (arith, w))

  signalling-Moves : 0 < s.monitor.next → Moves s
  signalling-Moves n =
      let (i, p, at, w) = total_pos is_signalling s.threads (omega (arith, h.owed, h.nexts)) in
      by i p at w
    where
      by : (i : ℕ) (p : Place) → get_elem? s.threads i ≡ some p → 0 < is_signalling p → Moves s
      by i signalling at w =
          come-Moves s i leaves signalling inside (cond_signal_end s.monitor) at refl
            (cond_signal_end_total s.monitor n)
      by i outside at w = absurd (omega (arith, w))
      by i inside at w = absurd (omega (arith, w))
      by i (waiting c) at w = absurd (omega (arith, w))

  waiting-Moves : 0 < total sem_of s.monitor.cv → Moves s
  waiting-Moves n =
      let (c, v, f, w) = total_pos sem_of s.monitor.cv n in
      let (i, p, at, x) = total_pos (waits_for c) s.threads (ground (arith, h.counts c v f, w)) in
      by c v f w i p at x
    where
      by :
          (c : ℕ) (v : Condvar)
          → get_elem? s.monitor.cv c ≡ some v
          → 0 < v.sem
          → (i : ℕ) (p : Place) → get_elem? s.threads i ≡ some p
          → 0 < waits_for c p
          → Moves s
      by c v f w i (waiting d) at x =
          let same : c ≡ d = ground arith in
          come-Moves s i leaves (waiting c) inside (cond_wait_end c s.monitor)
            (at ∙ ap (λ e. some (waiting e)) (sym same)) refl
            (cond_wait_end_total c v s.monitor f w)
      by c v f w i outside at x = absurd (omega (arith, x))
      by c v f w i inside at x = absurd (omega (arith, x))
      by c v f w i signalling at x = absurd (omega (arith, x))

  -- While nobody is inside, signalling or handed the monitor, it is free to enter.
  outside-Moves : (i : ℕ) → 0 < s.monitor.mutex → get_elem? s.threads i ≡ some outside → Moves s
  outside-Moves i n at =
      come-Moves s i leaves outside inside (enter s.monitor) at refl (enter_total s.monitor n)

  free-Moves :
      0 < s.monitor.mutex
      → (i : ℕ) (p : Place) → get_elem? s.threads i ≡ some p
      → is_waiting p ≡ false
      → Moves s
  free-Moves n i outside at e = outside-Moves i n at
  free-Moves n i inside at e = act-Moves i leaves inside s _ at refl
  free-Moves n i signalling at e =
      let one_there = le-total is_signalling s.threads i signalling at in
      absurd (omega (arith, h.free n, h.nexts))
  free-Moves n i (waiting c) at e = cc

-- In every system that a monitor and its threads can come to, some thread has a step, unless all of
-- its threads are in `cond_wait`.
pub Reach-Moves :
    {num_cv n : ℕ} {s : System} (i : ℕ) (p : Place)
    → Reach num_cv n s
    → get_elem? s.threads i ≡ some p
    → is_waiting p ≡ false
    → (j : ℕ) × (k : Choice) × (t : System) × (step j k s ≡ some t)
Reach-Moves {s} i p r at e =
    let h = Reach-IsValid r in
    elim (one_of s.monitor.mutex s.monitor.next (total sem_of s.monitor.cv)
      (total is_inside s.threads) h.one) [
        | inl a ↦ inside-Moves s h a
        | inr (inl a) ↦ signalling-Moves s h a
        | inr (inr (inl a)) ↦ waiting-Moves s h a
        | inr (inr (inr a)) ↦ free-Moves s h a i p at e
      ]
