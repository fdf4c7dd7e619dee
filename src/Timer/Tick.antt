-- ===== src/Timer/Tick.antt =====
-- `run_timer_list` of kern/schedule/sched.c: one tick.
use oscmp.Base.{
  ℕ, ◌+◌, ◌-◌, ◌<◌, ◌≡◌, refl, true, false, ◌||◌, Option, none, some, List, [], ◌∷◌, ◌==◌,
  if◌then◌else◌, arith, Distinct, Bool-cases, inl, inr,
}
use oscmp.Sched.{
  Sched, wakeup_proc, wake, sched_class_proc_tick, stride_proc_tick, sched_class_enqueue,
  stride_enqueue, is_zombie, is_runnable,
}
use oscmp.Timer.Defs.{Timer, interruptible, expire, run_timer_list}
use oscmp.Timer.Due.{links, due_from, due, due_from-absent}

-- `run_timer_list` may wake the process: it is no zombie, and what it waits for may be interrupted.
pub record Wakeable (s : Sched) (p : ℕ) : Type 0 where
  pub alive : is_zombie (s.procs p).state ≡ false
  pub waits : ((s.procs p).wait_state == 0 || interruptible (s.procs p).wait_state) ≡ true

abbrev pub AllWakeable : Sched → List Timer → Type 0
AllWakeable s [] = Unit
AllWakeable s (t ∷ ts) = Wakeable s t.proc × AllWakeable s ts

-- What a wakeup of `p` does to the states.
record Woken (s : Sched) (p : ℕ) (s' : Sched) : Type 0 where
  runs : is_runnable (s'.procs p).state ≡ true
  stays : (q : ℕ) → is_runnable (s.procs q).state ≡ true → is_runnable (s'.procs q).state ≡ true
  wakeable : (q : ℕ) → Wakeable s q → Wakeable s' q

wake-Woken : (s : Sched) (p : ℕ) → Woken s p (wake s p)
unfolding wake sched_class_enqueue stride_enqueue
wake-Woken s p = record {
  runs = ground arith;
  stays = λ q h. ground arith;
  wakeable = λ q h. record { alive = ground (arith, h.alive); waits = ground (arith, h.waits) };
}

wakeup_proc-eq-wake : (s : Sched) (p : ℕ) → Wakeable s p → wakeup_proc s p ≡ some (wake s p)
unfolding wakeup_proc
wakeup_proc-eq-wake s p w = rw w.alive

AllWakeable-wake :
    (s : Sched) (p : ℕ) (ts : List Timer) → AllWakeable s ts → AllWakeable (wake s p) ts
AllWakeable-wake s p [] w = tt
AllWakeable-wake s p (t ∷ ts) w =
    ((wake-Woken s p).wakeable t.proc w.0, AllWakeable-wake s p ts w.1)

-- The timers whose ticks are up, in front of a list, and the timers behind them.
abbrev up : List Timer → List Timer
up [] = []
up (t ∷ ts) = if t.expires == 0 then t ∷ up ts else []

abbrev later : List Timer → List Timer
later [] = []
later (t ∷ ts) = if t.expires == 0 then later ts else t ∷ ts

abbrev AllRun : Sched → List Timer → Type 0
AllRun s [] = Unit
AllRun s (t ∷ ts) = (is_runnable (s.procs t.proc).state ≡ true) × AllRun s ts

record Expired (s : Sched) (ts : List Timer) (s' : Sched) : Type 0 where
  result : expire s ts ≡ some (s', later ts)
  runs : AllRun s' (up ts)
  stays : (q : ℕ) → is_runnable (s.procs q).state ≡ true → is_runnable (s'.procs q).state ≡ true

expire-Expired : (s : Sched) (ts : List Timer) → AllWakeable s ts → (s' : Sched) × Expired s ts s'
unfolding expire
expire-Expired s [] w = (s, record { result = refl; runs = tt; stays = λ q h. h })
expire-Expired s (t ∷ ts) w = elim (Bool-cases (t.expires == 0)) [
  | inr e ↦ (s, record { result = rw e; runs = rw e tt; stays = λ q h. h })
  | inl e ↦
      let k = wake-Woken s t.proc in
      let (s', d) = expire-Expired (wake s t.proc) ts (AllWakeable-wake s t.proc ts w.1) in
      (
        s',
        record {
          result = rw (e, w.0.waits, wakeup_proc-eq-wake s t.proc w.0) d.result;
          runs = rw e (d.stays t.proc k.runs, d.runs);
          stays = λ q h. d.stays q (k.stays q h);
        },
      )
]

abbrev positive : Option ℕ → Option ℕ
positive none = none
positive (some d) = if d == 0 then none else some d

-- One tick: a timer with one tick left is gone, every other has one tick less.
abbrev pub after_tick : Option ℕ → Option ℕ
after_tick none = none
after_tick (some d) = if d == 1 then none else some (d - 1)

positive-due_from :
    (acc k : ℕ) (ts : List Timer) → 0 < acc → positive (due_from acc k ts) ≡ due_from acc k ts
positive-due_from acc k [] h = refl
positive-due_from acc k (t ∷ ts) h = ground (arith, positive-due_from (acc + t.expires) k ts)

due-later :
    (k : ℕ) (ts : List Timer)
    → Distinct (links ts)
    → due_from 0 k (later ts) ≡ positive (due_from 0 k ts)
due-later k [] d = refl
due-later k (t ∷ ts) d =
    ground (arith, due-later k ts d.1, due_from-absent 0 k ts, positive-due_from t.expires k ts)

abbrev pred_due : Option ℕ → Option ℕ
pred_due none = none
pred_due (some d) = some (d - 1)

due_from-pred :
    (acc k : ℕ) (ts : List Timer) → 0 < acc → due_from (acc - 1) k ts ≡ pred_due (due_from acc k ts)
due_from-pred acc k [] h = refl
due_from-pred acc k (t ∷ ts) h =
    let e : acc - 1 + t.expires ≡ acc + t.expires - 1 = omega arith in
    ground (arith, e, due_from-pred (acc + t.expires) k ts)

-- The process that waits for the timer `k`.
abbrev pub proc_of : ℕ → List Timer → Option ℕ
proc_of k [] = none
proc_of k (t ∷ ts) = if t.link == k then some t.proc else proc_of k ts

up-runs :
    (s : Sched) (k p : ℕ) (ts : List Timer)
    → AllRun s (up ts)
    → proc_of k ts ≡ some p
    → due_from 0 k ts ≡ some 0
    → is_runnable (s.procs p).state ≡ true
up-runs s k p [] r e d = cc
up-runs s k p (t ∷ ts) r e d = elim (Bool-cases (t.expires == 0)) [
  | inl z ↦ let r' : AllRun s (t ∷ up ts) = rw z at r in ground (arith, up-runs s k p ts r'.1, r'.0)
  | inr z ↦ ground (arith, positive-due_from t.expires k ts)
]

tick-state :
    (s : Sched) (p q : ℕ)
    → is_runnable ((sched_class_proc_tick s p).procs q).state ≡ is_runnable (s.procs q).state
unfolding sched_class_proc_tick stride_proc_tick
tick-state s p q = ground arith

-- If every timer's process may be woken and the first timer has ticks left, `run_timer_list` succeeds: every
-- timer has one tick less, those that had one left are gone, and the process of each of these is runnable.
pub run_timer_list-tick :
    (s : Sched) (t : Timer) (ts : List Timer)
    → AllWakeable s (t ∷ ts)
    → Distinct (links (t ∷ ts))
    → 0 < t.expires
    → (s' : Sched) × (ts' : List Timer) × (run_timer_list s (t ∷ ts) ≡ some (s', ts'))
      × ((k : ℕ) → due k ts' ≡ after_tick (due k (t ∷ ts)))
      × ((k p : ℕ)
          → proc_of k (t ∷ ts) ≡ some p
          → due k (t ∷ ts) ≡ some 1
          → is_runnable (s'.procs p).state ≡ true)
unfolding run_timer_list
run_timer_list-tick s t ts w d pos =
    let t₁ : Timer = record t { expires = t.expires - 1 } in
    let (s₁, x) = expire-Expired s (t₁ ∷ ts) w in
    let ticked : (k : ℕ) → due k (t₁ ∷ ts) ≡ pred_due (due k (t ∷ ts)) =
      λ k. ground (arith, due_from-pred t.expires k ts) in
    (
      (if s₁.current == 0 then s₁ else sched_class_proc_tick s₁ s₁.current),
      later (t₁ ∷ ts),
      ground (arith, x.result),
      λ k. ground (arith, due-later k (t₁ ∷ ts) d, ticked k, positive-due_from t.expires k ts),
      λ k p e h.
          ground (arith, up-runs s₁ k p (t₁ ∷ ts) x.runs, tick-state s₁ s₁.current p, ticked k),
    )
