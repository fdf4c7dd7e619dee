-- ===== src/Sem/Queue.antt =====
-- What the wakeups of kern/sync/wait.c do.
use oscmp.Base.{
  ℕ, ◌≡◌, refl, sym, ap, true, false, some, List, [], ◌∷◌, ◌==◌, if◌then◌else◌, update, arith,
  Bool-cases, inl, inr,
}
use oscmp.Sched.{
  Sched, is_runnable, is_zombie, wakeup_proc, wake, sched_class_enqueue, stride_enqueue,
}
use oscmp.Sem.Defs.{
  Waiting, member, remove, wait_queue_del, signal, wakeup_wait, wakeup_each, wakeup_queue,
}

abbrev pub Alive : Sched → ℕ → Type 0
Alive s p = is_zombie (s.procs p).state ≡ false

abbrev pub AllAlive : Waiting → List ℕ → Type 0
AllAlive s [] = Unit
AllAlive s (w ∷ ws) = Alive s.sched (s.waits w).proc × AllAlive s ws

-- A wakeup of `p` leaves no zombie and no runnable process that was none, or not, before.
pub wake-state :
    (s : Sched) (p q : ℕ)
    → (is_zombie (s.procs q).state ≡ false → is_zombie ((wake s p).procs q).state ≡ false)
      × (is_runnable ((wake s p).procs q).state
          ≡ (if p == q then true else is_runnable (s.procs q).state))
unfolding wake sched_class_enqueue stride_enqueue
wake-state s p q = (λ h. ground (arith, h), ground arith)

-- The state when the first wait `w` has been woken and taken out of the queue.
abbrev pub woken : Waiting → ℕ → List ℕ → ℕ → Waiting
woken s w ws flags = record {
  queue = ws;
  waits = update s.waits w (record (s.waits w) { wakeup_flags = flags });
  sched = wake s.sched (s.waits w).proc;
}

pub wakeup_wait_first :
    (s : Waiting) (w : ℕ) (ws : List ℕ) (flags : ℕ)
    → s.queue ≡ w ∷ ws
    → Alive s.sched (s.waits w).proc
    → wakeup_wait s w flags true ≡ some (woken s w ws flags)
unfolding wakeup_wait wait_queue_del signal wakeup_proc member remove
wakeup_wait_first s w ws flags q a =
    let same : (w == w) ≡ true = ground arith in rw (q, same, a) refl

-- All waits of `ws` have been woken and taken out.
pub record Drained (s : Waiting) (ws : List ℕ) (flags : ℕ) (s' : Waiting) : Type 0 where
  pub empty : s'.queue ≡ []
  pub flagged :
      (w : ℕ)
      → (s'.waits w).wakeup_flags ≡ (if member w ws then flags else (s.waits w).wakeup_flags)
  pub runs :
      (w : ℕ) → member w ws ≡ true → is_runnable (s'.sched.procs (s.waits w).proc).state ≡ true
  pub stays :
      (p : ℕ)
      → is_runnable (s.sched.procs p).state ≡ true
      → is_runnable (s'.sched.procs p).state ≡ true

AllAlive-woken :
    (s : Waiting) (w : ℕ) (xs ws : List ℕ) (flags : ℕ)
    → AllAlive s ws
    → AllAlive (woken s w xs flags) ws
AllAlive-woken s w xs [] flags a = tt
AllAlive-woken s w xs (x ∷ ws) flags a =
    let kept : ((woken s w xs flags).waits x).proc ≡ (s.waits x).proc = ground arith in
    (
      rw kept ((wake-state s.sched (s.waits w).proc (s.waits x).proc).0 a.0),
      AllAlive-woken s w xs ws flags a.1,
    )

wakeup_each-Drained :
    (s : Waiting) (ws : List ℕ) (flags : ℕ)
    → s.queue ≡ ws
    → AllAlive s ws
    → (s' : Waiting) × (wakeup_each ws s flags true ≡ some s') × Drained s ws flags s'
unfolding wakeup_each member
wakeup_each-Drained s [] flags q a = (
  s,
  refl,
  record { empty = q; flagged = λ w. refl; runs = λ w h. grind (arith, h); stays = λ p h. h },
)
wakeup_each-Drained s (w ∷ ws) flags q a =
    let t = woken s w ws flags in
    let (s', e, d) = wakeup_each-Drained t ws flags refl (AllAlive-woken s w ws ws flags a.1) in
    (
      s',
      rw (wakeup_wait_first s w ws flags q a.0) e,
      record {
        empty = d.empty;
        flagged = λ k. ground (arith, d.flagged k);
        runs = λ k h.
            let kept : (t.waits k).proc ≡ (s.waits k).proc = ground arith in
            elim (Bool-cases (k == w)) [
              | inl z ↦
                  let kw : k ≡ w = ground (arith, z) in
                  d.stays (s.waits k).proc (
                    ground (
                      arith,
                      ap (λ x. (s.waits x).proc) kw,
                      (wake-state s.sched (s.waits w).proc (s.waits k).proc).1,
                    ))
              | inr z ↦ rw (sym kept) (d.runs k (ground (arith, z, h)))
            ];
        stays = λ p h. d.stays p (ground (arith, h, (wake-state s.sched (s.waits w).proc p).1));
      },
    )

-- `wakeup_queue` with `del` empties the queue, with every wait of it signalled and its process
-- runnable, and signals no other wait; a process that was runnable stays so. (The processes that
-- wait are no zombies.)
pub wakeup_queue-Drained :
    (s : Waiting) (flags : ℕ)
    → AllAlive s s.queue
    → (s' : Waiting) × (wakeup_queue s flags true ≡ some s') × Drained s s.queue flags s'
unfolding wakeup_queue
wakeup_queue-Drained s flags a = wakeup_each-Drained s s.queue flags refl a
