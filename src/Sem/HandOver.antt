-- ===== src/Sem/HandOver.antt =====
-- `up` and `down` of kern/sync/sem.c: the hand-over of a semaphore to its first waiter.
use oscmp.Base.{
  ℕ, ◌+◌, ◌-◌, ◌≡◌, refl, ap, ◌∙◌, Bool, true, false, Option, none, some, List, [], ◌∷◌, ◌++◌, ◌==◌,
  ltb, if◌then◌else◌, ◌>>=◌, arith, Bool-cases, inl, inr, ◌⊎◌,
}
use mathlib.Core.Path.{subst}
use oscmp.Sched.{Sched, is_runnable}
use oscmp.Sem.Defs.{
  Wait, Sem, member, wait_queue_add, wait_current_set, wait_current_del, wt_ksem, up, up_found,
  first_of, down_start, down_end,
}
use oscmp.Sem.Queue.{Alive, woken, wakeup_wait_first, wake-state}

-- Nobody waits while the value is positive.
abbrev pub IsValid : Sem → Type 0
IsValid s = (s.value ≡ 0) ⊎ (s.waiting.queue ≡ [])

-- `up` of a semaphore that a process waits for keeps the value and hands over to the first waiter:
-- exactly this wait leaves the queue and its process becomes runnable. When `down` comes back to this
-- process, in any later state in which the wait is as `up` left it and in no queue, it returns and
-- changes nothing more. (The first waiter is no zombie and sleeps for the semaphore.)
pub up-down_end :
    (s : Sem) (w : ℕ) (ws : List ℕ)
    → s.waiting.queue ≡ w ∷ ws
    → Alive s.waiting.sched (s.waiting.waits w).proc
    → (s.waiting.sched.procs (s.waiting.waits w).proc).wait_state ≡ wt_ksem
    → (s' : Sem) × (up s ≡ some s')
      × (s'.value ≡ s.value)
      × (s'.waiting.queue ≡ ws)
      × (is_runnable (s'.waiting.sched.procs (s.waiting.waits w).proc).state ≡ true)
      × ((s'' : Sem)
          → s''.waiting.waits w ≡ s'.waiting.waits w
          → member w s''.waiting.queue ≡ false
          → down_end s'' w ≡ some s'')
unfolding up down_end wait_current_del
up-down_end s w ws q alive waits =
    let p = (s.waiting.waits w).proc in
    let t = woken s.waiting w ws wt_ksem in
    let same : (w == w) ≡ true = ground arith in
    (
      record s { waiting = t },
      ap (λ x. up_found (first_of x) s wt_ksem) q
          ∙ rw (waits, wakeup_wait_first s.waiting w ws wt_ksem q alive) refl,
      refl,
      refl,
      ground (arith, (wake-state s.waiting.sched p p).1),
      λ s'' e out. rw (out, e, same) refl,
    )

-- `up` with no waiter makes the value one more, and `down` takes this one back without waiting.
pub up-down_start :
    (s : Sem) (w : ℕ)
    → s.waiting.queue ≡ []
    → (s' : Sem) × (up s ≡ some s') × IsValid s' × (down_start s' w ≡ some (true, s))
unfolding up down_start
up-down_start s w q =
    let pos : ltb 0 (s.value + 1) ≡ true = ground arith in
    let back : s.value + 1 - 1 ≡ s.value = omega arith in
    (record s { value = s.value + 1 }, rw q refl, inr q, rw (pos, back) refl)

-- What `down` does up to the switch to another process, where it fails no assertion.
abbrev Taken : Sem → ℕ → Option (Bool × Sem) → Type 0
Taken s w none = Unit
Taken s w (some (taken, s')) =
    IsValid s'
    × (s'.value + (if taken then 1 else 0) ≡ s.value)
    × (s'.waiting.queue ≡ (if taken then s.waiting.queue else s.waiting.queue ++ (w ∷ [])))

switched :
    (s : Sem) (w : ℕ) (queue : List ℕ) (waits : ℕ → Wait)
    → s.value ≡ 0
    → queue ≡ s.waiting.queue ++ (w ∷ [])
    → (o : Option Sched)
    → Taken s w (
        o >>= λ p.
        some (false, record s { waiting = record { queue = queue; waits = waits; sched = p } }))
switched s w queue waits z q none = tt
switched s w queue waits z q (some p) = (inl z, omega arith, q)

down_start-Taken : (s : Sem) (w : ℕ) → IsValid s → Taken s w (down_start s w)
unfolding down_start wait_current_set wait_queue_add
down_start-Taken s w v =
    let same : (w == w) ≡ true = ground arith in
    elim (Bool-cases (ltb 0 s.value)) [
      | inl z ↦ rw z (
        elim v [ inl e ↦ absurd (ground (arith, e, z)) | inr e ↦ inr e ],
        ground (arith, z),
        refl,
      )
      | inr z ↦
          let zero_value : s.value ≡ 0 = ground (arith, z) in
          rw z (elim (Bool-cases (s.waiting.sched.current == 0)) [
            | inl y ↦ rw y tt
            | inr y ↦ elim (Bool-cases (member w s.waiting.queue)) [
              | inl x ↦ rw (y, x) tt
              | inr x ↦ rw (y, x, same, y) (switched s w _ _ zero_value refl _)
            ]
          ])
    ]

-- A `down` that returns at once takes one from the value and leaves the queue; one that does not
-- keeps the value, which is 0, and puts the caller's new wait behind those in the queue. Either way
-- no one waits at a positive value, where this was so before.
pub down_start-IsValid :
    (s s' : Sem) (w : ℕ) (taken : Bool)
    → IsValid s
    → down_start s w ≡ some (taken, s')
    → IsValid s'
      × (s'.value + (if taken then 1 else 0) ≡ s.value)
      × (s'.waiting.queue ≡ (if taken then s.waiting.queue else s.waiting.queue ++ (w ∷ [])))
down_start-IsValid s s' w taken v e = subst (Taken s w) e (down_start-Taken s w v)
