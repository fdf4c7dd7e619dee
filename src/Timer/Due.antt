-- ===== src/Timer/Due.antt =====
-- The ticks that each timer of kern/schedule/sched.c has left, summed up from its list.
use oscmp.Base.{
  ℕ, ◌+◌, ◌-◌, ◌^◌, ◌<◌, ◌≡◌, ◌≢◌, refl, false, Option, none, some, List, [], ◌∷◌, ◌==◌,
  if◌then◌else◌, arith, Fresh, Distinct,
}
use oscmp.Timer.Defs.{Timer, queued, insert_timer, add_timer, pass_on, del_timer}

abbrev pub links : List Timer → List ℕ
links [] = []
links (t ∷ ts) = t.link ∷ links ts

-- The ticks left of the timer `k`, behind timers with `acc` ticks.
abbrev pub due_from : ℕ → ℕ → List Timer → Option ℕ
due_from acc k [] = none
due_from acc k (t ∷ ts) =
    if t.link == k then some (acc + t.expires) else due_from (acc + t.expires) k ts

abbrev pub due : ℕ → List Timer → Option ℕ
due = due_from 0

abbrev pub ticks : List Timer → ℕ
ticks [] = 0
ticks (t ∷ ts) = t.expires + ticks ts

due_from-insert :
    (acc k : ℕ) (t : Timer) (ts : List Timer)
    → Fresh t.link (links ts)
    → due_from acc k (insert_timer t ts)
      ≡ (if t.link == k then some (acc + t.expires) else due_from acc k ts)
unfolding insert_timer
due_from-insert acc k t [] f = refl
due_from-insert acc k t (n ∷ ts) f = ground (
  arith,
  due_from-insert (acc + n.expires) k (record t { expires = t.expires - n.expires }) ts f.1,
)

queued-false : (k : ℕ) (ts : List Timer) → Fresh k (links ts) → queued k ts ≡ false
unfolding queued
queued-false k [] f = refl
queued-false k (t ∷ ts) f = ground (arith, queued-false k ts f.1)

-- `add_timer` of a timer that is in no list, with a process and a positive number of ticks, succeeds:
-- the timer is due in as many ticks, and every other timer is due when it was.
pub due-add_timer :
    (t : Timer) (ts : List Timer)
    → 0 < t.expires
    → t.proc ≢ 0
    → Fresh t.link (links ts)
    → (ts' : List Timer) × (add_timer t ts ≡ some ts')
      × ((k : ℕ) → due k ts' ≡ (if t.link == k then some t.expires else due k ts))
unfolding add_timer
due-add_timer t ts pos nz f = (
  insert_timer t ts,
  ground (arith, queued-false t.link ts f),
  λ k. ground (arith, due_from-insert 0 k t ts f),
)

pub due_from-absent : (acc k : ℕ) (ts : List Timer) → Fresh k (links ts) → due_from acc k ts ≡ none
due_from-absent acc k [] f = refl
due_from-absent acc k (t ∷ ts) f = ground (arith, due_from-absent (acc + t.expires) k ts f.1)

due_from-pass_on :
    (acc e k : ℕ) (ts : List Timer)
    → e + ticks ts < 2 ^ 32
    → due_from acc k (pass_on e ts) ≡ due_from (acc + e) k ts
due_from-pass_on acc e k [] h = refl
due_from-pass_on acc e k (n ∷ ts) h = ground arith

due_from-del :
    (acc k j : ℕ) (ts : List Timer)
    → Distinct (links ts)
    → ticks ts < 2 ^ 32
    → due_from acc k (del_timer j ts) ≡ (if j == k then none else due_from acc k ts)
unfolding del_timer
due_from-del acc k j [] d h = ground arith
due_from-del acc k j (t ∷ ts) d h = ground (
  arith,
  due_from-pass_on acc t.expires k ts,
  due_from-absent (acc + t.expires) k ts,
  due_from-del (acc + t.expires) k j ts,
)

-- `del_timer` takes out the timer, and every other timer is due when it was.
pub due-del_timer :
    (k j : ℕ) (ts : List Timer)
    → Distinct (links ts)
    → ticks ts < 2 ^ 32
    → due k (del_timer j ts) ≡ (if j == k then none else due k ts)
due-del_timer k j ts d h = due_from-del 0 k j ts d h
