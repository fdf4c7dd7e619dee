-- ===== src/Sched/Schedule.antt =====
-- `schedule` of kern/schedule/sched.c as a whole.
use oscmp.Base.{
  ◌&&◌, ℕ, ◌+◌, ◌^◌, ◌≤◌, ◌<◌, ◌≡◌, ◌≢◌, ◌∙◌, refl, sym, ap, true, false, ◌==◌, if◌then◌else◌,
  arith, Bool-cases, inl, inr, some, Option, ◌⊎◌,
}
use mathlib.Core.Path.{subst}
use oscmp.SkewHeap.{Heap, null, entry, skew_heap_insert, skew_heap_init}
use oscmp.SkewHeap.Order.{All, count, size, count-merge, IsOrdered-same, All-map}
use oscmp.Sched.Defs.{
  Proc, Sched, proc_stride_comp_f, runnable, is_runnable, stride_enqueue, stride_pick_next,
  stride_dequeue, sched_class_enqueue, schedule, run_next, edit, yield_current, switch_to,
}
use oscmp.Sched.Stride.{InWindow}
use oscmp.Sched.Invariant.{
  Ready, IsValid, enqueue-IsValid, passed, dequeued, pick_next-eq, dequeue-eq,
}
use oscmp.Sched.Dequeue.{dequeued-Dequeued}

-- Descriptors that the run queue cannot tell apart.
record Alike (p q : Proc) : Type 0 where
  state : q.state ≡ p.state
  queued : q.in_rq ≡ p.in_rq
  stride : q.stride ≡ p.stride

-- A change of other fields of the processes, and of `current`, keeps the invariant.
Alike-IsValid :
    (s : Sched) (procs : ℕ → Proc) (cur : ℕ) (g : ℕ → ℕ) (base : ℕ)
    → ((a : ℕ) → Alike (s.procs a) (procs a))
    → IsValid s g base
    → IsValid (record s { procs = procs; current = cur }) g base
Alike-IsValid s procs cur g base f v =
    let s' = record s { procs = procs; current = cur } in
    record {
      window =
          All-map _ (InWindow procs g base) s.rq.pool
            (λ a u. record { low = u.low; high = u.high; stride = (f a).stride ∙ u.stride })
            v.window;
      ordered =
          IsOrdered-same (proc_stride_comp_f s.procs) (proc_stride_comp_f procs)
            (InWindow s.procs g base) s.rq.pool (λ a b _ _. rw ((f a).stride, (f b).stride))
            v.window v.ordered;
      ready =
          All-map (Ready s) (Ready s') s.rq.pool
            (λ a u. record {
              state = (f a).state ∙ u.state;
              queued = (f a).queued ∙ u.queued;
              busy = u.busy;
            })
            v.ready;
      once = v.once;
      counted = v.counted;
      few = v.few;
    }

run_next-IsValid :
    (s : Sched) (n : ℕ) (g : ℕ → ℕ) (base : ℕ) → IsValid s g base → IsValid (run_next s n) g base
unfolding run_next
run_next-IsValid s n g base v =
    Alike-IsValid s _ n g base
      (λ a. record { state = ground arith; queued = ground arith; stride = ground arith }) v

-- What is known of the process that runs: it is not in the queue, and its stride lies in the window
-- if it will go back there.
pub record Runs (s : Sched) (g : ℕ → ℕ) (base : ℕ) : Type 0 where
  pub out : count s.current s.rq.pool ≡ 0
  pub window :
      (s.procs s.current).state ≡ runnable
      → s.current ≢ s.idleproc
      → InWindow s.procs g base s.current

-- The outcome of `schedule`: `before k` tells how often `k` was ready to run.
pub record Scheduled (before g : ℕ → ℕ) (s' : Sched) (g' : ℕ → ℕ) (base' : ℕ) : Type 0 where
  pub valid : IsValid s' g' base'
  pub out : count s'.current s'.rq.pool ≡ 0
  pub window : s'.current ≢ s'.idleproc → InWindow s'.procs g' base' s'.current
  pub least : All (λ k. g s'.current ≤ g k) s'.rq.pool
  pub kept :
      (k : ℕ) → k ≢ s'.idleproc → count k s'.rq.pool + (if s'.current == k then 1 else 0) ≡ before k

switch : Sched → Option Sched
switch s = switch_to (stride_pick_next s)

switch-entry :
    (s : Sched) (g : ℕ → ℕ) (base p : ℕ) (l r : Heap)
    → IsValid s g base
    → s.rq.pool ≡ entry p l r
    → (switch s ≡ some (run_next (dequeued s p l r) p))
      × Scheduled
          (λ k. count k s.rq.pool)
          g
          (run_next (dequeued s p l r) p)
          (passed s.procs g p)
          (g p)
unfolding switch switch_to run_next
switch-entry s g base p l r v e =
    let d = dequeued-Dequeued s g base p l r v e in
    let q : (s.procs p).in_rq ≡ true = (subst (λ h. All (Ready s) h) e v.ready).0.queued in
    let n : 0 < s.rq.proc_num = omega (arith, v.counted, ap size e) in
    (
      rw (pick_next-eq s p l r e, dequeue-eq s p l r e q n),
      record {
        valid = run_next-IsValid (dequeued s p l r) p _ _ d.valid;
        out = d.gone;
        window = λ _. record {
          low = d.window.low;
          high = d.window.high;
          stride = ground (arith, d.window.stride);
        };
        least = d.least;
        kept = λ k _. d.kept k;
      },
    )

switch-null :
    (s : Sched) (g : ℕ → ℕ) (base : ℕ)
    → IsValid s g base
    → s.rq.pool ≡ null
    → (switch s ≡ some (run_next s s.idleproc))
      × Scheduled (λ k. count k s.rq.pool) g (run_next s s.idleproc) g base
unfolding switch switch_to stride_pick_next run_next
switch-null s g base v e = (
  rw e,
  record {
    valid = run_next-IsValid s s.idleproc g base v;
    out = rw e;
    window = λ n. absurd (n refl);
    least = subst (λ h. All (λ k. g s.idleproc ≤ g k) h) (sym e) tt;
    kept = λ k n. ground arith;
  },
)

Heap-cases : (h : Heap) → (h ≡ null) ⊎ ((p : ℕ) × (l : Heap) × (r : Heap) × (h ≡ entry p l r))
Heap-cases null = inl refl
Heap-cases (entry p l r) = inr (p, l, r, refl)

abbrev Outcome : Sched → (ℕ → ℕ) → Option Sched → Type 0
Outcome s g o =
    (s' : Sched) × (g' : ℕ → ℕ) × (base' : ℕ) × (o ≡ some s')
    × Scheduled (λ k. count k s.rq.pool) g s' g' base'

switch-Outcome : (s : Sched) (g : ℕ → ℕ) (base : ℕ) → IsValid s g base → Outcome s g (switch s)
switch-Outcome s g base v = elim (Heap-cases s.rq.pool) [
  | inl e ↦ let (a, b) = switch-null s g base v e in (run_next s s.idleproc, g, base, a, b)
  | inr (p, l, r, e) ↦
      let (a, b) = switch-entry s g base p l r v e in
      (run_next (dequeued s p l r) p, passed s.procs g p, g p, a, b)
]

IsValid-yield :
    (s : Sched) (g : ℕ → ℕ) (base : ℕ)
    → IsValid s g base
    → Runs s g base
    → size s.rq.pool + 1 < 2 ^ 32
    → IsValid (yield_current s) g base
unfolding yield_current sched_class_enqueue
IsValid-yield s g base v u few =
    let procs = edit s.procs s.current (λ q. record q { need_resched = false }) in
    let v₁ =
      Alike-IsValid s procs s.current g base
        (λ a. record { state = ground arith; queued = ground arith; stride = ground arith }) v in
    elim (s.procs s.current).state
        as (λ st.
          (s.procs s.current).state ≡ st
          → IsValid
              (if is_runnable st
                then if s.current == s.idleproc
                  then record s { procs = procs }
                  else stride_enqueue (record s { procs = procs }) s.current
                else record s { procs = procs })
              g base) [
                | runnable ↦ λ e. elim (Bool-cases (s.current == s.idleproc)) [
                  | inl idle ↦ rw idle v₁
                  | inr busy ↦ rw busy (
                      enqueue-IsValid (record s { procs = procs }) g base s.current v₁ u.out
                        (let w = u.window e (ground arith) in
                          record { low = w.low; high = w.high; stride = ground (arith, w.stride) })
                        (ground arith) (ground arith) few)
                ]
                | _ ↦ λ _. v₁
              ]
      refl

-- The processes that are ready to run before `schedule`: those in the queue, and the running one.
abbrev pub ready_before : Sched → ℕ → ℕ
ready_before s k =
    count k s.rq.pool + (if s.current == k && is_runnable (s.procs s.current).state then 1 else 0)

count-yield :
    (s : Sched) (k : ℕ) → k ≢ s.idleproc → count k (yield_current s).rq.pool ≡ ready_before s k
unfolding yield_current sched_class_enqueue stride_enqueue skew_heap_insert skew_heap_init
count-yield s k n =
    let procs = edit s.procs s.current (λ q. record q { need_resched = false }) in
    ground (arith, count-merge (proc_stride_comp_f procs) k s.rq.pool (entry s.current null null))

idleproc-yield : (s : Sched) → (yield_current s).idleproc ≡ s.idleproc
unfolding yield_current sched_class_enqueue stride_enqueue
idleproc-yield s = ground arith

idleproc-switch : (s s' : Sched) → switch s ≡ some s' → s'.idleproc ≡ s.idleproc
unfolding switch switch_to stride_pick_next stride_dequeue run_next
idleproc-switch s s' e = ground arith

-- From a valid queue, with the running process out of it, `schedule` succeeds: it keeps the queue
-- valid for some unbounded strides and window, the process that it switches to is not in the queue
-- and in the window unless it is the idle process, no process in the queue has a smaller unbounded
-- stride than the one that it switches to had, and the processes other than the idle one in the
-- queue or running are those that were in the queue before or running and runnable.
pub schedule-Scheduled :
    (s : Sched) (g : ℕ → ℕ) (base : ℕ)
    → IsValid s g base
    → Runs s g base
    → size s.rq.pool + 1 < 2 ^ 32
    → (s' : Sched) × (g' : ℕ → ℕ) × (base' : ℕ) × (schedule s ≡ some s')
      × (s'.idleproc ≡ s.idleproc)
      × Scheduled (ready_before s) g s' g' base'
unfolding schedule switch
schedule-Scheduled s g base v u few =
    let (s', g', b', e, d) =
      switch-Outcome (yield_current s) g base (IsValid-yield s g base v u few) in
    let i = idleproc-switch (yield_current s) s' e ∙ idleproc-yield s in
    (
      s',
      g',
      b',
      e,
      i,
      record {
        valid = d.valid;
        out = d.out;
        window = d.window;
        least = d.least;
        kept = λ k n. d.kept k n ∙ count-yield s k (λ h. n (h ∙ sym i));
      },
    )
