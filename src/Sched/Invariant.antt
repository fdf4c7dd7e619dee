-- ===== src/Sched/Invariant.antt =====
-- The invariant of the run queue (kern/schedule), and what keeps it.
use oscmp.Base.{
  ℕ, ◌+◌, ◌-◌, ◌^◌, ◌≤◌, ◌<◌, ◌≡◌, ◌≢◌, refl, true, false, ◌==◌, ==_iff, lt→ltb, arith, update,
  some,
}
use oscmp.SkewHeap.{
  Sign, Heap, null, entry, is_minus, skew_heap_insert, skew_heap_merge, skew_heap_init,
  skew_heap_remove,
}
use oscmp.SkewHeap.Order.{
  All, IsOrdered, RootOver, count, size, count-merge, size-merge, All-merge, merge-IsOrdered,
  IsOrdered-same, All-map, All-both, count-All, root-least,
}
use oscmp.Sched.Defs.{
  stride_pick_next, stride_dequeue, Proc, Sched, big_stride, proc_stride_comp_f, runnable,
  stride_enqueue, edit, pass, u32,
}
use oscmp.Sched.Stride.{InWindow, comp_total, comp_trans, comp-window}

-- A process that waits in the run queue.
pub record Ready (s : Sched) (p : ℕ) : Type 0 where
  pub state : (s.procs p).state ≡ runnable
  pub queued : (s.procs p).in_rq ≡ true
  pub busy : p ≢ s.idleproc

-- `g` gives the unbounded strides, which lie within `big_stride` from `base`.
pub record IsValid (s : Sched) (g : ℕ → ℕ) (base : ℕ) : Type 0 where
  pub window : All (InWindow s.procs g base) s.rq.pool
  pub ordered : IsOrdered (proc_stride_comp_f s.procs) s.rq.pool
  pub ready : All (Ready s) s.rq.pool
  pub once : (k : ℕ) → count k s.rq.pool ≤ 1
  pub counted : s.rq.proc_num ≡ size s.rq.pool
  pub few : size s.rq.pool < 2 ^ 32

-- `stride_enqueue` of a runnable process that is not in the queue, and whose stride lies in the window, keeps the invariant.
pub enqueue-IsValid :
    (s : Sched) (g : ℕ → ℕ) (base p : ℕ)
    → IsValid s g base
    → count p s.rq.pool ≡ 0
    → InWindow s.procs g base p
    → (s.procs p).state ≡ runnable
    → p ≢ s.idleproc
    → size s.rq.pool + 1 < 2 ^ 32
    → IsValid (stride_enqueue s p) g base
unfolding stride_enqueue skew_heap_insert skew_heap_init
enqueue-IsValid s g base p v fresh w run busy few =
    let c = proc_stride_comp_f s.procs in
    let s' = stride_enqueue s p in
    let one : Heap = entry p null null in
    let merged = All-merge c (InWindow s.procs g base) s.rq.pool one v.window (w, tt, tt) in
    record {
      window =
          All-map _ (InWindow s'.procs g base) s'.rq.pool
            (λ a u. record { low = u.low; high = u.high; stride = ground (arith, u.stride) })
            merged;
      ordered =
          IsOrdered-same c (proc_stride_comp_f s'.procs) (InWindow s.procs g base) s'.rq.pool
            (λ a b _ _. ground arith) merged
            (merge-IsOrdered c (InWindow s.procs g base) (comp_total s.procs g base)
              (comp_trans s.procs g base) s.rq.pool one v.window (w, tt, tt) v.ordered
              (tt, tt, tt, tt));
      ready =
          All-merge c (Ready s') s.rq.pool one
            (All-map (Ready s) (Ready s') s.rq.pool
              (λ a u. record {
                state = ground (arith, u.state);
                queued = ground (arith, u.queued);
                busy = u.busy;
              })
              v.ready)
            (record { state = ground arith; queued = ground arith; busy = busy }, tt, tt);
      once = λ k. ground (arith, count-merge c k s.rq.pool one, v.once k);
      counted = ground (arith, size-merge c s.rq.pool one, v.counted);
      few = ground (arith, size-merge c s.rq.pool one);
    }

pub pass-le : (q : Proc) → pass q ≤ big_stride
pass-le q = ground arith

-- The unbounded strides once `p` has been picked.
abbrev pub passed : (ℕ → Proc) → (ℕ → ℕ) → ℕ → ℕ → ℕ
passed procs g p = update g p (g p + pass (procs p))

-- The heap without its root `p`.
abbrev pub dequeued : Sched → ℕ → Heap → Heap → Sched
dequeued s p l r =
    let procs = edit s.procs p (λ q. record q { stride = u32 (q.stride + pass q) }) in
    record s {
      procs = procs;
      rq = record s.rq {
        pool = skew_heap_merge (proc_stride_comp_f procs) l r;
        proc_num = s.rq.proc_num - 1;
      };
    }

abbrev pub picked : Sched → ℕ → Sched
picked s p = record s {
  procs = edit s.procs p (λ q. record q { stride = u32 (q.stride + pass q) });
}

pub pick_next-eq :
    (s : Sched) (p : ℕ) (l r : Heap)
    → s.rq.pool ≡ entry p l r
    → stride_pick_next s ≡ (some p, picked s p)
unfolding stride_pick_next
pick_next-eq s p l r e = rw e

remove_root :
    (c : ℕ → ℕ → Sign) (p : ℕ) (l r : Heap)
    → skew_heap_remove c (entry p l r) p ≡ skew_heap_merge c l r
unfolding skew_heap_remove
remove_root c p l r = let t : (p == p) ≡ true = (==_iff p p).1 refl in rw t

pub dequeue-eq :
    (s : Sched) (p : ℕ) (l r : Heap)
    → s.rq.pool ≡ entry p l r
    → (s.procs p).in_rq ≡ true
    → 0 < s.rq.proc_num
    → stride_dequeue (picked s p) p ≡ some (dequeued s p l r)
unfolding stride_dequeue
dequeue-eq s p l r e q n =
    let t : (p == p) ≡ true = (==_iff p p).1 refl in rw (t, q, lt→ltb 0 _ n, e, remove_root)

-- Everything else in the queue keeps its unbounded stride, which is at least that of the root.
pub rest-InWindow :
    (s : Sched) (g : ℕ → ℕ) (base p : ℕ) (h : Heap)
    → InWindow s.procs g base p
    → RootOver (proc_stride_comp_f s.procs) p h
    → IsOrdered (proc_stride_comp_f s.procs) h
    → All (InWindow s.procs g base) h
    → count p h ≡ 0
    → All
        (InWindow
          (edit s.procs p (λ q. record q { stride = u32 (q.stride + pass q) }))
          (passed s.procs g p)
          (g p))
        h
rest-InWindow s g base p h w o d a c =
    All-map
      (λ a.
        (InWindow s.procs g base a × (is_minus (proc_stride_comp_f s.procs a p) ≡ false)) × (a ≢ p))
      _ h
      (λ a u. record {
        low = ground (arith, comp-window s.procs g base a p u.0.0 w);
        high = ground (arith, u.0.0.high, w.low);
        stride = ground (arith, u.0.0.stride);
      })
      (All-both _ _ h
        (All-both _ _ h a (
          root-least (proc_stride_comp_f s.procs) (InWindow s.procs g base)
            (comp_total s.procs g base) (comp_trans s.procs g base) p h w a o d))
        (count-All p h c))
