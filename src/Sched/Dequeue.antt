-- ===== src/Sched/Dequeue.antt =====
-- Taking the next process out of the run queue (kern/schedule) keeps its invariant.
use oscmp.Base.{ℕ, ◌+◌, ◌^◌, ◌≤◌, ◌<◌, ◌≡◌, ◌≢◌, ap, ◌==◌, if◌then◌else◌, arith}
use mathlib.Core.Path.{subst}
use oscmp.SkewHeap.{Heap, entry}
use oscmp.SkewHeap.Order.{
  All, IsOrdered, count, size, count-merge, size-merge, All-merge, merge-IsOrdered, IsOrdered-same,
  All-map, All-both, count-All,
}
use oscmp.Sched.Defs.{Sched, proc_stride_comp_f}
use oscmp.Sched.Stride.{InWindow, comp_total, comp_trans}
use oscmp.Sched.Invariant.{Ready, IsValid, pass-le, passed, dequeued, rest-InWindow}

-- What is known of the heap after the dequeue of its root.
pub record Dequeued (s : Sched) (g : ℕ → ℕ) (p : ℕ) (s' : Sched) : Type 0 where
  pub valid : IsValid s' (passed s.procs g p) (g p)
  pub gone : count p s'.rq.pool ≡ 0
  pub window : InWindow s'.procs (passed s.procs g p) (g p) p
  pub least : All (λ k. g p ≤ g k) s'.rq.pool
  pub kept : (k : ℕ) → count k s'.rq.pool + (if p == k then 1 else 0) ≡ count k s.rq.pool
  pub shrinks : size s'.rq.pool + 1 ≡ size s.rq.pool

pub dequeued-Dequeued :
    (s : Sched) (g : ℕ → ℕ) (base p : ℕ) (l r : Heap)
    → IsValid s g base
    → s.rq.pool ≡ entry p l r
    → Dequeued s g p (dequeued s p l r)
dequeued-Dequeued s g base p l r v e =
    let c = proc_stride_comp_f s.procs in
    let s' = dequeued s p l r in
    let c' = proc_stride_comp_f s'.procs in
    let g' = passed s.procs g p in
    let W' = InWindow s'.procs g' (g p) in
    let w : All (InWindow s.procs g base) (entry p l r) = rw e at v.window in
    let o : IsOrdered c (entry p l r) = rw e at v.ordered in
    let d : All (Ready s) (entry p l r) = subst (λ h. All (Ready s) h) e v.ready in
    let once = λ (k : ℕ). let h : count k (entry p l r) ≤ 1 = rw e at (v.once k) in h in
    let n : s.rq.proc_num ≡ size (entry p l r) = rw e at v.counted in
    let few : size (entry p l r) < 2 ^ 32 = rw e at v.few in
    let cl : count p l ≡ 0 = ground (arith, once p) in
    let cr : count p r ≡ 0 = ground (arith, once p) in
    let wl = rest-InWindow s g base p l w.0 o.0 o.2 w.1 cl in
    let wr = rest-InWindow s g base p r w.0 o.1 o.3 w.2 cr in
    let same = λ (h : Heap) (k : count p h ≡ 0) (i : IsOrdered c h).
      IsOrdered-same c c' (λ a. a ≢ p) h (λ a b x y. ground arith) (count-All p h k) i in
    let gone : count p s'.rq.pool ≡ 0 = omega (arith, count-merge c' p l r, cl, cr) in
    let window = All-merge c' W' l r wl wr in
    let keep = λ (a : ℕ) (u : Ready s a).
      let x : Ready s' a = record {
        state = ground (arith, u.state);
        queued = ground (arith, u.queued);
        busy = u.busy;
      } in
      x in
    record {
      valid = record {
        window = window;
        ordered =
            merge-IsOrdered c' W' (comp_total s'.procs g' (g p)) (comp_trans s'.procs g' (g p)) l r
              wl wr (same l cl o.2) (same r cr o.3);
        ready =
            All-merge c' (Ready s') l r (All-map (Ready s) (Ready s') l keep d.1)
              (All-map (Ready s) (Ready s') r keep d.2);
        once = λ k. ground (arith, count-merge c' k l r, once k);
        counted = ground (arith, size-merge c' l r, n);
        few = ground (arith, size-merge c' l r, few);
      };
      gone = gone;
      window = record {
        low = ground arith;
        high = ground (arith, pass-le (s.procs p));
        stride = ground (arith, w.0.stride);
      };
      least =
          All-map (λ k. W' k × (k ≢ p)) _ s'.rq.pool (λ k u. ground (arith, u.0.low))
            (All-both _ _ s'.rq.pool window (count-All p s'.rq.pool gone));
      kept = λ k. ground (arith, count-merge c' k l r, ap (count k) e);
      shrinks = ground (arith, size-merge c' l r, ap size e);
    }
