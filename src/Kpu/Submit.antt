-- ===== src/Kpu/Submit.antt =====
-- A picture handed to the KPU: the writes of dev_kpuio.c and the round of the controller of
-- kpu_spooling.c (kern/fs/devs) that the last of them wakes.
use oscmp.Base.{
  ℕ, zero, suc, ◌+◌, ◌-◌, ◌%◌, ◌^◌, ◌<◌, ◌≤◌, ◌≡◌, ◌≢◌, refl, sym, ap, ◌∙◌, Bool, true, false, some,
  List, [], ◌∷◌, ◌++◌, ◌>>=◌, pos, length, take, drop, arith, length-append,
}
use mathlib.Core.Path.{subst}
use oscmp.Memory.{Bytes}
use oscmp.Sched.{is_zombie}
use oscmp.Process.{find_proc}
use oscmp.Kpu.Defs.{Kpu, bytes_at, little}
use oscmp.Kpu.Device.{to_int, check_magic}
use oscmp.Kpu.Spool.{new_task, totsize, ctrl_round, gather}
use oscmp.Kpu.Collect.{Collected, stored, ready, settle, stored-Collected, first}
use oscmp.Kpu.Feed.{Block, bytes, contents, Parts, Kept, feed, feed-Collects}
use oscmp.Kpu.Pool.{Ids, task_of, IsPool, IsBuff, ctrl_round-Round}

drop-bytes_at :
    (m : Bytes) (a n k : ℕ) (r : List ℕ)
    → k ≤ n
    → drop k (bytes_at m a n ++ r) ≡ bytes_at m (a + k) (n - k) ++ r
unfolding bytes_at
drop-bytes_at m a n zero r h =
    ap (λ i. bytes_at m i n ++ r) (omega arith) ∙ ap (λ i. bytes_at m (a + 0) i ++ r) (omega arith)
drop-bytes_at m a zero (suc k) r h = absurd (omega (arith, h))
drop-bytes_at m a (suc n) (suc k) r h =
    drop-bytes_at m (a + 1) n k r (omega (arith, h))
    ∙ ap (λ i. bytes_at m i (n - k) ++ r) (omega arith)
    ∙ ap (λ i. bytes_at m (a + suc k) i ++ r) (omega arith)

take-bytes_at :
    (m : Bytes) (a n k : ℕ) (r : List ℕ) → k ≤ n → take k (bytes_at m a n ++ r) ≡ bytes_at m a k
unfolding bytes_at
take-bytes_at m a n zero r h = refl
take-bytes_at m a zero (suc k) r h = absurd (omega (arith, h))
take-bytes_at m a (suc n) (suc k) r h =
    ap (λ xs. m a ∷ xs) (take-bytes_at m (a + 1) n k r (omega (arith, h)))

-- The size that the first block tells is that of the whole.
totsize-first :
    (m : Bytes) (a n : ℕ) (r : List ℕ)
    → 24 ≤ n
    → little (bytes_at m (a + 16) 8) ≡ totsize (bytes_at m a n ++ r)
totsize-first m a n r h = ap little (
    sym (
      ap (take 8) (drop-bytes_at m a n 16 r (omega (arith, h)))
      ∙ take-bytes_at m (a + 16) (n - 16) 8 r (omega (arith, h))))

to_int-pos : (n : ℕ) → n < 2 ^ 31 → to_int n ≡ pos n
unfolding to_int
to_int-pos n h = ground (arith, h)

-- The task of the bytes of all blocks is the last of the list, the thread is made for the task at
-- position `length s.tasklist % 8`, and the pool is as before.
pub record Submitted (stale pid : ℕ) (buff : List ℕ) (s u : Kpu) : Type 0 where
  pub tasklist :
      u.tasklist
      ≡ s.tasklist ++ (new_task stale buff ((s.maxid + 1) % 8) (find_proc s.family pid) ∷ [])
  pub started : u.started ≡ s.started ++ (length s.tasklist % 8 ∷ [])
  pub init_off : u.kpuio_init ≡ false
  pub check_off : u.kpuio_check ≡ false
  pub pool : IsPool u

module _ (stale pid : ℕ) (s : Kpu) where
  finished :
      (on : Bool) (buff : List ℕ) (c : Kpu)
      → Collected (length buff) pid buff c
      → Kept s c
      → IsPool s
      → IsBuff buff
      → 2 < pid
      → find_proc s.family pid ≢ 0
      → is_zombie (s.family.sched.procs (find_proc s.family pid)).state ≡ false
      → (u : Kpu) × ((ctrl_round stale (ready c) >>= λ u. some (settle on u)) ≡ some u)
        × Submitted stale pid buff s u
  finished on buff c k q p b big f z =
      let found : find_proc c.family c.caller_pid ≡ find_proc s.family pid =
        ap (λ g. find_proc g c.caller_pid) q.family ∙ ap (find_proc s.family) k.caller in
      let state : is_zombie (c.family.sched.procs (find_proc c.family c.caller_pid)).state ≡ false =
        ap (λ g. is_zombie (g.sched.procs (find_proc g c.caller_pid)).state) q.family
        ∙ ap (λ i. is_zombie (s.family.sched.procs (find_proc s.family i)).state) k.caller
        ∙ z in
      let (u, e, r) =
        ctrl_round-Round stale buff (ready c)
          (record {
            bufs_size = k.bufs_size;
            lens_size = k.lens_size;
            total = k.total;
            sum = k.sum;
            joined = k.joined;
            caller = refl;
          })
          b
          (record {
            ids = subst (Ids 1) (sym q.tasklist) p.ids;
            last = q.maxid ∙ p.last ∙ ap (λ ts. length ts % 8) (sym q.tasklist);
          })
          refl refl (omega (arith, big, k.caller)) (λ none_found. f (sym found ∙ none_found))
          state in
      (
        settle on u,
        rw e refl,
        record {
          tasklist =
              r.tasklist
              ∙ ap (λ ts. ts ++ (task_of stale c.caller_pid buff c ∷ [])) q.tasklist
              ∙ ap
                  (λ n.
                    s.tasklist
                    ++ (new_task stale buff ((n + 1) % 8) (find_proc c.family c.caller_pid) ∷ []))
                  q.maxid
              ∙ ap (λ n. s.tasklist ++ (new_task stale buff ((s.maxid + 1) % 8) n ∷ [])) found;
          started =
              r.started
              ∙ ap (λ ns. ns ++ (length c.tasklist % 8 ∷ [])) q.started
              ∙ ap (λ ts. s.started ++ (length ts % 8 ∷ [])) q.tasklist;
          init_off = refl;
          check_off = refl;
          pool = record { ids = r.pool.ids; last = r.pool.last };
        },
      )

  start : ℕ → Kpu
  start tot = record s {
    numblock = 0;
    totlength = pos tot;
    sumlen = 0;
    caller_pid = pid;
    interrupts = false;
  }

  -- A buffer that one process, known to the kernel, no zombie, and with an identifier above 2,
  -- hands over in at most 64 blocks, where the controller runs next after the last of them,
  -- becomes the last task of the pool, with all its bytes. The first block has the magic number
  -- and 24 bytes or more, the others are not empty and do not start with it; the buffer has 48
  -- bytes or more and less than 2 ^ 31, the size that it tells, and a picture. In a pool of `n`
  -- tasks with identifiers in turn, the thread is made for the task at position `n % 8`; both
  -- flags are cleared, and the identifiers stay in turn.
  pub feed-Submitted :
      (b : Block) (bs : List Block)
      → check_magic b.mem b.at ≡ true
      → 24 ≤ b.size
      → Parts bs
      → length bs < 64
      → IsBuff (contents (b ∷ bs))
      → length (contents (b ∷ bs)) < 2 ^ 31
      → length s.bufs ≡ 64
      → length s.lens ≡ 64
      → IsPool s
      → 2 < pid
      → find_proc s.family pid ≢ 0
      → is_zombie (s.family.sched.procs (find_proc s.family pid)).state ≡ false
      → (u : Kpu) × (feed (ctrl_round stale) pid (b ∷ bs) s ≡ some u)
        × Submitted stale pid (contents (b ∷ bs)) s u
  unfolding start gather
  feed-Submitted b bs m h p l i j hb hl pool big f z =
      let buff = contents (b ∷ bs) in
      let tot = length buff in
      let size : to_int (little (bytes_at b.mem (b.at + 16) 8)) ≡ pos tot =
        ap to_int (totsize-first b.mem b.at b.size (contents bs) h ∙ i.size) ∙ to_int-pos tot j in
      let begin : Collected tot pid [] (start tot) = (record {
        bufs_size = hb;
        lens_size = hl;
        total = refl;
        sum = refl;
        joined = refl;
        caller = refl;
      }) in
      let (c, k, q, off, e) =
        feed-Collects (ctrl_round stale) pid tot s.interrupts bs (bytes b)
          (stored (bytes b) (start tot))
          (stored-Collected tot pid [] (bytes b) (start tot) begin (omega arith)) refl
          (omega (arith, l)) p (omega (arith, length-append (bytes b) (contents bs))) in
      let kept : Kept s c = (record {
        tasklist = q.tasklist;
        maxid = q.maxid;
        started = q.started;
        family = q.family;
      }) in
      let (u, d, sub) = finished s.interrupts buff c k kept pool i big f z in
      (u, rw (first (ctrl_round stale) b.mem b.at b.size pid tot s m size hb hl) (e ∙ d), sub)
