-- ===== src/Kpu/Feed.antt =====
-- The calls of `dev_kpuio_taskinit` (kern/fs/devs/dev_kpuio.c) for a whole buffer.
use oscmp.Base.{
  ℕ, ◌+◌, ◌<◌, ◌≤◌, ◌≡◌, refl, sym, ◌∙◌, Bool, false, Option, none, some, List, [], ◌∷◌, ◌++◌,
  ◌>>=◌, length, arith, length-append,
}
use mathlib.Core.Path.{subst}
use mathlib.Core.List.{append_assoc, append-nil}
use oscmp.Memory.{Bytes}
use oscmp.Kpu.Defs.{Kpu, bytes_at}
use oscmp.Kpu.Device.{check_magic, finish_block, dev_kpuio_taskinit}
use oscmp.Kpu.Collect.{
  Collected, stored, ready, settle, answer, length-bytes_at, stored-Collected, finish_block-part,
  finish_block-last, more,
}

-- A block where the process left it.
pub record Block : Type 0 where
  pub mem : Bytes
  pub at : ℕ
  pub size : ℕ

abbrev pub bytes : Block → List ℕ
bytes b = bytes_at b.mem b.at b.size

abbrev pub contents : List Block → List ℕ
contents [] = []
contents (b ∷ bs) = bytes b ++ contents bs

-- Blocks that are not empty and do not start as a buffer does.
abbrev pub Parts : List Block → Type 0
Parts [] = Unit
Parts (b ∷ bs) = (check_magic b.mem b.at ≡ false) × (0 < b.size) × Parts bs

-- What the collection of blocks leaves alone.
pub record Kept (s c : Kpu) : Type 0 where
  pub tasklist : c.tasklist ≡ s.tasklist
  pub maxid : c.maxid ≡ s.maxid
  pub started : c.started ≡ s.started
  pub family : c.family ≡ s.family

module _ (run : Kpu → Option Kpu) (pid : ℕ) where
  abbrev pub feed : List Block → Kpu → Option Kpu
  feed [] s = some s
  feed (b ∷ bs) s = dev_kpuio_taskinit run b.mem b.at b.size pid s >>= λ r. feed bs r.1

  -- From the end of a block on.
  abbrev pub rest_of : Bool → List Block → Kpu → Option Kpu
  rest_of on bs s = finish_block run on s >>= λ r. feed bs r.1

  abbrev pub Collects : ℕ → Bool → List ℕ → Kpu → Option Kpu → Type 0
  Collects tot on seen s o =
      (c : Kpu) × Collected tot pid seen c
      × Kept s c
      × (c.interrupts ≡ false)
      × (o ≡ (run (ready c) >>= λ u. some (settle on u)))

  last_block :
      (tot : ℕ) (on : Bool) (seen : List ℕ) (s : Kpu)
      → Collected tot pid seen s
      → length seen ≡ tot
      → rest_of on [] s ≡ (run (ready s) >>= λ u. some (settle on u))
  last_block tot on seen s c e =
      rw (finish_block-last run tot s c.total (c.sum ∙ e) on) (shift (run (ready s)))
    where
      shift :
          (o : Option Kpu) → ((o >>= answer on) >>= λ r. some r.1) ≡ (o >>= λ u. some (settle on u))
      shift none = refl
      shift (some u) = refl

  pub feed-Collects :
      (tot : ℕ) (on : Bool) (bs : List Block) (seen : List ℕ) (s : Kpu)
      → Collected tot pid seen s
      → s.interrupts ≡ false
      → s.numblock + length bs ≤ 64
      → Parts bs
      → length seen + length (contents bs) ≡ tot
      → Collects tot on (seen ++ contents bs) s (rest_of on bs s)
  feed-Collects tot on [] seen s c i n p e = (
    s,
    subst (λ xs. Collected tot pid xs s) (sym (append-nil seen)) c,
    record { tasklist = refl; maxid = refl; started = refl; family = refl },
    i,
    last_block tot on seen s c (omega (arith, e)),
  )
  feed-Collects tot on (b ∷ bs) seen s c i n (m, z, p) e =
      let size = length-bytes_at b.mem b.at b.size in
      let both = length-append (bytes b) (contents bs) in
      let left = length-append seen (bytes b) in
      let s' : Kpu = record s { interrupts = on } in
      let quiet : Kpu = record s { interrupts = false } in
      let c' : Collected tot pid seen quiet = (record {
        bufs_size = c.bufs_size;
        lens_size = c.lens_size;
        total = c.total;
        sum = c.sum;
        joined = c.joined;
        caller = c.caller;
      }) in
      let part =
        finish_block-part run tot (length seen) s c.total c.sum (omega (arith, e, both, size, z)) i
          on in
      let next =
        more run b.mem b.at b.size pid s' m c.caller c.bufs_size c.lens_size (omega (arith, n)) in
      let (u, cu, k, q, end) =
        feed-Collects tot on bs (seen ++ bytes b) (stored (bytes b) quiet)
          (stored-Collected tot pid seen (bytes b) quiet c' (omega (arith, n))) refl
          (omega (arith, n)) p (omega (arith, e, both, left)) in
      (
        u,
        subst (λ xs. Collected tot pid xs u) (append_assoc seen (bytes b) (contents bs)) cu,
        record { tasklist = k.tasklist; maxid = k.maxid; started = k.started; family = k.family },
        q,
        rw (part, next) end,
      )
