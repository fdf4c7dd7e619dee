-- ===== src/Kpu/Collect.antt =====
-- `dev_kpuio_taskinit` of kern/fs/devs/dev_kpuio.c, called for the blocks of a buffer in turn.
use oscmp.Base.{
  ℕ, zero, suc, ◌+◌, ◌<◌, ◌≡◌, refl, ap, ◌∙◌, Bool, true, false, Option, none, some, List, ◌++◌,
  ltb, ◌==◌, if◌then◌else◌, ◌>>=◌, ℤ, pos, length, set, arith, length-append, length-set,
}
use oscmp.Memory.{Bytes}
use oscmp.Kpu.Defs.{Kpu, bytes_at, little, is_int}
use oscmp.Kpu.Device.{
  to_int, check_magic, first_block, store_block, finish_block, dev_kpuio_taskinit,
}
use oscmp.Kpu.Spool.{gather}
use oscmp.Kpu.Gather.{gather-set}

-- What the device has of a buffer of `tot` bytes of process `pid`: the bytes `seen`.
pub record Collected (tot pid : ℕ) (seen : List ℕ) (s : Kpu) : Type 0 where
  pub bufs_size : length s.bufs ≡ 64
  pub lens_size : length s.lens ≡ 64
  pub total : s.totlength ≡ pos tot
  pub sum : s.sumlen ≡ length seen
  pub joined : gather s.numblock s.bufs s.lens ≡ some seen
  pub caller : s.caller_pid ≡ pid

-- The state with one block more.
abbrev pub stored : List ℕ → Kpu → Kpu
stored block s = record s {
  lens = set s.lens s.numblock (length block);
  bufs = set s.bufs s.numblock block;
  numblock = s.numblock + 1;
  sumlen = s.sumlen + length block;
}

pub length-bytes_at : (m : Bytes) (a n : ℕ) → length (bytes_at m a n) ≡ n
unfolding bytes_at
length-bytes_at m a zero = refl
length-bytes_at m a (suc n) = ap suc (length-bytes_at m (a + 1) n)

store_block-stored :
    (b : List ℕ) (s : Kpu)
    → length s.bufs ≡ 64
    → length s.lens ≡ 64
    → s.numblock < 64
    → store_block b s ≡ some (stored b s)
unfolding store_block
store_block-stored b s h k n =
    let l : ltb s.numblock (length s.lens) ≡ true = ground (arith, k, n) in
    let m : ltb s.numblock (length s.bufs) ≡ true = ground (arith, h, n) in rw (l, m) refl

pub stored-Collected :
    (tot pid : ℕ) (seen b : List ℕ) (s : Kpu)
    → Collected tot pid seen s
    → s.numblock < 64
    → Collected tot pid (seen ++ b) (stored b s)
stored-Collected tot pid seen b s c n = record {
  bufs_size = length-set s.bufs s.numblock b ∙ c.bufs_size;
  lens_size = length-set s.lens s.numblock (length b) ∙ c.lens_size;
  total = c.total;
  sum = omega (arith, c.sum, length-append seen b);
  joined =
      ap (λ k. gather k (set s.bufs s.numblock b) (set s.lens s.numblock (length b))) (omega arith)
      ∙ gather-set s.numblock s.bufs s.lens b (omega (arith, c.bufs_size, n))
          (omega (arith, c.lens_size, n))
      ∙ ap (λ g. g >>= λ xs. some (xs ++ b)) c.joined;
  caller = c.caller;
}

-- The state from which the controller adds the task, and the one after it.
abbrev pub ready : Kpu → Kpu
ready s = record s { kpuio_init = true; kpuio_check = false }

abbrev pub settle : Bool → Kpu → Kpu
settle on u = record u {
  kpuio_init = false;
  kpuio_check = false;
  interrupts = if on then true else u.interrupts;
}

abbrev pub answer : Bool → Kpu → Option (ℤ × Kpu)
answer on u = some (pos 0, settle on u)

module _ (run : Kpu → Option Kpu) where
  -- A block that leaves bytes to come.
  pub finish_block-part :
      (tot n : ℕ) (s : Kpu)
      → s.totlength ≡ pos tot
      → s.sumlen ≡ n
      → n < tot
      → s.interrupts ≡ false
      → (on : Bool) → finish_block run on s ≡ some (pos 0, record s { interrupts = on })
  unfolding finish_block
  finish_block-part tot n s t e h i true =
      let test : is_int s.totlength s.sumlen ≡ false =
        ap (λ z. is_int z s.sumlen) t ∙ ground (arith, e, h) in
      rw test refl
  finish_block-part tot n s t e h i false =
      let test : is_int s.totlength s.sumlen ≡ false =
        ap (λ z. is_int z s.sumlen) t ∙ ground (arith, e, h) in
      rw (test, i) refl

  -- The last block.
  pub finish_block-last :
      (tot : ℕ) (s : Kpu)
      → s.totlength ≡ pos tot
      → s.sumlen ≡ tot
      → (on : Bool) → finish_block run on s ≡ (run (ready s) >>= answer on)
  unfolding finish_block
  finish_block-last tot s t e on =
      let test : is_int s.totlength s.sumlen ≡ true =
        ap (λ z. is_int z s.sumlen) t ∙ ground (arith, e) in
      rw test (nest (run (ready s)))
    where
      enable : Kpu → Option (ℤ × Kpu)
      enable u = some (pos 0, record u { interrupts = if on then true else u.interrupts })

      nest :
          (o : Option Kpu)
          → ((o >>= λ u. some (record u { kpuio_init = false; kpuio_check = false })) >>= enable)
            ≡ (o >>= answer on)
      nest none = refl
      nest (some u) = refl

  -- The bytes of a block that is not the first, of the same process.
  pub more :
      (m : Bytes) (buf len pid : ℕ) (s : Kpu)
      → check_magic m buf ≡ false
      → s.caller_pid ≡ pid
      → length s.bufs ≡ 64
      → length s.lens ≡ 64
      → s.numblock < 64
      → dev_kpuio_taskinit run m buf len pid s
        ≡ finish_block run s.interrupts
            (stored (bytes_at m buf len) (record s { interrupts = false }))
  unfolding dev_kpuio_taskinit
  more m buf len pid s other c h k n =
      let own : (s.caller_pid == pid) ≡ true = ground (arith, c) in
      let e = store_block-stored (bytes_at m buf len) (record s { interrupts = false }) h k n in
      rw (other, own, e) refl

  pub first :
      (m : Bytes) (buf len pid tot : ℕ) (s : Kpu)
      → check_magic m buf ≡ true
      → to_int (little (bytes_at m (buf + 16) 8)) ≡ pos tot
      → length s.bufs ≡ 64
      → length s.lens ≡ 64
      → dev_kpuio_taskinit run m buf len pid s
        ≡ finish_block run s.interrupts (
            stored (bytes_at m buf len) (record s {
              numblock = 0;
              totlength = pos tot;
              sumlen = 0;
              caller_pid = pid;
              interrupts = false;
            }))
  unfolding dev_kpuio_taskinit first_block
  first m buf len pid tot s starts t h k =
      let e =
        store_block-stored (bytes_at m buf len)
          (record s {
            numblock = 0;
            totlength = pos tot;
            sumlen = 0;
            caller_pid = pid;
            interrupts = false;
          })
          h k (omega arith) in
      rw (starts, t, e) refl
