-- ===== src/Kpu/Device.antt =====
-- kern/fs/devs/dev_kpuio.c. `kmalloc` gives every block; a panic and an access outside of an array are
-- `none`. Between `schedule` in the caller and its wake-up other code runs: an argument that is applied
-- to the state, for which `ctrl_round` stands where the next to run is the controller.
use oscmp.Base.{
  ℕ, ◌+◌, ◌-◌, ◌%◌, ◌^◌, Bool, true, false, ◌&&◌, Option, some, List, [], ◌∷◌, ltb, ◌==◌,
  if◌then◌else◌, assert, ◌>>=◌, ℤ, pos, negsuc, length, set,
}
use oscmp.Memory.{Bytes}
use oscmp.Iobuf.{Iobuf, iobuf_skip}
use oscmp.Kpu.Defs.{Kpu, bytes_at, little, is_neg, is_int}

-- A number of 64 bits converted to int.
unfoldable pub to_int : ℕ → ℤ
to_int n = let low = n % 2 ^ 32 in if ltb low (2 ^ 31) then pos low else negsuc (2 ^ 32 - 1 - low)

abbrev pub magic : List ℕ
magic = 107 ∷ 112 ∷ 117 ∷ 109 ∷ 97 ∷ 103 ∷ 105 ∷ 99 ∷ []

unfoldable pub same_bytes : List ℕ → Bytes → ℕ → Bool
same_bytes [] m a = true
same_bytes (b ∷ bs) m a = if m a == b then same_bytes bs m (a + 1) else false

unfoldable pub check_magic : Bytes → ℕ → Bool
check_magic m buff = if buff == 0 then false else same_bytes magic m buff

-- The copy of the block into `bufs[numblock]`.
unfoldable pub store_block : List ℕ → Kpu → Option Kpu
store_block block s = assert (ltb s.numblock (length s.lens) && ltb s.numblock (length s.bufs)) (
    some (record s {
      lens = set s.lens s.numblock (length block);
      bufs = set s.bufs s.numblock block;
      numblock = s.numblock + 1;
      sumlen = s.sumlen + length block;
    }))

-- `if (first)` up to the test of `totlength`.
unfoldable pub first_block : ℕ → Kpu → Kpu
first_block size s = record s { numblock = 0; totlength = to_int size; sumlen = 0 }

-- `dev_kpuio_taskinit` from the comparison of `sumlen` and `totlength` on; `on` is `intr_flag`.
unfoldable pub finish_block : (Kpu → Option Kpu) → Bool → Kpu → Option (ℤ × Kpu)
finish_block run_kpu_task_add on s =
    (if is_int s.totlength s.sumlen
      then (run_kpu_task_add (record s { kpuio_init = true; kpuio_check = false }) >>= λ u.
          some (record u { kpuio_init = false; kpuio_check = false }))
      else some s)
    >>= λ u. some (pos 0, record u { interrupts = if on then true else u.interrupts })

unfoldable pub dev_kpuio_taskinit : (Kpu → Option Kpu) → Bytes → ℕ → ℕ → ℕ → Kpu → Option (ℤ × Kpu)
dev_kpuio_taskinit run_kpu_task_add m buf len pid s =
    let s₁ : Kpu = record s { interrupts = false } in
    let s₂ = first_block (little (bytes_at m (buf + 16) 8)) s₁ in
    if check_magic m buf
    then (if is_neg s₂.totlength
        then some (negsuc 0, s₂)
        else (store_block (bytes_at m buf len) (record s₂ { caller_pid = pid })
            >>= finish_block run_kpu_task_add s.interrupts))
    else assert (s.caller_pid == pid)
        (store_block (bytes_at m buf len) s₁ >>= finish_block run_kpu_task_add s.interrupts)

-- `dev_try_getresult`: the status that the user reads.
unfoldable pub dev_try_getresult : (Kpu → Option Kpu) → ℕ → Kpu → Option (ℤ × Kpu)
dev_try_getresult run_kpu_task_check pid s =
    run_kpu_task_check (record s { caller_pid = pid }) >>= λ u.
    some (u.result, record u { kpuio_init = false; kpuio_check = false })

unfoldable pub kpuio_write : (Kpu → Option Kpu) → Bytes → Iobuf → ℕ → Kpu → Option (ℤ × Iobuf × Kpu)
kpuio_write run_kpu_task_add m iob pid s =
    dev_kpuio_taskinit run_kpu_task_add m iob.io_base iob.io_resid pid
      (record s { kpuio_init = true; kpuio_check = false })
    >>= λ r. iobuf_skip iob iob.io_resid >>= λ iob'. some (r.0, iob', r.1)

unfoldable pub kpuio_read : (Kpu → Option Kpu) → ℕ → Kpu → Option (ℤ × Kpu)
kpuio_read run_kpu_task_check pid s =
    dev_try_getresult run_kpu_task_check pid (record s { kpuio_check = true; kpuio_init = false })
