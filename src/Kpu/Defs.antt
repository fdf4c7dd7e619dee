-- ===== src/Kpu/Defs.antt =====
-- The tasks and the variables of kern/fs/devs/dev_kpuio.c and kpu_spooling.c. The task list is a
-- sequence, first to last; a process is an address of Process.antt, and NULL is 0.
use oscmp.Base.{
  ℕ, zero, suc, ◌+◌, ◌-◌, ◌*◌, ◌/◌, ◌%◌, Bool, true, false, List, [], ◌∷◌, ◌==◌, if◌then◌else◌, ℤ,
  pos, negsuc,
}
use oscmp.Memory.{Bytes}
use oscmp.Process.{Family}

abbrev pub max_tasknum : ℕ
max_tasknum = 8

abbrev pub init_state_bit : ℕ
init_state_bit = 1

abbrev pub running_state_bit : ℕ
running_state_bit = 2

abbrev pub success_state_bit : ℕ
success_state_bit = 8

abbrev pub result_got : ℤ
result_got = pos 0

abbrev pub result_running : ℤ
result_running = negsuc 0

abbrev pub result_waiting : ℤ
result_waiting = negsuc 1

abbrev pub result_notexist : ℤ
result_notexist = negsuc 2

-- `_kpu_pool_task_t`: `input` holds the bytes of the `kpu_buff`, and `jpeg` its pointer, which stands
-- in bytes 40 to 47, as an offset from its start.
pub record Task : Type 0 where
  pub sflag : ℕ
  pub id : ℕ
  pub input : List ℕ
  pub jpeg : ℕ
  pub proc : ℕ

abbrev pub has_bit : ℕ → ℕ → Bool
has_bit n bit = n / bit % 2 == 1

abbrev pub set_bit : ℕ → ℕ → ℕ
set_bit n bit = if has_bit n bit then n else n + bit

abbrev pub clear_bit : ℕ → ℕ → ℕ
clear_bit n bit = if has_bit n bit then n - bit else n

abbrev pub is_running : Task → Bool
is_running t = has_bit t.sflag running_state_bit

abbrev pub is_success : Task → Bool
is_success t = has_bit t.sflag success_state_bit

-- The variables of both files and the processes; `started` are the positions in the list of the
-- tasks that `try_run_task` has made a thread for, and `interrupts` tells whether they are on.
pub record Kpu : Type 0 where
  pub totlength : ℤ
  pub sumlen : ℕ
  pub numblock : ℕ
  pub bufs : List (List ℕ)
  pub lens : List ℕ
  pub caller_pid : ℕ
  pub kpuio_init : Bool
  pub kpuio_check : Bool
  pub interrupts : Bool
  pub result : ℤ
  pub tasklist : List Task
  pub maxid : ℕ
  pub started : List ℕ
  pub family : Family

-- The bytes at an address.
unfoldable pub bytes_at : Bytes → ℕ → ℕ → List ℕ
bytes_at m a zero = []
bytes_at m a (suc n) = m a ∷ bytes_at m (a + 1) n

-- A number of little-endian bytes.
unfoldable pub little : List ℕ → ℕ
little [] = 0
little (b ∷ bs) = b + 256 * little bs

abbrev pub is_neg : ℤ → Bool
is_neg (pos n) = false
is_neg (negsuc n) = true

abbrev pub is_int : ℤ → ℕ → Bool
is_int (pos n) m = n == m
is_int (negsuc n) m = false
