-- ===== src/Kpu/Tests.antt =====
-- A picture of 50 bytes handed over in two blocks, and what its process is told.
use oscmp.Base.{
  ◌≡◌, refl, true, false, some, List, [], ◌∷◌, ◌==◌, if◌then◌else◌, arith, pos, replicate,
}
use oscmp.Memory.{Bytes}
use oscmp.SkewHeap.{null}
use oscmp.Sched.{ProcState}
use oscmp.Process.{Family}
use oscmp.Kpu.Defs.{Task, Kpu, result_running, result_got}
use oscmp.Kpu.Device.{check_magic, kpuio_read}
use oscmp.Kpu.Spool.{ctrl_round}
use oscmp.Kpu.Feed.{Block, contents, feed}
use oscmp.Kpu.Submit.{Submitted, feed-Submitted}
use oscmp.Kpu.Results.{own_task, told, kpuio_read-told}

-- The first block stands at 1000, the second at 2000.
abbrev memory : Bytes
memory a =
    if a == 1000
    then 107
    else if a == 1001
    then 112
    else if a == 1002
    then 117
    else if a == 1003
    then 109
    else if a == 1004
    then 97
    else if a == 1005
    then 103
    else if a == 1006
    then 105
    else if a == 1007
    then 99
    else if a == 1016
    then 50
    else if a == 1024
    then 2
    else 0

-- Process 7 at address 40; the controller, at address 20, is next to run.
abbrev family : Family
family = record {
  parent = λ p. 10;
  children = λ p. [];
  pid = λ p. if p == 40 then 7 else 2;
  exiting = λ p. false;
  exit_code = λ p. 0;
  hash_list = λ h. 40 ∷ [];
  proc_list = 40 ∷ 20 ∷ 10 ∷ [];
  nr_process = 3;
  initproc = 10;
  sched = record {
    procs = λ _. record {
      state = ProcState.sleeping;
      wait_state = 0x80000010;
      need_resched = false;
      runs = 0;
      in_rq = false;
      time_slice = 0;
      stride = 0;
      priority = 1;
    };
    rq = record { pool = null; proc_num = 0; max_time_slice = 5 };
    current = 20;
    idleproc = 5;
  };
}

abbrev kpu : List Task → Kpu
kpu ts = record {
  totlength = pos 0;
  sumlen = 0;
  numblock = 0;
  bufs = replicate 64 [];
  lens = replicate 64 0;
  caller_pid = 0;
  kpuio_init = false;
  kpuio_check = false;
  interrupts = true;
  result = pos 0;
  tasklist = ts;
  maxid = 0;
  started = [];
  family = family;
}

abbrev head : Block
head = record { mem = memory; at = 1000; size = 30 }

abbrev tail : List Block
tail = record { mem = memory; at = 2000; size = 20 } ∷ []

feed-Submitted_example :
    (u : Kpu) × (feed (ctrl_round 0) 7 (head ∷ tail) (kpu []) ≡ some u)
    × Submitted 0 7 (contents (head ∷ tail)) (kpu []) u
unfolding check_magic oscmp.Kpu.Device.same_bytes oscmp.Kpu.Defs.bytes_at oscmp.Kpu.Defs.little
    oscmp.Process.find_proc oscmp.Process.find_in
feed-Submitted_example =
    feed-Submitted 0 7 (kpu []) head tail refl (omega arith) (refl, omega arith, tt) (omega arith)
      (record { whole = omega arith; size = refl; picture = omega arith }) (omega arith) refl refl
      (record { ids = tt; last = refl }) (omega arith) (omega arith) refl

abbrev task : Task
task = record { sflag = 1; id = 1; input = []; jpeg = 48; proc = 40 }

kpuio_read-told_example :
    (u : Kpu) × (kpuio_read (ctrl_round 0) 7 (kpu (task ∷ []))
      ≡ some (told (own_task family 7 (task ∷ [])), u))
    × (u.tasklist ≡ task ∷ [])
unfolding oscmp.Process.find_proc oscmp.Process.find_in
kpuio_read-told_example = kpuio_read-told 0 7 (kpu (task ∷ [])) (omega arith, tt) (omega arith) refl
