-- ===== src/Timer/Defs.antt =====
-- kern/schedule/sched.c: `timer_list`, in which each timer counts its ticks from the timer before it.
-- The list is the sequence that the links of `timer_list` hold (Dlist.antt relates the two); a timer
-- is its address, `link`, with the fields of `timer_t`. A failed assertion is `none`.
use oscmp.Base.{
  ℕ, ◌+◌, ◌-◌, ◌/◌, ◌%◌, ◌^◌, Bool, true, false, not, ◌&&◌, ◌||◌, Option, some, List, [], ◌∷◌, ltb,
  ◌==◌, if◌then◌else◌, assert, ◌>>=◌,
}
use oscmp.Sched.{Sched, wakeup_proc, sched_class_proc_tick, u32}

pub record Timer : Type 0 where
  pub link : ℕ
  pub expires : ℕ
  pub proc : ℕ

-- `!list_empty(&(timer->timer_link))`
unfoldable pub queued : ℕ → List Timer → Bool
queued k [] = false
queued k (t ∷ ts) = if t.link == k then true else queued k ts

-- The loop of `add_timer`, and its `list_add_before`.
unfoldable pub insert_timer : Timer → List Timer → List Timer
insert_timer t [] = t ∷ []
insert_timer t (n ∷ ts) =
    if ltb t.expires n.expires
    then t ∷ (record n { expires = n.expires - t.expires }) ∷ ts
    else n ∷ insert_timer (record t { expires = t.expires - n.expires }) ts

-- NULL is address 0.
unfoldable pub add_timer : Timer → List Timer → Option (List Timer)
add_timer t ts =
    assert (ltb 0 t.expires && not (t.proc == 0))
      (assert (not (queued t.link ts)) (some (insert_timer t ts)))

-- `if (timer->expires != 0)`, and there is a timer behind it.
abbrev pub pass_on : ℕ → List Timer → List Timer
pass_on e [] = []
pass_on e (n ∷ ts) = (if e == 0 then n else record n { expires = u32 (n.expires + e) }) ∷ ts

-- Nothing happens to a timer that is in no list.
unfoldable pub del_timer : ℕ → List Timer → List Timer
del_timer k [] = []
del_timer k (t ∷ ts) = if t.link == k then pass_on t.expires ts else t ∷ del_timer k ts

-- `proc->wait_state & WT_INTERRUPTED`
abbrev pub interruptible : ℕ → Bool
interruptible w = not (w / 2 ^ 31 % 2 == 0)

-- The `while (timer->expires == 0)` of `run_timer_list`, from its first timer on.
unfoldable pub expire : Sched → List Timer → Option (Sched × List Timer)
expire s [] = some (s, [])
expire s (t ∷ ts) =
    let woken =
      assert ((s.procs t.proc).wait_state == 0 || interruptible (s.procs t.proc).wait_state)
        (wakeup_proc s t.proc >>= λ s'. expire s' ts) in
    if t.expires == 0 then woken else some (s, t ∷ ts)

abbrev pub tick_first : Sched → List Timer → Option (Sched × List Timer)
tick_first s [] = some (s, [])
tick_first s (t ∷ ts) =
    assert (not (t.expires == 0)) (expire s (record t { expires = t.expires - 1 } ∷ ts))

-- NULL is address 0.
unfoldable pub run_timer_list : Sched → List Timer → Option (Sched × List Timer)
run_timer_list s ts = tick_first s ts >>= λ r.
    some (if r.0.current == 0 then r.0 else sched_class_proc_tick r.0 r.0.current, r.1)
