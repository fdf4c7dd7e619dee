-- ===== src/Process/Defs.antt =====
-- kern/process/proc.c: `get_pid`. The list of processes is the sequence of their identifiers, all of
-- them positive; the two static variables are arguments and results.
use oscmp.Base.{
  ℕ, zero, suc, ◌+◌, true, false, ◌&&◌, Option, none, some, List, [], ◌∷◌, ltb, leb, ◌==◌,
  if◌then◌else◌,
}

abbrev pub max_process : ℕ
max_process = 4096

abbrev pub max_pid : ℕ
max_pid = 8192

-- How a walk over the processes ends: with `last_pid` and `next_safe`, or by `goto repeat` with
-- a new `last_pid`.
pub data Walked : Type 0 where
  done : ℕ → ℕ → Walked
  again : ℕ → Walked

-- `if (last_pid >= MAX_PID) { last_pid = 1; }`
abbrev pub wrap_pid : ℕ → ℕ
wrap_pid last = if leb max_pid last then 1 else last

unfoldable pub walk : List ℕ → ℕ → ℕ → Walked
walk [] last safe = done last safe
walk (p ∷ ps) last safe = elim (p == last && leb safe (last + 1)) [
  | true ↦ again (wrap_pid (last + 1))
  | false ↦
      walk ps (if p == last then last + 1 else last) (if ltb last p && ltb p safe then p else safe)
]

-- From the label `repeat` on; each `goto repeat` takes one of the fuel.
unfoldable pub repeat : ℕ → List ℕ → ℕ → Option (ℕ × ℕ)
repeat zero pids last = none
repeat (suc fuel) pids last = elim (walk pids last max_pid) [
  | done l s ↦ some (l, s)
  | again l ↦ repeat fuel pids l
]

-- The identifier, which is the new `last_pid`, and the new `next_safe`.
unfoldable pub get_pid : ℕ → List ℕ → ℕ → ℕ → Option (ℕ × ℕ)
get_pid fuel pids last safe =
    if leb max_pid (last + 1)
    then repeat fuel pids 1
    else if leb safe (last + 1)
    then repeat fuel pids (last + 1)
    else some (last + 1, safe)
