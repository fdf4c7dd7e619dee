-- ===== src/Process/Find.antt =====
-- `find_proc` of kern/process/proc.c and the hash list.
use oscmp.Base.{
  ℕ, ◌≡◌, ◌<◌, refl, inl, inr, true, false, List, [], ◌∷◌, ltb, ◌==◌, if◌then◌else◌, update, arith,
  Bool-cases,
}
use oscmp.Process.Defs.{max_pid}
use oscmp.Process.Relations.{Family, pid_hashfn, hash_proc, find_in, find_proc}

find_in_same :
    (f : Family) (h : ℕ → List ℕ) (k : ℕ) (ps : List ℕ)
    → find_in (record f { hash_list = h }) k ps ≡ find_in f k ps
unfolding find_in
find_in_same f h k [] = refl
find_in_same f h k (p ∷ ps) = let r = find_in_same f h k ps in ground (arith, r)

-- A process with an identifier in range is found by it once `hash_proc` has put it into the hash
-- list, and any other identifier finds what it found before.
pub find_proc-hash_proc :
    (f : Family) (p k : ℕ)
    → 0 < f.pid p
    → f.pid p < max_pid
    → find_proc (hash_proc f p) k ≡ (if k == f.pid p then p else find_proc f k)
unfolding find_proc hash_proc find_in
find_proc-hash_proc f p k pos lt = elim (Bool-cases (k == f.pid p)) [
  | inl z ↦
      let e : k ≡ f.pid p = ground (arith, z) in
      let a : ltb 0 (f.pid p) ≡ true = ground arith in
      let b : ltb (f.pid p) max_pid ≡ true = ground arith in
      let c : (f.pid p == f.pid p) ≡ true = ground arith in
      let d : (pid_hashfn (f.pid p) == pid_hashfn (f.pid p)) ≡ true = ground arith in
      rw (e, a, b, c, d, c) refl
  | inr z ↦
      let out : (f.pid p == k) ≡ false = ground (arith, z) in
      let h = update f.hash_list (pid_hashfn (f.pid p)) (p ∷ f.hash_list (pid_hashfn (f.pid p))) in
      elim (Bool-cases (pid_hashfn (f.pid p) == pid_hashfn k)) [
        | inl y ↦
            let e : pid_hashfn (f.pid p) ≡ pid_hashfn k = ground (arith, y) in
            rw (z, y, out, e, find_in_same f h k (f.hash_list (pid_hashfn k))) refl
        | inr y ↦ rw (z, y, find_in_same f h k (f.hash_list (pid_hashfn k))) refl
      ]
]
