-- ===== src/Monitor/Invariant.antt =====
-- What holds of the monitors of kern/sync/monitor.c.
use oscmp.Base.{
  ℕ, zero, suc, ◌+◌, ◌-◌, ◌<◌, ◌≤◌, ◌==◌, ◌≡◌, inl, inr, true, some, List, if◌then◌else◌, get_elem?,
  set, total, total-set, le-total, bind_some, arith, get_elem?-set_cases,
}
use oscmp.Monitor.Defs.{
  down, Monitor, Condvar, enter, hand_on, cond_signal_start, cond_signal_end, cond_wait_start,
  cond_wait_end,
}
use oscmp.Monitor.Threads.{Place, outside, inside, signalling, waiting}

abbrev pub is_inside : Place → ℕ
is_inside inside = 1
is_inside _ = 0

abbrev pub is_signalling : Place → ℕ
is_signalling signalling = 1
is_signalling _ = 0

abbrev pub waits_for : ℕ → Place → ℕ
waits_for c (waiting d) = if c == d then 1 else 0
waits_for c _ = 0

abbrev pub sem_of : Condvar → ℕ
sem_of v = v.sem

-- There is one right to be inside: free, used by a thread, or handed over to one of those that wait
-- for it, and these are counted.
pub record IsValid (m : Monitor) (ts : List Place) : Type 0 where
  pub one : m.mutex + m.next + total sem_of m.cv + total is_inside ts ≡ 1
  pub nexts : m.next_count ≡ total is_signalling ts
  pub owed : m.next ≤ m.next_count
  pub free : 0 < m.mutex → m.next_count ≡ 0
  pub counts :
      (c : ℕ) (v : Condvar)
      → get_elem? m.cv c ≡ some v
      → (v.count ≡ total (waits_for c) ts) × (v.sem ≤ v.count)

-- A semaphore that `down` passes had a value.
down-some : (n v : ℕ) → down n ≡ some v → n ≡ v + 1
down-some zero v h = ground arith
down-some (suc n) v h = ground arith

-- What the move of one thread does to the counts.
module _ (ts : List Place) (i : ℕ) (p q : Place) (at : get_elem? ts i ≡ some p) where
  pub inside-moved : total is_inside (set ts i q) + is_inside p ≡ total is_inside ts + is_inside q
  inside-moved = total-set is_inside ts i p q at

  pub signalling-moved :
      total is_signalling (set ts i q) + is_signalling p ≡ total is_signalling ts + is_signalling q
  signalling-moved = total-set is_signalling ts i p q at

  pub waits-moved :
      (c : ℕ)
      → total (waits_for c) (set ts i q) + waits_for c p ≡ total (waits_for c) ts + waits_for c q
  waits-moved c = total-set (waits_for c) ts i p q at

module _ (ts : List Place) (i : ℕ) (m u : Monitor) (h : IsValid m ts) where
  pub enter-IsValid : get_elem? ts i ≡ some outside → enter m ≡ some u → IsValid u (set ts i inside)
  unfolding enter
  enter-IsValid at e =
      let w = inside-moved ts i outside inside at in
      let x = signalling-moved ts i outside inside at in
      record {
        one = ground (arith, h.one);
        nexts = ground (arith, h.nexts);
        owed = ground (arith, h.owed);
        free = ground (arith, h.free, h.one);
        counts = λ c cv f. ground (arith, h.counts c cv, waits-moved ts i outside inside at c);
      }

  pub hand_on-IsValid : get_elem? ts i ≡ some inside → IsValid (hand_on m) (set ts i outside)
  unfolding hand_on
  hand_on-IsValid at =
      let w = inside-moved ts i inside outside at in
      let x = signalling-moved ts i inside outside at in
      record {
        one = ground (arith, h.one);
        nexts = ground (arith, h.nexts);
        owed = ground (arith, h.owed, h.nexts);
        free = ground (arith, h.free, h.one);
        counts = λ c cv f. ground (arith, h.counts c cv, waits-moved ts i inside outside at c);
      }

  pub cond_signal_start-IsValid :
      (c : ℕ)
      → get_elem? ts i ≡ some inside
      → cond_signal_start c m ≡ some (true, u)
      → IsValid u (set ts i signalling)
  unfolding cond_signal_start
  cond_signal_start-IsValid c at e =
      let (v, f, r) = bind_some (get_elem? m.cv c) _ (true, u) e in
      let v' : Condvar = record v { sem = v.sem + 1 } in
      let w = inside-moved ts i inside signalling at in
      let x = signalling-moved ts i inside signalling at in
      let y = total-set sem_of m.cv c v v' f in
      record {
        one = ground (arith, h.one);
        nexts = ground (arith, h.nexts);
        owed = ground (arith, h.owed);
        free = ground (arith, h.free, h.one);
        counts = λ d dv g. elim (get_elem?-set_cases m.cv c d v' dv (ground arith)) [
          | inl (same, new) ↦ ground (
            arith,
            h.one,
            h.counts c v f,
            le-total sem_of m.cv c v f,
            waits-moved ts i inside signalling at c,
          )
          | inr (other, old) ↦
              ground (arith, h.counts d dv old, waits-moved ts i inside signalling at d)
        ];
      }

  pub cond_signal_end-IsValid :
      get_elem? ts i ≡ some signalling → cond_signal_end m ≡ some u → IsValid u (set ts i inside)
  unfolding cond_signal_end
  cond_signal_end-IsValid at e =
      let w = inside-moved ts i signalling inside at in
      let x = signalling-moved ts i signalling inside at in
      record {
        one = ground (arith, h.one);
        nexts = ground (arith, h.nexts);
        owed = ground (arith, h.owed, h.one, h.nexts);
        free = ground (arith, h.free, h.one);
        counts = λ c cv f. ground (arith, h.counts c cv, waits-moved ts i signalling inside at c);
      }

  pub cond_wait_end-IsValid :
      (c : ℕ)
      → get_elem? ts i ≡ some (waiting c)
      → cond_wait_end c m ≡ some u
      → IsValid u (set ts i inside)
  unfolding cond_wait_end
  cond_wait_end-IsValid c at e =
      let (v, f, r) = bind_some (get_elem? m.cv c) _ u e in
      let (n, l, r') = bind_some (down v.sem) _ u r in
      let v' : Condvar = record { sem = n; count = v.count - 1 } in
      let old = down-some v.sem n l in
      let w = inside-moved ts i (waiting c) inside at in
      let x = signalling-moved ts i (waiting c) inside at in
      let y = total-set sem_of m.cv c v v' f in
      record {
        one = ground (arith, h.one);
        nexts = ground (arith, h.nexts);
        owed = ground (arith, h.owed);
        free = ground (arith, h.free, h.one);
        counts = λ d dv g. elim (get_elem?-set_cases m.cv c d v' dv (ground arith)) [
          | inl (same, new) ↦
              ground (arith, h.counts c v f, waits-moved ts i (waiting c) inside at c)
          | inr (other, old) ↦
              ground (arith, h.counts d dv old, waits-moved ts i (waiting c) inside at d)
        ];
      }

  pub cond_wait_start-IsValid :
      (c : ℕ)
      → get_elem? ts i ≡ some inside
      → cond_wait_start c m ≡ some u
      → IsValid u (set ts i (waiting c))
  unfolding cond_wait_start hand_on
  cond_wait_start-IsValid c at e =
      let (v, f, r) = bind_some (get_elem? m.cv c) _ u e in
      let v' : Condvar = record v { count = v.count + 1 } in
      let w = inside-moved ts i inside (waiting c) at in
      let x = signalling-moved ts i inside (waiting c) at in
      let y = total-set sem_of m.cv c v v' f in
      record {
        one = ground (arith, h.one);
        nexts = ground (arith, h.nexts);
        owed = ground (arith, h.owed, h.one, h.nexts);
        free = ground (arith, h.free, h.one);
        counts = λ d dv g. elim (get_elem?-set_cases m.cv c d v' dv (ground arith)) [
          | inl (same, new) ↦
              ground (arith, h.counts c v f, waits-moved ts i inside (waiting c) at c)
          | inr (other, old) ↦
              ground (arith, h.counts d dv old, waits-moved ts i inside (waiting c) at d)
        ];
      }

  pub stays-IsValid : get_elem? ts i ≡ some inside → IsValid m (set ts i inside)
  stays-IsValid at =
      let w = inside-moved ts i inside inside at in
      let x = signalling-moved ts i inside inside at in
      record {
        one = ground (arith, h.one);
        nexts = ground (arith, h.nexts);
        owed = h.owed;
        free = h.free;
        counts = λ c cv f. ground (arith, h.counts c cv, waits-moved ts i inside inside at c);
      }
