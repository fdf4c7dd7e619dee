-- ===== src/Process/Exit.antt =====
-- `do_exit` of kern/process/proc.c hands the children on, and wakes a parent that waits.
use oscmp.Base.{
  ℕ, ◌≡◌, ◌≢◌, refl, sym, ap, ◌∙◌, ◌⊎◌, inl, inr, Bool, true, false, not, ◌&&◌, ◌||◌, some, List,
  [], ◌∷◌, ◌==◌, if◌then◌else◌, update, arith, Bool-cases,
}
use mathlib.Core.Path.{subst}
use oscmp.Sched.{
  Sched, ProcState, is_zombie, is_runnable, wakeup_proc, wake, sched_class_enqueue, stride_enqueue,
}
use oscmp.Process.Relations.{
  Family, wt_child, wake_parent, adopt, adopt_all, exit_links, found, find_zombie,
}

abbrev pub member : ℕ → List ℕ → Bool
member p [] = false
member p (q ∷ qs) = p == q || member p qs

-- The list from its end on, in front of another.
abbrev pub rev_onto : List ℕ → List ℕ → List ℕ
rev_onto [] ys = ys
rev_onto (x ∷ xs) ys = rev_onto xs (x ∷ ys)

-- What a wakeup of `p` does to the states of the processes.
record Woken (s : Sched) (p : ℕ) (s' : Sched) : Type 0 where
  runs : is_runnable (s'.procs p).state ≡ true
  alive : is_zombie (s'.procs p).state ≡ false
  same : (k : ℕ) → k ≢ p → (s'.procs k).state ≡ (s.procs k).state
  idle : s'.idleproc ≡ s.idleproc

wake-Woken : (s : Sched) (p : ℕ) → is_zombie (s.procs p).state ≡ false → Woken s p (wake s p)
unfolding wake sched_class_enqueue stride_enqueue
wake-Woken s p h = record {
  runs = ground arith;
  alive = ground (arith, h);
  same = λ k ne. ground (arith, ne);
  idle = ground arith;
}

-- In the scheduler, only the state of `p` may have changed, to runnable.
record Waked (s : Sched) (p : ℕ) (s' : Sched) : Type 0 where
  alive : is_zombie (s'.procs p).state ≡ false
  same : (k : ℕ) → k ≢ p → (s'.procs k).state ≡ (s.procs k).state
  runs :
      ((s.procs p).wait_state ≡ wt_child) ⊎ (is_runnable (s.procs p).state ≡ true)
      → is_runnable (s'.procs p).state ≡ true

wake_parent-Waked :
    (f : Family) (p : ℕ)
    → is_zombie (f.sched.procs p).state ≡ false
    → (s : Sched) × (wake_parent f p ≡ some (record f { sched = s })) × Waked f.sched p s
unfolding wake_parent wakeup_proc
wake_parent-Waked f p h = elim (Bool-cases ((f.sched.procs p).wait_state == wt_child)) [
  | inl z ↦
      let w = wake-Woken f.sched p h in
      (
        wake f.sched p,
        rw (z, h) refl,
        record { alive = w.alive; same = w.same; runs = λ _. w.runs },
      )
  | inr z ↦ (
    f.sched,
    rw z refl,
    record {
      alive = h;
      same = λ k ne. refl;
      runs = λ o. elim o [ inl e ↦ absurd (ground (arith, z, e)) | inr r ↦ r ];
    },
  )
]

-- The children `cs` have been handed to `initproc`.
pub record Adopted (i : ℕ) (f : Family) (cs : List ℕ) (f' : Family) : Type 0 where
  pub init : f'.initproc ≡ i
  pub parents : (k : ℕ) → f'.parent k ≡ (if member k cs then i else f.parent k)
  pub handed : f'.children i ≡ rev_onto cs (f.children i)
  pub others : (k : ℕ) → k ≢ i → f'.children k ≡ f.children k
  pub codes : f'.exit_code ≡ f.exit_code
  pub alive : is_zombie (f'.sched.procs i).state ≡ false
  pub states : (k : ℕ) → k ≢ i → (f'.sched.procs k).state ≡ (f.sched.procs k).state
  pub runs :
      is_runnable (f.sched.procs i).state ≡ true → is_runnable (f'.sched.procs i).state ≡ true

adopt-Adopted :
    (f : Family) (c : ℕ)
    → is_zombie (f.sched.procs f.initproc).state ≡ false
    → (f' : Family) × (adopt f c ≡ some f') × Adopted f.initproc f (c ∷ []) f'
unfolding adopt
adopt-Adopted f c h = elim (Bool-cases (is_zombie (f.sched.procs c).state)) [
  | inl z ↦
      let (s, e, w) = wake_parent-Waked f₁ f.initproc h in
      (record f₁ { sched = s }, rw z e, given s w.alive w.same (λ r. w.runs (inr r)))
  | inr z ↦ (f₁, rw z refl, given f.sched h (λ k ne. refl) (λ r. r))
]
  where
    f₁ : Family
    f₁ = record f {
      parent = update f.parent c f.initproc;
      children = update f.children f.initproc (c ∷ f.children f.initproc);
    }

    given :
        (s : Sched)
        → is_zombie (s.procs f.initproc).state ≡ false
        → ((k : ℕ) → k ≢ f.initproc → (s.procs k).state ≡ (f.sched.procs k).state)
        → (is_runnable (f.sched.procs f.initproc).state ≡ true
            → is_runnable (s.procs f.initproc).state ≡ true)
        → Adopted f.initproc f (c ∷ []) (record f₁ { sched = s })
    given s alive states runs = record {
      init = refl;
      parents = λ k. ground arith;
      handed = ground arith;
      others = λ k ne. ground (arith, ne);
      codes = refl;
      alive = alive;
      states = states;
      runs = runs;
    }

adopt_all-Adopted :
    (cs : List ℕ) (f : Family)
    → is_zombie (f.sched.procs f.initproc).state ≡ false
    → (f' : Family) × (adopt_all cs f ≡ some f') × Adopted f.initproc f cs f'
unfolding adopt_all
adopt_all-Adopted [] f h = (
  f,
  refl,
  record {
    init = refl;
    parents = λ k. refl;
    handed = refl;
    others = λ k ne. refl;
    codes = refl;
    alive = h;
    states = λ k ne. refl;
    runs = λ r. r;
  },
)
adopt_all-Adopted (c ∷ cs) f h =
    let (f₁, e, a) = adopt-Adopted f c h in
    let (f₂, e', b₁) = adopt_all-Adopted cs f₁ (rw a.init a.alive) in
    let b : Adopted f.initproc f₁ cs f₂ = subst (λ i. Adopted i f₁ cs f₂) a.init b₁ in
    (
      f₂,
      rw e e',
      record {
        init = b.init;
        parents = λ k. ground (arith, b.parents k, a.parents k);
        handed = b.handed ∙ ap (rev_onto cs) a.handed;
        others = λ k ne. b.others k ne ∙ a.others k ne;
        codes = b.codes ∙ a.codes;
        alive = b.alive;
        states = λ k ne. b.states k ne ∙ a.states k ne;
        runs = λ r. b.runs (a.runs r);
      },
    )

find_zombie-found :
    (f : Family) (any : Bool) (p : ℕ) (cs : List ℕ)
    → member p cs ≡ true
    → is_zombie (f.sched.procs p).state ≡ true
    → (c : ℕ) × (find_zombie f any cs ≡ found c)
      × (member c cs ≡ true)
      × (is_zombie (f.sched.procs c).state ≡ true)
unfolding find_zombie
find_zombie-found f any p [] m z = grind (arith, m)
find_zombie-found f any p (c ∷ cs) m z = elim (Bool-cases (is_zombie (f.sched.procs c).state)) [
  | inl y ↦ (c, rw y refl, ground arith, y)
  | inr y ↦
      let later : member p cs ≡ true = elsewhere y m in
      let (d, e, m', z') = find_zombie-found f true p cs later z in
      (d, rw y e, ground (arith, m'), z')
]
  where
    elsewhere :
        is_zombie (f.sched.procs c).state ≡ false
        → (p == c || member p cs) ≡ true
        → member p cs ≡ true
    elsewhere y m = elim (Bool-cases (p == c)) [
      | inl e ↦
          let pc : p ≡ c = ground (arith, e) in
          let both : true ≡ false = sym z ∙ ap (λ k. is_zombie (f.sched.procs k).state) pc ∙ y in
          absurd (ground (arith, both))
      | inr e ↦ ground (arith, e, m)
    ]

abbrev pub leaver : Family → ℕ
leaver f = f.sched.current

abbrev pub waiter : Family → ℕ
waiter f = f.parent f.sched.current

-- `do_exit` of a process other than `idleproc` and `initproc` whose parent is neither itself nor
-- `initproc` reaches its call of `schedule`, where `initproc` and the parent are no zombies. Then
-- the process is a zombie with its exit code and without children; its children have `initproc`
-- as their parent and stand in front of those of `initproc`. If the parent waits for a child, or is
-- runnable, it is runnable, and a walk of `do_wait` over its children finds a zombie.
pub exit_links-found :
    (f : Family) (code : ℕ)
    → leaver f ≢ f.sched.idleproc
    → leaver f ≢ f.initproc
    → waiter f ≢ leaver f
    → waiter f ≢ f.initproc
    → member (leaver f) (f.children (waiter f)) ≡ true
    → is_zombie (f.sched.procs (waiter f)).state ≡ false
    → is_zombie (f.sched.procs f.initproc).state ≡ false
    → (f' : Family) × (exit_links f code ≡ some f')
      × (is_zombie (f'.sched.procs (leaver f)).state ≡ true)
      × (f'.exit_code (leaver f) ≡ code)
      × (f'.children (leaver f) ≡ [])
      × (f'.children f.initproc ≡ rev_onto (f.children (leaver f)) (f.children f.initproc))
      × ((k : ℕ)
          → f'.parent k ≡ (if member k (f.children (leaver f)) then f.initproc else f.parent k))
      × (((f.sched.procs (waiter f)).wait_state ≡ wt_child)
            ⊎ (is_runnable (f.sched.procs (waiter f)).state ≡ true)
          → is_runnable (f'.sched.procs (waiter f)).state ≡ true)
      × ((c : ℕ) × (find_zombie f' false (f'.children (waiter f)) ≡ found c)
          × (member c (f'.children (waiter f)) ≡ true))
unfolding exit_links
exit_links-found f code ni nn qp qi mem alive alive_init =
    let p = leaver f in
    let q = waiter f in
    let guard : (not (p == f.sched.idleproc) && not (p == f.initproc)) ≡ true =
      ground (arith, ni, nn) in
    let f₀ : Family = record f {
      exit_code = update f.exit_code p code;
      sched = record f.sched {
        procs = update f.sched.procs p (record (f.sched.procs p) { state = ProcState.zombie });
      };
    } in
    let pq : (p == q) ≡ false = ground (arith, qp) in
    let pi : (p == f.initproc) ≡ false = ground (arith, nn) in
    let (s, e, w) = wake_parent-Waked f₀ q (rw pq alive) in
    let f₁ : Family = record f₀ { sched = s; children = update f.children p [] } in
    let init₁ : is_zombie (s.procs f.initproc).state ≡ false =
      ap is_zombie (w.same f.initproc (λ z. qi (sym z))) ∙ rw pi alive_init in
    let (f', e', a) = adopt_all-Adopted (f.children p) f₁ init₁ in
    let same : (p == p) ≡ true = ground arith in
    let zombie_p : is_zombie (f'.sched.procs p).state ≡ true =
      ap is_zombie (a.states p nn ∙ w.same p (λ z. qp (sym z))) ∙ rw same refl in
    let kids_q : f'.children q ≡ f.children q = a.others q qi ∙ rw pq refl in
    let (c, r, m, z) = find_zombie-found f' false p (f'.children q) (rw kids_q mem) zombie_p in
    (
      f',
      rw (guard, e) e',
      zombie_p,
      ap (λ (g : ℕ → ℕ). g p) a.codes ∙ rw same refl,
      a.others p nn ∙ rw same refl,
      a.handed ∙ rw pi refl,
      a.parents,
      λ o. ap is_runnable (a.states q qi) ∙ w.runs (rw pq o),
      (c, r, m),
    )
