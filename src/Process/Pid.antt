-- ===== src/Process/Pid.antt =====
-- `get_pid` of kern/process/proc.c returns, and the identifier is new.
use oscmp.Base.{
  ℕ, zero, suc, ◌+◌, ◌-◌, ◌*◌, ◌≡◌, ◌≢◌, ◌<◌, ◌≤◌, refl, sym, ◌⊎◌, inl, inr, Option, some, List, [],
  ◌∷◌, leb, ◌==◌, if◌then◌else◌, arith, Bool-cases, length, Fresh,
}
use oscmp.Process.Defs.{max_pid, Walked, done, again, walk, repeat, get_pid}
use oscmp.Process.Walk.{Clear, Walks, walk-Walks}

-- The list without `n`.
without : ℕ → List ℕ → List ℕ
without n [] = []
without n (x ∷ xs) = if n == x then without n xs else x ∷ without n xs

length-without : (n : ℕ) (xs : List ℕ) → length (without n xs) ≤ length xs
unfolding without
length-without n [] = omega arith
length-without n (x ∷ xs) = let h = length-without n xs in ground (arith, h)

Fresh-cases : (n : ℕ) (xs : List ℕ) → Fresh n xs ⊎ (length (without n xs) < length xs)
unfolding without
Fresh-cases n [] = inl tt
Fresh-cases n (x ∷ xs) = elim (Bool-cases (n == x)) [
  | inl z ↦ let h = length-without n xs in inr (rw z (omega arith))
  | inr z ↦ elim (Fresh-cases n xs) [
    | inl f ↦ inl (ground (arith, z), f)
    | inr l ↦ inr (rw z (omega arith))
  ]
]

Fresh-without : (f n : ℕ) (xs : List ℕ) → f ≢ n → Fresh f (without n xs) → Fresh f xs
unfolding without
Fresh-without f n [] ne h = tt
Fresh-without f n (x ∷ xs) ne h = elim (Bool-cases (n == x)) [
  | inl z ↦
      let nx : n ≡ x = ground (arith, z) in (rw (sym nx) ne, Fresh-without f n xs ne (rw z at h))
  | inr z ↦ let h' = rw z at h in (h'.0, Fresh-without f n xs ne h'.1)
]

-- A list shorter than `n` leaves out one of the numbers from 1 to `n`.
first_unused : (n : ℕ) (xs : List ℕ) → length xs < n → (f : ℕ) × (1 ≤ f) × (f ≤ n) × Fresh f xs
first_unused zero xs h = absurd (omega arith)
first_unused (suc n) xs h = elim (Fresh-cases (suc n) xs) [
  | inl fresh ↦ (suc n, omega arith, omega arith, fresh)
  | inr l ↦
      let (f, a, b, fresh) = first_unused n (without (suc n) xs) (omega arith) in
      (f, a, omega arith, Fresh-without f (suc n) xs (omega arith) fresh)
]

-- The rounds until the search reaches the free identifier `f`.
abbrev distance : ℕ → ℕ → ℕ
distance f last = if leb last f then f - last else max_pid + f - last

-- A positive identifier that no process has, and the gap above it.
abbrev Found : ℕ → ℕ → List ℕ → Type 0
Found l s pids = (1 ≤ l) × (l < s) × (s ≤ max_pid) × Clear l s pids

repeat-Found :
    (fuel : ℕ) (pids : List ℕ) (last f : ℕ)
    → 1 ≤ last
    → last < max_pid
    → 1 ≤ f
    → f < max_pid
    → Fresh f pids
    → distance f last < fuel
    → (l : ℕ) × (s : ℕ) × (repeat fuel pids last ≡ some (l, s)) × Found l s pids
unfolding repeat
repeat-Found zero pids last f pos lt pos' lt' fresh h = absurd (omega arith)
repeat-Found (suc fuel) pids last f pos lt pos' lt' fresh h =
    go (walk pids last max_pid) refl (walk-Walks pids last max_pid lt)
      (λ l a b c. repeat-Found fuel pids l f a b pos' lt' fresh c)
  where
    go :
        (w : Walked)
        → walk pids last max_pid ≡ w
        → Walks last max_pid pids w
        → ((l : ℕ)
            → 1 ≤ l
            → l < max_pid
            → distance f l < fuel
            → (l' : ℕ) × (s : ℕ) × (repeat fuel pids l ≡ some (l', s)) × Found l' s pids)
        → (l : ℕ) × (s : ℕ) × (repeat (suc fuel) pids last ≡ some (l, s)) × Found l s pids
    go (done l s) e (a, b, c, d) next = (l, s, rw (e, repeat) refl, (omega arith, c, b, d))
    go (again l) e (l₀, a, b, c, d) next =
        let skip = d f fresh in
        let (l', s, r, found) =
          next l (ground (arith, c)) (ground (arith, c, b))
            (ground (arith, c, skip, a, b, h, lt')) in
        (l', s, rw (e, repeat) r, found)

-- The state that `get_pid` keeps between calls: no process has an identifier in the gap.
pub record Gap (pids : List ℕ) (last safe : ℕ) : Type 0 where
  pub within : safe ≤ max_pid
  pub gap : Clear (last + 1) safe pids

Clear-Fresh : (l s : ℕ) (pids : List ℕ) → l < s → Clear l s pids → Fresh l pids
Clear-Fresh l s [] h c = tt
Clear-Fresh l s (p ∷ ps) h c = (ground (arith, c.0), Clear-Fresh l s ps h c.1)

Clear-suc : (l s : ℕ) (pids : List ℕ) → Clear l s pids → Clear (l + 1) s pids
Clear-suc l s [] c = tt
Clear-suc l s (p ∷ ps) c = (ground (arith, c.0), Clear-suc l s ps c.1)

-- While fewer processes than identifiers exist, `get_pid` returns, with at most two rounds over the
-- processes for each identifier; what it returns is an identifier in range that no process
-- has, and the state that it leaves is right for the list with the new process.
pub get_pid-Gap :
    (fuel : ℕ) (pids : List ℕ) (last safe : ℕ)
    → Gap pids last safe
    → last ≤ max_pid
    → length pids + 1 < max_pid
    → 2 * max_pid ≤ fuel
    → (l : ℕ) × (s : ℕ) × (get_pid fuel pids last safe ≡ some (l, s))
      × (1 ≤ l)
      × (l < max_pid)
      × Fresh l pids
      × Gap (l ∷ pids) l s
unfolding get_pid
get_pid-Gap fuel pids last safe g le few enough = elim (Bool-cases (leb max_pid (last + 1))) [
  | inl z ↦ rw z (finish (from 1 (omega arith) (omega arith)))
  | inr z ↦ elim (Bool-cases (leb safe (last + 1))) [
    | inl y ↦ rw (z, y) (finish (from (last + 1) (omega arith) (ground (arith, z))))
    | inr y ↦
        rw (z, y) (finish (last + 1, safe, refl, (omega arith, ground (arith, y), g.within, g.gap)))
  ]
]
  where
    from :
        (start : ℕ)
        → 1 ≤ start
        → start < max_pid
        → (l : ℕ) × (s : ℕ) × (repeat fuel pids start ≡ some (l, s)) × Found l s pids
    from start a b =
        let (f, c, d, fresh) = first_unused (max_pid - 1) pids (omega arith) in
        repeat-Found fuel pids start f a b c (omega arith) fresh (ground (arith, d, b, enough))

    finish :
        {o : Option (ℕ × ℕ)}
        → (l : ℕ) × (s : ℕ) × (o ≡ some (l, s)) × Found l s pids
        → (l : ℕ) × (s : ℕ) × (o ≡ some (l, s))
          × (1 ≤ l)
          × (l < max_pid)
          × Fresh l pids
          × Gap (l ∷ pids) l s
    finish (l, s, e, (a, b, c, d)) = (
      l,
      s,
      e,
      a,
      omega arith,
      Clear-Fresh l s pids b d,
      record { within = c; gap = (inl (omega arith), Clear-suc l s pids d) },
    )
