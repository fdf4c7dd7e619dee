-- ===== src/Process/Walk.antt =====
-- One walk of `get_pid` over the processes.
use oscmp.Base.{
  ℕ, ◌+◌, ◌≡◌, ◌≢◌, ◌<◌, ◌≤◌, refl, ◌⊎◌, inl, inr, ◌&&◌, List, [], ◌∷◌, ltb, leb, ◌==◌,
  if◌then◌else◌, arith, Bool-cases, Fresh,
}
use oscmp.Process.Defs.{Walked, done, again, wrap_pid, walk}

-- No identifier stands from `l` up to `s`.
abbrev pub Clear : ℕ → ℕ → List ℕ → Type 0
Clear l s [] = Unit
Clear l s (p ∷ ps) = ((p < l) ⊎ (s ≤ p)) × Clear l s ps

-- What a walk from `last` and `safe` finds: a free identifier with the gap above it, or that all
-- from `last` to `l₀` are taken, where the next round starts behind `l₀`.
abbrev pub Walks : ℕ → ℕ → List ℕ → Walked → Type 0
Walks last safe ps (done l s) = (last ≤ l) × (s ≤ safe) × (l < s) × Clear l s ps
Walks last safe ps (again l) =
    (l₀ : ℕ) × (last ≤ l₀)
    × (l₀ < safe)
    × (l ≡ wrap_pid (l₀ + 1))
    × ((f : ℕ) → Fresh f ps → last ≤ f → l₀ < f)

Walks-cons :
    (p last safe last' safe' : ℕ) (ps : List ℕ) (w : Walked)
    → (p ≢ last) ⊎ (last + 1 < safe)
    → last' ≡ (if p == last then last + 1 else last)
    → safe' ≡ (if ltb last p && ltb p safe then p else safe)
    → Walks last' safe' ps w
    → Walks last safe (p ∷ ps) w
Walks-cons p last safe last' safe' ps (done l s) g e e' (a, b, c, d) =
    (ground (arith, a), ground (arith, b), c, (ground (arith, a, b, c), d))
Walks-cons p last safe last' safe' ps (again l) g e e' (l₀, a, b, c, d) = (
  l₀,
  ground (arith, a),
  ground (arith, b),
  c,
  λ f fresh lo. let n = fresh.0 in d f fresh.1 (ground (arith, n, lo)),
)

pub walk-Walks :
    (ps : List ℕ) (last safe : ℕ) → last < safe → Walks last safe ps (walk ps last safe)
unfolding walk
walk-Walks [] last safe h = (omega arith, omega arith, h, tt)
walk-Walks (p ∷ ps) last safe h = elim (Bool-cases (p == last && leb safe (last + 1))) [
  | inl z ↦
      let e : walk (p ∷ ps) last safe ≡ again (wrap_pid (last + 1)) = rw (z, walk) refl in
      rw e (last, omega arith, h, refl, λ f fresh lo. let n = fresh.0 in ground (arith, z, n, lo))
  | inr z ↦
      let last' = if p == last then last + 1 else last in
      let safe' = if ltb last p && ltb p safe then p else safe in
      let e : walk (p ∷ ps) last safe ≡ walk ps last' safe' = rw (z, walk) refl in
      rw e (
        Walks-cons p last safe last' safe' ps (walk ps last' safe') (ground (arith, z)) refl refl
          (walk-Walks ps last' safe' (ground (arith, z, h))))
]
