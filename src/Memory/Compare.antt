-- ===== src/Memory/Compare.antt =====
-- What memcmp of libs/string.c finds.
use oscmp.Base.{
  ℕ, zero, suc, ◌+◌, ◌<◌, ◌≡◌, ◌≢◌, refl, ◌⊎◌, sym, inl, inr, none, some, ◌==◌, arith, Bool-cases,
}
use oscmp.Memory.Defs.{Bytes, memcmp}

-- The first `n` bytes at `a` and at `b` agree.
abbrev pub Agree : Bytes → ℕ → ℕ → ℕ → Type 0
Agree mem a b n = (k : ℕ) → k < n → mem (a + k) ≡ mem (b + k)

-- Blocks agree if their first bytes and the rest do.
pub Agree-suc :
    (mem : Bytes) (a b n : ℕ) → mem a ≡ mem b → Agree mem (a + 1) (b + 1) n → Agree mem a b (suc n)
Agree-suc mem a b n same all zero lt =
    let p : a + 0 ≡ a = omega arith in let q : b + 0 ≡ b = omega arith in rw (p, q) same
Agree-suc mem a b n same all (suc k) lt =
    let p : a + 1 + k ≡ a + suc k = omega arith in
    let q : b + 1 + k ≡ b + suc k = omega arith in rw (sym p, sym q) (all k (omega arith))

pub Agree-rest :
    (mem : Bytes) (a b n : ℕ)
    → Agree mem a b (suc n)
    → (mem a ≡ mem b) × Agree mem (a + 1) (b + 1) n
Agree-rest mem a b n all = (
  (let p : a + 0 ≡ a = omega arith in
      let q : b + 0 ≡ b = omega arith in rw (sym p, sym q) (all 0 (omega arith))),
  λ k lt.
      let p : a + 1 + k ≡ a + suc k = omega arith in
      let q : b + 1 + k ≡ b + suc k = omega arith in rw (p, q) (all (suc k) (omega arith)),
)

-- `memcmp` finds nothing exactly if the blocks agree; else it returns the two bytes at the first
-- place where they differ.
pub memcmp-Agree :
    (mem : Bytes) (a b n : ℕ)
    → ((memcmp mem a b n ≡ none) × Agree mem a b n)
      ⊎ ((k : ℕ) × (k < n)
          × Agree mem a b k
          × (mem (a + k) ≢ mem (b + k))
          × (memcmp mem a b n ≡ some (mem (a + k), mem (b + k))))
unfolding memcmp
memcmp-Agree mem a b zero = inl (refl, λ k lt. absurd (omega arith))
memcmp-Agree mem a b (suc n) = elim (Bool-cases (mem a == mem b)) [
  | inr z ↦
      let p : a + 0 ≡ a = omega arith in
      let q : b + 0 ≡ b = omega arith in
      inr (
        0,
        omega arith,
        λ k lt. absurd (omega arith),
        rw (p, q) (ground (arith, z)),
        rw (p, q, z) refl,
      )
  | inl z ↦
      let same : mem a ≡ mem b = ground (arith, z) in
      elim (memcmp-Agree mem (a + 1) (b + 1) n) [
        | inl (e, all) ↦ inl (rw z e, Agree-suc mem a b n same all)
        | inr (k, lt, all, ne, e) ↦
            let p : a + 1 + k ≡ a + suc k = omega arith in
            let q : b + 1 + k ≡ b + suc k = omega arith in
            inr (
              suc k,
              omega arith,
              Agree-suc mem a b k same all,
              rw (sym p, sym q) ne,
              rw (z, sym p, sym q) e,
            )
      ]
]
