-- ===== src/Memory/Copy.antt =====
-- What the copies of libs/string.c leave in memory.
use oscmp.Base.{
  ◌⊎◌, ℕ, zero, suc, ◌+◌, ◌-◌, ◌≤◌, ◌≡◌, ◌≢◌, ltb, leb, if◌then◌else◌, ◌&&◌, update, arith, false,
  Bool-cases, inl, inr,
}
use oscmp.Memory.Defs.{Bytes, memset, memcpy, copy_down, memmove}

-- `memset` writes the block and nothing else.
pub memset_lem :
    (mem : Bytes) (s c n k : ℕ)
    → memset mem s c n k ≡ (if leb s k && ltb k (s + n) then c else mem k)
unfolding memset
memset_lem mem s c zero k = ground arith
memset_lem mem s c (suc n) k = ground (arith, memset_lem (update mem s c) (s + 1) c n k)

-- A copy upwards is right where the destination does not start inside the source.
memcpy_lem :
    (mem : Bytes) (d s n k : ℕ)
    → (d ≤ s) ⊎ (s + n ≤ d)
    → memcpy mem d s n k ≡ (if leb d k && ltb k (d + n) then mem (s + (k - d)) else mem k)
unfolding memcpy
memcpy_lem mem d s zero k h = ground arith
memcpy_lem mem d s (suc n) k h =
    let e : (k ≢ d) → d ≤ k → s + 1 + (k - (d + 1)) ≡ s + (k - d) = λ p q. omega arith in
    ground (arith, memcpy_lem (update mem d (mem s)) (d + 1) (s + 1) n k (later h), e)
  where
    later : (d ≤ s) ⊎ (s + suc n ≤ d) → (d + 1 ≤ s + 1) ⊎ (s + 1 + n ≤ d + 1)
    later (inl p) = inl (omega arith)
    later (inr p) = inr (omega arith)

-- A copy downwards is right where the source does not start inside the destination.
copy_down_lem :
    (mem : Bytes) (d s n k : ℕ)
    → s ≤ d
    → copy_down mem (d + n) (s + n) n k
      ≡ (if leb d k && ltb k (d + n) then mem (s + (k - d)) else mem k)
unfolding copy_down
copy_down_lem mem d s zero k h = ground arith
copy_down_lem mem d s (suc n) k h =
    let a : d + suc n - 1 ≡ d + n = omega arith in
    let b : s + suc n - 1 ≡ s + n = omega arith in
    rw (a, b) (ground (arith, copy_down_lem (update mem (d + n) (mem (s + n))) d s n k h))

-- `memmove` copies the block as it was before, whether or not the two blocks overlap, and writes
-- nothing else.
pub memmove_lem :
    (mem : Bytes) (d s n k : ℕ)
    → memmove mem d s n k ≡ (if leb d k && ltb k (d + n) then mem (s + (k - d)) else mem k)
unfolding memmove
memmove_lem mem d s n k = elim (Bool-cases (ltb s d && ltb d (s + n))) [
  | inl e ↦ rw e (copy_down_lem mem d s n k (ground arith))
  | inr e ↦ rw e (memcpy_lem mem d s n k (apart e))
]
  where
    apart : (ltb s d && ltb d (s + n)) ≡ false → (d ≤ s) ⊎ (s + n ≤ d)
    apart e = ground arith
