-- ===== src/Strings/Copies.antt =====
-- The functions of libs/string.c that write strings.
use oscmp.Base.{
  ℕ, zero, suc, ◌+◌, ◌-◌, ◌<◌, ◌≤◌, ◌≡◌, ◌≢◌, refl, ap, ◌∙◌, true, false, ◌&&◌, ◌⊎◌, inl, inr, some,
  ◌==◌, ltb, leb, if◌then◌else◌, arith, Bool-cases, update,
}
use oscmp.Memory.{Bytes}
use oscmp.Strings.Defs.{strcpy, strncpy, strcat}
use oscmp.Strings.Scan.{IsString, empty-IsString, first-IsString, rest-IsString, strlen-IsString}

-- A write outside of a string keeps it.
IsString-update :
    (mem : Bytes) (s n d c : ℕ)
    → IsString mem s n
    → (d < s) ⊎ (s + n < d)
    → IsString (update mem d c) s n
IsString-update mem s n d c h out = record {
  ends = ground (arith, h.ends);
  runs = λ k lt. let r = h.runs k lt in ground (arith, r);
}

-- The block of `len` bytes at `d` holds those at `s`.
abbrev pub Copied : Bytes → ℕ → ℕ → ℕ → Bytes → Type 0
Copied mem d s len mem' =
    (k : ℕ) → mem' k ≡ (if leb d k && ltb k (d + len) then mem (s + (k - d)) else mem k)

-- `strcpy` of a string that does not overlap its destination returns, given a round for each byte of
-- it and one more; it copies the string with its null byte, and writes nothing else.
pub strcpy-Copied :
    (fuel : ℕ) (mem : Bytes) (d s n : ℕ)
    → IsString mem s n
    → n < fuel
    → (d + n < s) ⊎ (s + n < d)
    → (mem' : Bytes) × (strcpy fuel mem d s ≡ some mem') × Copied mem d s (n + 1) mem'
unfolding strcpy
strcpy-Copied zero mem d s n h lt apart = absurd (omega arith)
strcpy-Copied (suc fuel) mem d s zero h lt apart =
    let z : mem s ≡ 0 = empty-IsString mem s h in
    let e : (mem s == 0) ≡ true = ground (arith, z) in
    (
      update mem d (mem s),
      rw e refl,
      λ k. let v : (k ≡ d) → s ≡ s + (k - d) = λ p. omega arith in ground (arith, v),
    )
strcpy-Copied (suc fuel) mem d s (suc n) h lt apart =
    let e : (mem s == 0) ≡ false = first-IsString mem s n h in
    let mid = update mem d (mem s) in
    let (mem', r, c) =
      strcpy-Copied fuel mid (d + 1) (s + 1) n
        (IsString-update mem (s + 1) n d (mem s) (rest-IsString mem s n h) (omega arith))
        (omega arith) (omega arith) in
    (
      mem',
      rw e r,
      λ k.
          let v : (k ≢ d) → d ≤ k → s + 1 + (k - (d + 1)) ≡ s + (k - d) = λ p q. omega arith in
          let ck = c k in ground (arith, ck, v),
    )

-- `strncpy` of a string that does not overlap the `len` bytes at the destination fills exactly
-- these: with the bytes of the string, as far as they fit, and null bytes behind them.
pub strncpy-IsString :
    (mem : Bytes) (d s n len k : ℕ)
    → IsString mem s n
    → (d + len ≤ s) ⊎ (s + n < d)
    → strncpy mem d s len k ≡ (
        if leb d k && ltb k (d + len)
        then (if ltb (k - d) n then mem (s + (k - d)) else 0)
        else mem k)
unfolding strncpy
strncpy-IsString mem d s n zero k h apart = ground arith
strncpy-IsString mem d s zero (suc len) k h apart =
    let z : mem s ≡ 0 = empty-IsString mem s h in
    let e : (mem s == 0) ≡ true = ground (arith, z) in
    let r =
      strncpy-IsString (update mem d (mem s)) (d + 1) s 0 len k
        (IsString-update mem s 0 d (mem s) h (omega arith)) (omega arith) in
    rw e (ground (arith, r, z))
strncpy-IsString mem d s (suc n) (suc len) k h apart =
    let e : (mem s == 0) ≡ false = first-IsString mem s n h in
    let r =
      strncpy-IsString (update mem d (mem s)) (d + 1) (s + 1) n len k
        (IsString-update mem (s + 1) n d (mem s) (rest-IsString mem s n h) (omega arith))
        (omega arith) in
    let v : (k ≢ d) → d ≤ k → s + 1 + (k - (d + 1)) ≡ s + (k - d) = λ p q. omega arith in
    let v0 : (k ≡ d) → s ≡ s + (k - d) = λ p. omega arith in rw e (ground (arith, r, v, v0))

-- `strcat` on two strings apart, with room behind the first: the bytes of the second and its null
-- byte follow those of the first, so that a string of both lengths stands there, and nothing else
-- is written.
pub strcat-IsString :
    (fuel : ℕ) (mem : Bytes) (d s m n : ℕ)
    → IsString mem d m
    → IsString mem s n
    → m < fuel
    → n < fuel
    → (d + m + n < s) ⊎ (s + n < d)
    → (mem' : Bytes) × (strcat fuel mem d s ≡ some mem')
      × Copied mem (d + m) s (n + 1) mem'
      × IsString mem' d (m + n)
unfolding strcat
strcat-IsString fuel mem d s m n g h lm ln apart =
    let (len, bound) = strlen-IsString fuel mem d m 0 g lm in
    let (mem', r, c) = strcpy-Copied fuel mem (d + m) s n h ln (omega arith) in
    (
      mem',
      rw len r,
      c,
      record {
        ends =
            let a : s + (d + (m + n) - (d + m)) ≡ s + n = omega arith in
            let ck = c (d + (m + n)) in
            let z : mem (s + (d + (m + n) - (d + m))) ≡ 0 = ap mem a ∙ h.ends in
            ground (arith, ck, z);
        runs = λ k lt z.
            let ck = c (d + k) in
            elim (Bool-cases (ltb k m)) [
              | inl y ↦ g.runs k (ground (arith, y)) (ground (arith, ck, z, y))
              | inr y ↦
                  let a : m ≤ k → s + (d + k - (d + m)) ≡ s + (k - m) = λ q. omega arith in
                  h.runs (k - m) (ground (arith, y, lt)) (ground (arith, ck, z, y, a))
            ];
      },
    )
