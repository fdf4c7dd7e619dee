-- ===== src/Strings/Scan.antt =====
-- The functions of libs/string.c that read strings.
use oscmp.Base.{
  ℕ, zero, suc, ◌+◌, ◌<◌, ◌≡◌, ◌≢◌, ◌↔◌, min, refl, sym, ap, ◌∙◌, true, false, inl, inr, some, ◌==◌,
  arith, Bool-cases,
}
use mathlib.Core.Path.{subst}
use oscmp.Memory.{Bytes}
use oscmp.Memory.Compare.{Agree, Agree-suc, Agree-rest}
use oscmp.Strings.Defs.{strlen_from, strlen, strnlen_from, strnlen, strcmp}

-- A string of `n` bytes, with the null byte behind them, stands at `s`.
pub record IsString (mem : Bytes) (s n : ℕ) : Type 0 where
  pub ends : mem (s + n) ≡ 0
  pub runs : (k : ℕ) → k < n → mem (s + k) ≢ 0

pub empty-IsString : (mem : Bytes) (s : ℕ) → IsString mem s 0 → mem s ≡ 0
empty-IsString mem s h = let e : s + 0 ≡ s = omega arith in ap mem (sym e) ∙ h.ends

pub first-IsString : (mem : Bytes) (s n : ℕ) → IsString mem s (suc n) → (mem s == 0) ≡ false
first-IsString mem s n h =
    let e : s + 0 ≡ s = omega arith in
    let ne : mem s ≢ 0 = λ z. h.runs 0 (omega arith) (ap mem e ∙ z) in ground (arith, ne)

pub rest-IsString : (mem : Bytes) (s n : ℕ) → IsString mem s (suc n) → IsString mem (s + 1) n
rest-IsString mem s n h = record {
  ends = let e : s + 1 + n ≡ s + suc n = omega arith in ap mem e ∙ h.ends;
  runs = λ k lt z.
      let e : s + suc k ≡ s + 1 + k = omega arith in h.runs (suc k) (omega arith) (ap mem e ∙ z);
}

strlen_from-IsString :
    (fuel : ℕ) (mem : Bytes) (s n cnt : ℕ)
    → IsString mem s n
    → n < fuel
    → strlen_from fuel mem s cnt ≡ some (cnt + n)
unfolding strlen_from
strlen_from-IsString zero mem s n cnt h lt = absurd (omega arith)
strlen_from-IsString (suc fuel) mem s zero cnt h lt = ground (arith, empty-IsString mem s h)
strlen_from-IsString (suc fuel) mem s (suc n) cnt h lt = ground (
  arith,
  first-IsString mem s n h,
  strlen_from-IsString fuel mem (s + 1) n (cnt + 1) (rest-IsString mem s n h) (omega arith),
)

strnlen_from-IsString :
    (mem : Bytes) (s n len cnt : ℕ)
    → IsString mem s n
    → strnlen_from mem s len cnt ≡ cnt + min n len
unfolding strnlen_from
strnlen_from-IsString mem s n zero cnt h = omega arith
strnlen_from-IsString mem s zero (suc len) cnt h = ground (arith, empty-IsString mem s h)
strnlen_from-IsString mem s (suc n) (suc len) cnt h = ground (
  arith,
  first-IsString mem s n h,
  strnlen_from-IsString mem (s + 1) n len (cnt + 1) (rest-IsString mem s n h),
)

-- `strlen` returns the length of the string at `s`, given a round for each byte of it and one more,
-- and `strnlen` the lesser of this and its bound.
pub strlen-IsString :
    (fuel : ℕ) (mem : Bytes) (s n len : ℕ)
    → IsString mem s n
    → n < fuel
    → (strlen fuel mem s ≡ some n) × (strnlen mem s len ≡ min n len)
strlen-IsString fuel mem s n len h lt =
    let e : 0 + n ≡ n = omega arith in
    (
      strlen_from-IsString fuel mem s n 0 h lt ∙ ap some e,
      strnlen_from-IsString mem s n len 0 h ∙ omega arith,
    )

-- On two strings `strcmp` returns, with a round for each byte of the first and one more, and its
-- result is 0 exactly if the strings have one length and the same bytes.
pub strcmp-Agree :
    (fuel : ℕ) (mem : Bytes) (a b n m : ℕ)
    → IsString mem a n
    → IsString mem b m
    → n < fuel
    → (x : ℕ) × (y : ℕ) × (strcmp fuel mem a b ≡ some (x, y))
      × ((x ≡ y) ↔ ((n ≡ m) × Agree mem a b n))
unfolding strcmp
strcmp-Agree zero mem a b n m h g lt = absurd (omega arith)
strcmp-Agree (suc fuel) mem a b zero m h g lt =
    let z : mem a ≡ 0 = empty-IsString mem a h in
    let e : (mem a == 0) ≡ true = ground (arith, z) in
    (
      mem a,
      mem b,
      rw e refl,
      (λ p. (length_zero m g (sym p ∙ z), λ k l. absurd (omega arith)), λ q. z ∙ sym (also q.0)),
    )
  where
    length_zero : (m : ℕ) → IsString mem b m → mem b ≡ 0 → 0 ≡ m
    length_zero zero g z = refl
    length_zero (suc m) g z = absurd (ground (arith, first-IsString mem b m g, z))

    also : 0 ≡ m → mem b ≡ 0
    also q = empty-IsString mem b (subst (IsString mem b) (sym q) g)
strcmp-Agree (suc fuel) mem a b (suc n) zero h g lt =
    let z : mem b ≡ 0 = empty-IsString mem b g in
    let e : (mem a == 0) ≡ false = first-IsString mem a n h in
    let ne : (mem a == mem b) ≡ false = ground (arith, z, e) in
    (
      mem a,
      mem b,
      rw (e, ne) refl,
      (λ p. absurd (ground (arith, p, ne)), λ q. absurd (omega (arith, q.0))),
    )
strcmp-Agree (suc fuel) mem a b (suc n) (suc m) h g lt =
    let e : (mem a == 0) ≡ false = first-IsString mem a n h in
    elim (Bool-cases (mem a == mem b)) [
      | inr ne ↦ (
        mem a,
        mem b,
        rw (e, ne) refl,
        (λ p. absurd (ground (arith, p, ne)), λ q. (Agree-rest mem a b n q.1).0),
      )
      | inl y ↦
          let same : mem a ≡ mem b = ground (arith, y) in
          let (u, v, r, iff) =
            strcmp-Agree fuel mem (a + 1) (b + 1) n m (rest-IsString mem a n h)
              (rest-IsString mem b m g) (omega arith) in
          (
            u,
            v,
            rw (e, y) r,
            (
              λ p. (ap suc (iff.0 p).0, Agree-suc mem a b n same (iff.0 p).1),
              λ q. iff.1 (omega (arith, q.0), (Agree-rest mem a b n q.1).1),
            ),
          )
    ]
