-- ===== src/Strings/Find.antt =====
-- The searches of libs/string.c for a byte in a string.
use oscmp.Base.{
  ℕ, zero, suc, ◌+◌, ◌<◌, ◌≤◌, ◌≡◌, ◌≢◌, refl, sym, ap, ◌∙◌, true, false, inl, inr, none, some,
  ◌==◌, ltb, if◌then◌else◌, arith, Bool-cases,
}
use oscmp.Memory.{Bytes}
use oscmp.Strings.Defs.{strchr, strfind}
use oscmp.Strings.Scan.{IsString, empty-IsString, first-IsString, rest-IsString}

-- The first place of `c` among the `n` bytes at `s` is `j`, or `j` is `n` and there is none.
pub record First (mem : Bytes) (s n c j : ℕ) : Type 0 where
  pub inside : j ≤ n
  pub here : j < n → mem (s + j) ≡ c
  pub before : (k : ℕ) → k < j → mem (s + k) ≢ c

-- In the string at `s`, `strfind` and `strchr` return with a round for each byte and one more.
-- Where the byte stands in the string, both return its first place; where it does not, `strfind`
-- returns the place of the null byte, and `strchr` NULL.
pub strfind-First :
    (fuel : ℕ) (mem : Bytes) (s n c : ℕ)
    → IsString mem s n
    → n < fuel
    → (j : ℕ) × First mem s n c j
      × (strfind fuel mem s c ≡ some (s + j))
      × (strchr fuel mem s c ≡ some (if ltb j n then some (s + j) else none))
unfolding strfind strchr
strfind-First zero mem s n c h lt = absurd (omega arith)
strfind-First (suc fuel) mem s zero c h lt =
    let z : (mem s == 0) ≡ true = let e = empty-IsString mem s h in ground (arith, e) in
    let p : s + 0 ≡ s = omega arith in
    (
      0,
      record {
        inside = omega arith;
        here = λ l. absurd (omega arith);
        before = λ k l. absurd (omega arith);
      },
      rw (p, z) refl,
      rw z refl,
    )
strfind-First (suc fuel) mem s (suc n) c h lt =
    let z : (mem s == 0) ≡ false = first-IsString mem s n h in
    let p : s + 0 ≡ s = omega arith in
    elim (Bool-cases (mem s == c)) [
      | inl y ↦ (
        0,
        record {
          inside = omega arith;
          here = λ l. rw p (ground (arith, y));
          before = λ k l. absurd (omega arith);
        },
        rw (p, z, y) refl,
        rw (z, y, p) (ground arith),
      )
      | inr y ↦
          let (j, f, e, g) =
            strfind-First fuel mem (s + 1) n c (rest-IsString mem s n h) (omega arith) in
          let q : s + 1 + j ≡ s + suc j = omega arith in
          let t : ltb (suc j) (suc n) ≡ ltb j n = ground arith in
          (
            suc j,
            record {
              inside = let i = f.inside in omega arith;
              here = λ l. rw (sym q) (f.here (omega arith));
              before = λ k l. past j f.before y k l;
            },
            rw (z, y, e, q) refl,
            rw (z, y, g, q, t) refl,
          )
    ]
  where
    past :
        (j : ℕ)
        → ((k : ℕ) → k < j → mem (s + 1 + k) ≢ c)
        → (mem s == c) ≡ false
        → (k : ℕ) → k < suc j
        → mem (s + k) ≢ c
    past j before y zero l e =
        let p : s + 0 ≡ s = omega arith in absurd (ground (arith, y, ap mem p, e))
    past j before y (suc k) l e =
        let q : s + 1 + k ≡ s + suc k = omega arith in before k (omega arith) (ap mem q ∙ e)
