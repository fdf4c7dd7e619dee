-- ===== src/Format/Printing.antt =====
-- The digits that printnum of libs/printfmt.c gives.
use oscmp.Base.{
  ℕ, zero, suc, ◌-◌, ◌*◌, ◌/◌, ◌%◌, ◌<◌, ◌≤◌, ◌≡◌, refl, ap, some, List, [], ◌∷◌, ◌++◌, leb,
  if◌then◌else◌, replicate, arith, Bool-cases, inl, inr,
}
use mathlib.Core.List.{append_assoc}
use oscmp.Format.Defs.{digit_char, printnum, digit_value}

-- A digit printed is a digit read.
pub digit_value-digit_char : (d : ℕ) → d < 16 → digit_value (digit_char d) ≡ some d
unfolding digit_char digit_value
digit_value-digit_char d h = ground arith

-- Characters that are digits below 16.
abbrev pub Digits : List ℕ → Type 0
Digits [] = Unit
Digits (c ∷ cs) = ((d : ℕ) × (d < 16) × (c ≡ digit_char d)) × Digits cs

Digits-append : (xs ys : List ℕ) → Digits xs → Digits ys → Digits (xs ++ ys)
Digits-append [] ys p q = q
Digits-append (x ∷ xs) ys p q = (p.0, Digits-append xs ys p.1 q)

-- The digits of a number, the first one first.
unfoldable pub digits : ℕ → ℕ → ℕ → List ℕ
digits zero num base = []
digits (suc fuel) num base =
    let above = digits fuel (num / base) base in
    let last = digit_char (num % base) ∷ [] in if leb base num then above ++ last else last

pub digits-Digits : (fuel num base : ℕ) → 2 ≤ base → base ≤ 16 → Digits (digits fuel num base)
unfolding digits
digits-Digits zero num base a b = tt
digits-Digits (suc fuel) num base a b =
    let last : Digits (digit_char (num % base) ∷ []) =
      ((num % base, grind (arith, a, b), refl), tt) in
    elim (Bool-cases (leb base num)) [
      | inl e ↦ rw e (
          Digits-append (digits fuel (num / base) base) _ (digits-Digits fuel (num / base) base a b)
            last)
      | inr e ↦ rw e last
    ]

twice-le-mul : (b q : ℕ) → 2 ≤ b → 2 * q ≤ b * q
twice-le-mul zero q h = absurd (omega (arith, h))
twice-le-mul (suc zero) q h = absurd (omega (arith, h))
twice-le-mul (suc (suc b)) q h = grind arith

pub div-lt : (n b fuel : ℕ) → 2 ≤ b → b ≤ n → n < suc fuel → n / b < fuel
div-lt n b fuel a c h = grind (arith, twice-le-mul b (n / b) a)

-- The depth of the recursion is enough when it is above the number.
pub printnum-digits :
    (fuel num base width padc : ℕ)
    → 2 ≤ base
    → num < fuel
    → (k : ℕ) × (printnum fuel num base width padc
        ≡ some (replicate k padc ++ digits fuel num base))
unfolding printnum digits
printnum-digits zero num base width padc a h = absurd (omega (arith, h))
printnum-digits (suc fuel) num base width padc a h = elim (Bool-cases (leb base num)) [
  | inl e ↦
      let (k, f) =
        printnum-digits fuel (num / base) base (width - 1) padc a
          (div-lt num base fuel a (ground (arith, e)) h) in
      (k, rw e (rw f (ap some (append_assoc (replicate k padc) _ _))))
  | inr e ↦ (width - 1, rw e refl)
]
