-- ===== src/Format/RoundTrip.antt =====
-- strtol of libs/string.c reads what printnum of libs/printfmt.c prints.
use oscmp.Base.{
  ℕ, zero, suc, ◌+◌, ◌*◌, ◌/◌, ◌%◌, ◌^◌, ◌<◌, ◌≤◌, ◌==◌, ◌≡◌, ◌⊎◌, inl, inr, refl, ap, ◌∙◌, false,
  none, some, List, [], ◌∷◌, ◌++◌, leb, replicate, arith, Bool-cases,
}
use mathlib.Core.List.{append_assoc}
use oscmp.Format.Defs.{
  digit_char, printnum, digit_value, is_blank, skip_blanks, read_prefix, hex_prefix, read_digits,
  wrap64, strtol,
}
use oscmp.Format.Printing.{
  digit_value-digit_char, Digits, digits, digits-Digits, printnum-digits, div-lt,
}

-- A text at which the reading of digits stops.
abbrev pub Stops : List ℕ → Type 0
Stops [] = Unit
Stops (c ∷ cs) = digit_value c ≡ none

read_digits-Stops : (base val : ℕ) (s : List ℕ) → Stops s → read_digits base val s ≡ (val, s)
unfolding read_digits
read_digits-Stops base val [] h = refl
read_digits-Stops base val (c ∷ cs) h = ground (arith, h)

read_digit :
    (base val d val' : ℕ) (s : List ℕ)
    → d < 16
    → d < base
    → val * base + d ≡ val'
    → val' < 2 ^ 64
    → read_digits base val (digit_char d ∷ s) ≡ read_digits base val' s
unfolding read_digits
read_digit base val d val' s a b e c =
    let go : leb base d ≡ false = ground arith in
    let fits : wrap64 val' ≡ val' = omega (arith, c) in
    rw (digit_value-digit_char d a, read_digits) (rw go (rw e (rw fits refl)))

-- The digits of a number are read as the number.
read_digits-digits :
    (fuel num base : ℕ) (s : List ℕ)
    → 2 ≤ base
    → base ≤ 16
    → num < fuel
    → num < 2 ^ 64
    → read_digits base 0 (digits fuel num base ++ s) ≡ read_digits base num s
unfolding digits
read_digits-digits zero num base s a b f h = absurd (omega (arith, f))
read_digits-digits (suc fuel) num base s a b f h = elim (Bool-cases (leb base num)) [
  | inl e ↦ rw e (
      ap (read_digits base 0) (append_assoc (digits fuel (num / base) base) _ s)
      ∙ read_digits-digits fuel (num / base) base (digit_char (num % base) ∷ s) a b
          (div-lt num base fuel a (ground (arith, e)) f) (grind (arith, h, a))
      ∙ read_digit base (num / base) (num % base) num s (grind (arith, a, b)) (grind (arith, a))
          (grind (arith, a)) h)
  | inr e ↦
      let small : num % base ≡ num = grind (arith, e) in
      rw e (
        rw small
          (read_digit base 0 num num s (ground (arith, e, b)) (ground (arith, e)) (omega arith) h))
]

skip_blanks-blanks : (k : ℕ) (s : List ℕ) → skip_blanks (replicate k b' ' ++ s) ≡ skip_blanks s
unfolding skip_blanks
skip_blanks-blanks zero s = refl
skip_blanks-blanks (suc k) s = skip_blanks-blanks k s

replicate-Digits : (k : ℕ) (xs : List ℕ) → Digits xs → Digits (replicate k b'0' ++ xs)
unfolding digit_char
replicate-Digits zero xs d = d
replicate-Digits (suc k) xs d = ((0, omega arith, refl), replicate-Digits k xs d)

read_digits-zeros :
    (base k : ℕ) (s : List ℕ)
    → 2 ≤ base
    → read_digits base 0 (replicate k b'0' ++ s) ≡ read_digits base 0 s
unfolding digit_char
read_digits-zeros base zero s a = refl
read_digits-zeros base (suc k) s a =
    read_digit base 0 0 0 (replicate k b'0' ++ s) (omega arith) (omega (arith, a)) (omega arith)
      (omega arith)
    ∙ read_digits-zeros base k s a

-- A digit in front: no blank, no sign.
front_plain :
    (d : ℕ)
    → d < 16
    → (is_blank (digit_char d) ≡ false)
      × ((digit_char d == b'+') ≡ false)
      × ((digit_char d == b'-') ≡ false)
      × ((digit_char d == b'x') ≡ false)
unfolding digit_char
front_plain d h = (ground arith, ground arith, ground arith, ground arith)

not_hex : (c : ℕ) (cs s : List ℕ) → Digits (c ∷ cs) → Stops s → hex_prefix ((c ∷ cs) ++ s) ≡ false
unfolding digit_value
not_hex c [] [] d h = refl
not_hex c [] (x ∷ xs) d h = ground (arith, h)
not_hex c (x ∷ xs) s d h = ground (arith, front_plain d.1.0.0 d.1.0.1, d.1.0.2)

-- A text that begins with digits is read from there on.
strtol-Digits :
    (c : ℕ) (cs s : List ℕ) (base : ℕ)
    → Digits (c ∷ cs)
    → Stops s
    → 2 ≤ base
    → strtol ((c ∷ cs) ++ s) base ≡ read_digits base 0 ((c ∷ cs) ++ s)
unfolding strtol skip_blanks read_prefix
strtol-Digits c cs s base d h a =
    let (x, lt, e) = d.0 in
    let (blank, plus, minus, hex) = front_plain x lt in
    let nb : is_blank c ≡ false = rw e blank in
    let np : (c == b'+') ≡ false = rw e plus in
    let nm : (c == b'-') ≡ false = rw e minus in
    let z : (base == 0) ≡ false = ground arith in
    rw nb (
      rw np (
        rw nm (
          rw z (elim (Bool-cases (base == 16)) [
            | inl b ↦ rw b (rw (not_hex c cs s d h) refl)
            | inr b ↦ rw b refl
          ]))))

strtol-blanks :
    (k : ℕ) (s : List ℕ) (base : ℕ) → strtol (replicate k b' ' ++ s) base ≡ strtol s base
unfolding strtol
strtol-blanks k s base = rw (skip_blanks-blanks k s) refl

append_cons : (xs : List ℕ) (x : ℕ) → (c : ℕ) × (cs : List ℕ) × (xs ++ (x ∷ []) ≡ c ∷ cs)
append_cons [] x = (x, [], refl)
append_cons (y ∷ ys) x = (y, ys ++ (x ∷ []), refl)

digits_cons :
    (fuel num base : ℕ) → 0 < fuel → (c : ℕ) × (cs : List ℕ) × (digits fuel num base ≡ c ∷ cs)
unfolding digits
digits_cons zero num base h = absurd (omega (arith, h))
digits_cons (suc fuel) num base h = elim (Bool-cases (leb base num)) [
  | inl e ↦ rw e (append_cons (digits fuel (num / base) base) (digit_char (num % base)))
  | inr e ↦ rw e (digit_char (num % base), [], refl)
]

zeros_cons :
    (k : ℕ) (xs : List ℕ)
    → (c : ℕ) × (cs : List ℕ) × (xs ≡ c ∷ cs)
    → (c : ℕ) × (cs : List ℕ) × (replicate k b'0' ++ xs ≡ c ∷ cs)
zeros_cons zero xs h = h
zeros_cons (suc k) xs h = (b'0', replicate k b'0' ++ xs, refl)

strtol-front :
    (xs s : List ℕ) (base : ℕ)
    → Digits xs
    → ((c : ℕ) × (cs : List ℕ) × (xs ≡ c ∷ cs))
    → Stops s
    → 2 ≤ base
    → strtol (xs ++ s) base ≡ read_digits base 0 (xs ++ s)
strtol-front [] s base d (c, cs, e) h a = absurd (ground (arith, e))
strtol-front (x ∷ xs) s base d n h a = strtol-Digits x xs s base d h a

module _ (fuel num base : ℕ) (s : List ℕ) (a : 2 ≤ base) (b : base ≤ 16) (f : num < fuel)
    (h : num < 2 ^ 64) (stops : Stops s) where
  strtol-digits : strtol (digits fuel num base ++ s) base ≡ (num, s)
  strtol-digits =
      strtol-front (digits fuel num base) s base (digits-Digits fuel num base a b)
        (digits_cons fuel num base (omega (arith, f))) stops a
      ∙ read_digits-digits fuel num base s a b f h
      ∙ read_digits-Stops base num s stops

  strtol-zeros : (k : ℕ) → strtol ((replicate k b'0' ++ digits fuel num base) ++ s) base ≡ (num, s)
  strtol-zeros k =
      strtol-front (replicate k b'0' ++ digits fuel num base) s base
        (replicate-Digits k (digits fuel num base) (digits-Digits fuel num base a b))
        (zeros_cons k (digits fuel num base) (digits_cons fuel num base (omega (arith, f)))) stops a
      ∙ ap (read_digits base 0) (append_assoc (replicate k b'0') (digits fuel num base) s)
      ∙ read_digits-zeros base k (digits fuel num base ++ s) a
      ∙ read_digits-digits fuel num base s a b f h
      ∙ read_digits-Stops base num s stops

  strtol-padded :
      (k padc : ℕ)
      → (padc ≡ b' ') ⊎ (padc ≡ b'0')
      → strtol ((replicate k padc ++ digits fuel num base) ++ s) base ≡ (num, s)
  strtol-padded k padc (inl p) = rw p (
      ap (λ t. strtol t base) (append_assoc (replicate k b' ') (digits fuel num base) s)
      ∙ strtol-blanks k (digits fuel num base ++ s) base
      ∙ strtol-digits)
  strtol-padded k padc (inr p) = rw p (strtol-zeros k)

  -- For a base from 2 to 16, a number below 2^64 and below the fuel, any width, blanks or zeros as
  -- padding, and behind the number a text that is empty or begins with no digit or letter: printnum
  -- prints, and strtol in that base reads the number from what is printed and stops right behind it.
  pub strtol-printnum :
      (width padc : ℕ)
      → (padc ≡ b' ') ⊎ (padc ≡ b'0')
      → (out : List ℕ) × (printnum fuel num base width padc ≡ some out)
        × (strtol (out ++ s) base ≡ (num, s))
  strtol-printnum width padc pads =
      let (k, e) = printnum-digits fuel num base width padc a f in
      (replicate k padc ++ digits fuel num base, e, strtol-padded k padc pads)
