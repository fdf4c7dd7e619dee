-- ===== src/Bitmap/Bits.antt =====
-- The bits of a word of kern/fs/sfs/bitmap.c.
use oscmp.Base.{
  ℕ, zero, suc, ◌+◌, ◌-◌, ◌*◌, ◌/◌, ◌%◌, ◌^◌, ◌<◌, ◌≤◌, ◌≡◌, refl, sym, ap, ◌∙◌, ltb, true, ◌==◌,
  arith, Bool-cases, inl, inr, ◌⊎◌, ◌≢◌, some, none, List, [], ◌∷◌, get_elem?,
}
use native.Mathlib.Nat.{div-eq-sub-div, div-eq_of_lt, div-div-eq-div-mul, pow-suc, div-one}
use mathlib.Core.Path.{subst}
use oscmp.Bitmap.Defs.{bit, first_bit, first_word}

-- Taking a bit that is set away leaves it clear, and adding it gives the word back.
pub take_bit : (w m : ℕ) → 0 < m → w / m % 2 ≡ 1 → (m ≤ w) × ((w - m) / m % 2 ≡ 0)
take_bit w m pos h =
    let le : m ≤ w = elim (Bool-cases (ltb w m)) [
      | inl z ↦ let e : w / m ≡ 0 = div-eq_of_lt (ground (arith, z)) in absurd (omega arith)
      | inr z ↦ ground (arith, z)
    ] in
    let e : w / m ≡ (w - m) / m + 1 = div-eq-sub-div pos le in (le, omega arith)

half : (w o : ℕ) → w / 2 ^ (o + 1) ≡ w / 2 ^ o / 2
half w o =
    let p : 2 ^ (o + 1) ≡ 2 ^ o * 2 = ap (λ k. 2 ^ k) (suc_add o) ∙ pow-suc 2 o in
    rw p (sym (div-div-eq-div-mul w (2 ^ o) 2))
  where
    suc_add : (o : ℕ) → o + 1 ≡ suc o
    suc_add o = omega arith

pub pow_pos : (o : ℕ) → 0 < 2 ^ o
pow_pos zero = omega arith
pow_pos (suc o) = let p = pow-suc 2 o in let q = pow_pos o in omega arith

-- The search finds a set bit, or none is left from bit `o` up.
first_bit_lem :
    (left o w : ℕ)
    → w < 2 ^ (o + left)
    → ((j : ℕ) × (first_bit left o w ≡ some j) × (j < o + left) × (bit w j ≡ true))
      ⊎ (w / 2 ^ o ≡ 0)
unfolding first_bit
first_bit_lem zero o w h =
    let p : o + 0 ≡ o = omega arith in
    let h' : w < 2 ^ o = subst (λ k. w < 2 ^ k) p h in inr (div-eq_of_lt h')
first_bit_lem (suc left) o w h = elim (Bool-cases (bit w o)) [
  | inl z ↦ inl (o, rw z refl, omega arith, z)
  | inr z ↦
      let p : o + suc left ≡ o + 1 + left = omega arith in
      elim (first_bit_lem left (o + 1) w (subst (λ k. w < 2 ^ k) p h)) [
        | inl (j, e, lt, y) ↦ inl (j, rw z e, omega arith, y)
        | inr e ↦
            let q = half w o in let z' : w / 2 ^ o % 2 ≢ 1 = ground (arith, z) in inr (omega arith)
      ]
]

abbrev pub AllWords : List ℕ → Type 0
AllWords [] = Unit
AllWords (w ∷ ws) = (w < 2 ^ 32) × AllWords ws

abbrev pub AllZero : List ℕ → Type 0
AllZero [] = Unit
AllZero (w ∷ ws) = (w ≡ 0) × AllZero ws

-- The search finds a set bit of the map, or all words are 0.
pub first_word_lem :
    (ix : ℕ) (ws : List ℕ)
    → AllWords ws
    → ((first_word ix ws ≡ some none) × AllZero ws)
      ⊎ ((i : ℕ) × (o : ℕ) × (w : ℕ) × (first_word ix ws ≡ some (some (ix + i, o)))
          × (get_elem? ws i ≡ some w)
          × (o < 32)
          × (bit w o ≡ true))
unfolding first_word
first_word_lem ix [] h = inl (refl, tt)
first_word_lem ix (w ∷ ws) h = elim (Bool-cases (w == 0)) [
  | inl z ↦ elim (first_word_lem (ix + 1) ws h.1) [
    | inl (e, all) ↦ inl (rw z e, (ground (arith, z), all))
    | inr (i, o, v, e, p, lt, y) ↦
        let q : ix + 1 + i ≡ ix + suc i = omega arith in
        inr (suc i, o, v, rw (z, e, q) refl, p, lt, y)
  ]
  | inr z ↦ elim (first_bit_lem 32 0 w h.0) [
    | inl (j, e, lt, y) ↦
        let q : ix + 0 ≡ ix = omega arith in inr (0, j, w, rw (z, e, q) refl, refl, lt, y)
    | inr e ↦ absurd (ground (arith, z, sym (div-one w) ∙ e))
  ]
]
