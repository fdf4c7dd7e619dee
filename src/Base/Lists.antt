-- ===== src/Base/Lists.antt =====
-- C arrays and queues as lists measured and indexed by native numbers.
use Prim.Native.Nat.{ℕ, zero, suc, ◌+◌, ◌≤◌, ◌<◌}
use mathlib.Core.Path.{◌≡◌, refl, sym, ap}
use mathlib.Core.Logic.{◌≢◌, ◌⊎◌, inl, inr}
use mathlib.Core.List.{List, [], ◌∷◌, ◌++◌}
use mathlib.Core.Option.{Option, none, some}
use native.Mathlib.Omega.{arith}

module _ {ℓ} {A : Type ℓ} where
  abbrev pub length : List A → ℕ
  length [] = 0
  length (x ∷ xs) = suc (length xs)

  abbrev pub get_elem? : List A → ℕ → Option A
  get_elem? [] i = none
  get_elem? (x ∷ xs) zero = some x
  get_elem? (x ∷ xs) (suc i) = get_elem? xs i

  -- A write out of range changes nothing.
  abbrev pub set : List A → ℕ → A → List A
  set [] i v = []
  set (x ∷ xs) zero v = v ∷ xs
  set (x ∷ xs) (suc i) v = x ∷ set xs i v

  abbrev pub take : ℕ → List A → List A
  take zero xs = []
  take (suc n) [] = []
  take (suc n) (x ∷ xs) = x ∷ take n xs

  abbrev pub drop : ℕ → List A → List A
  drop zero xs = xs
  drop (suc n) [] = []
  drop (suc n) (x ∷ xs) = drop n xs

  abbrev pub replicate : ℕ → A → List A
  replicate zero a = []
  replicate (suc n) a = a ∷ replicate n a

module _ {ℓ} {A : Type ℓ} where
  pub length-append : (xs ys : List A) → length (xs ++ ys) ≡ length xs + length ys
  length-append [] ys = omega arith
  length-append (x ∷ xs) ys = omega (arith, length-append xs ys)

  pub length-set : (xs : List A) (i : ℕ) (v : A) → length (set xs i v) ≡ length xs
  length-set [] i v = refl
  length-set (x ∷ xs) zero v = refl
  length-set (x ∷ xs) (suc i) v = ap suc (length-set xs i v)

  pub get_elem?-set_self :
      (xs : List A) (i : ℕ) (v : A) → i < length xs → get_elem? (set xs i v) i ≡ some v
  get_elem?-set_self [] i v h = elim h [ ]
  get_elem?-set_self (x ∷ xs) zero v h = refl
  get_elem?-set_self (x ∷ xs) (suc i) v h = get_elem?-set_self xs i v (omega arith)

  pub get_elem?-set_ne :
      (xs : List A) (i j : ℕ) (v : A) → i ≢ j → get_elem? (set xs i v) j ≡ get_elem? xs j
  get_elem?-set_ne [] i j v h = refl
  get_elem?-set_ne (x ∷ xs) zero zero v h = absurd (h refl)
  get_elem?-set_ne (x ∷ xs) zero (suc j) v h = refl
  get_elem?-set_ne (x ∷ xs) (suc i) zero v h = refl
  get_elem?-set_ne (x ∷ xs) (suc i) (suc j) v h = get_elem?-set_ne xs i j v (λ e. h (ap suc e))

module _ {ℓ} {A : Type ℓ} where
  -- What stands in a list after a write, and was it written.
  pub get_elem?-set_cases :
      (xs : List A) (i j : ℕ) (v w : A)
      → get_elem? (set xs i v) j ≡ some w
      → ((i ≡ j) × (w ≡ v)) ⊎ ((i ≢ j) × (get_elem? xs j ≡ some w))
  get_elem?-set_cases [] i j v w h = ground (arith, h)
  get_elem?-set_cases (x ∷ xs) zero zero v w h = inl (refl, ground (arith, h))
  get_elem?-set_cases (x ∷ xs) zero (suc j) v w h = inr (ground arith, h)
  get_elem?-set_cases (x ∷ xs) (suc i) zero v w h = inr (ground arith, h)
  get_elem?-set_cases (x ∷ xs) (suc i) (suc j) v w h = elim (get_elem?-set_cases xs i j v w h) [
    | inl (e, f) ↦ inl (ap suc e, f)
    | inr (e, f) ↦ inr (ground arith, f)
  ]

-- A number of the list is counted, and stands in it, by these.
abbrev pub Fresh : ℕ → List ℕ → Type 0
Fresh n [] = Unit
Fresh n (x ∷ xs) = (n ≢ x) × Fresh n xs

abbrev pub Distinct : List ℕ → Type 0
Distinct [] = Unit
Distinct (x ∷ xs) = Fresh x xs × Distinct xs

pub Fresh-append : (n : ℕ) (xs ys : List ℕ) → Fresh n xs → Fresh n ys → Fresh n (xs ++ ys)
Fresh-append n [] ys f g = g
Fresh-append n (x ∷ xs) ys f g = (f.0, Fresh-append n xs ys f.1 g)

-- No number of the first list stands in the second.
abbrev pub Apart : List ℕ → List ℕ → Type 0
Apart [] ys = Unit
Apart (x ∷ xs) ys = Fresh x ys × Apart xs ys

pub Fresh-split : (n : ℕ) (xs ys : List ℕ) → Fresh n (xs ++ ys) → Fresh n xs × Fresh n ys
Fresh-split n [] ys f = (tt, f)
Fresh-split n (x ∷ xs) ys f = let (g, h) = Fresh-split n xs ys f.1 in ((f.0, g), h)

pub Distinct-split :
    (xs ys : List ℕ) → Distinct (xs ++ ys) → Distinct xs × Distinct ys × Apart xs ys
Distinct-split [] ys d = (tt, d, tt)
Distinct-split (x ∷ xs) ys d =
    let (dx, dy, ap) = Distinct-split xs ys d.1 in
    let (f, g) = Fresh-split x xs ys d.0 in ((f, dx), dy, (g, ap))

pub Distinct-append :
    (xs ys : List ℕ) → Distinct xs → Distinct ys → Apart xs ys → Distinct (xs ++ ys)
Distinct-append [] ys d e a = e
Distinct-append (x ∷ xs) ys d e a = (Fresh-append x xs ys d.0 a.0, Distinct-append xs ys d.1 e a.1)

pub Apart-cons : (xs : List ℕ) (y : ℕ) (ys : List ℕ) → Fresh y xs → Apart xs ys → Apart xs (y ∷ ys)
Apart-cons [] y ys f a = tt
Apart-cons (x ∷ xs) y ys f a = ((λ e. f.0 (sym e), a.0), Apart-cons xs y ys f.1 a.1)

pub Apart-head : (xs : List ℕ) (y : ℕ) (ys : List ℕ) → Apart xs (y ∷ ys) → Fresh y xs
Apart-head [] y ys a = tt
Apart-head (x ∷ xs) y ys a = (λ e. a.0.0 (sym e), Apart-head xs y ys a.1)

pub Apart-tail : (xs : List ℕ) (y : ℕ) (ys : List ℕ) → Apart xs (y ∷ ys) → Apart xs ys
Apart-tail [] y ys a = tt
Apart-tail (x ∷ xs) y ys a = (a.0.1, Apart-tail xs y ys a.1)

-- The sum of a weight over a list.
module _ {ℓ} {A : Type ℓ} (w : A → ℕ) where
  abbrev pub total : List A → ℕ
  total [] = 0
  total (x ∷ xs) = w x + total xs

  pub total-set :
      (xs : List A) (i : ℕ) (x y : A)
      → get_elem? xs i ≡ some x
      → total (set xs i y) + w x ≡ total xs + w y
  total-set [] i x y h = grind (arith, h)
  total-set (z ∷ xs) zero x y h = grind (arith, h)
  total-set (z ∷ xs) (suc i) x y h = omega (arith, total-set xs i x y h)

  pub le-total : (xs : List A) (i : ℕ) (x : A) → get_elem? xs i ≡ some x → w x ≤ total xs
  le-total [] i x h = ground (arith, h)
  le-total (z ∷ xs) zero x h = ground (arith, h)
  le-total (z ∷ xs) (suc i) x h = omega (arith, le-total xs i x h)

  pub total-replicate : (n : ℕ) (x : A) → w x ≡ 0 → total (replicate n x) ≡ 0
  total-replicate zero x h = refl
  total-replicate (suc n) x h = omega (arith, h, total-replicate n x h)

  pub total_pos :
      (xs : List A) → 0 < total xs → (i : ℕ) × (x : A) × (get_elem? xs i ≡ some x) × (0 < w x)
  total_pos [] h = absurd (omega (arith, h))
  total_pos (x ∷ xs) h = split (w x) refl (total_pos xs)
    where
      Found : List A → Type ℓ
      Found ys = (i : ℕ) × (y : A) × (get_elem? ys i ≡ some y) × (0 < w y)

      split : (n : ℕ) → w x ≡ n → (0 < total xs → Found xs) → Found (x ∷ xs)
      split zero e later = let (i, y, g, p) = later (omega (arith, h, e)) in (suc i, y, g, p)
      split (suc n) e later = (0, x, refl, omega (arith, e))
