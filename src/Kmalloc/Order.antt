-- ===== src/Kmalloc/Order.antt =====
-- `find_order` of kern/mm/kmalloc.c: the size of a big block.
use oscmp.Base.{ℕ, zero, suc, ◌*◌, ◌/◌, ◌^◌, ◌≡◌, ◌<◌, ◌≤◌, refl, true, false, some, ltb, arith}
use native.Mathlib.Nat.{pow-succ'}
use oscmp.Kmalloc.Defs.{find_order}

pub pow_pos : (k : ℕ) → 1 ≤ 2 ^ k
pow_pos zero = omega arith
pow_pos (suc k) = omega (arith, pow-succ' 2 k, pow_pos k)

-- Each halving rounds down, so that a size a little above a power of two has the order of the power.
pub find_order-short :
    (fuel k size : ℕ)
    → k < fuel
    → 4096 * 2 ^ k ≤ size
    → size < 4097 * 2 ^ k
    → find_order fuel size ≡ some k
unfolding find_order
find_order-short zero k size f l h = absurd (omega (arith, f))
find_order-short (suc fuel) zero size f l h =
    let small : ltb 4096 size ≡ false = ground (arith, h) in rw small refl
find_order-short (suc fuel) (suc k) size f l h =
    let twice = pow-succ' 2 k in
    let large : 4096 < size = omega (arith, l, twice, pow_pos k) in
    let test : ltb 4096 size ≡ true = ground (arith, large) in
    let half =
      find_order-short fuel k (size / 2) (omega (arith, f)) (omega (arith, l, twice))
        (omega (arith, h, twice)) in
    rw (test, half) refl
