-- ===== src/Kpu/Gather.antt =====
-- The loop of `add_kpu_task` that joins the blocks, in kern/fs/devs/kpu_spooling.c.
use oscmp.Base.{
  ℕ, zero, suc, ◌<◌, ◌≡◌, refl, sym, ap, Bool, true, false, Option, none, some, List, [], ◌∷◌, ◌++◌,
  leb, assert, ◌>>=◌, length, set, take, arith,
}
use mathlib.Core.List.{append-nil, append_assoc}
use oscmp.Kpu.Spool.{gather}

module _ {ℓ} {A : Type ℓ} where
  take-length : (xs : List A) → take (length xs) xs ≡ xs
  take-length [] = refl
  take-length (x ∷ xs) = ap (λ ys. x ∷ ys) (take-length xs)

-- A block that is written behind the first `n` comes last in what is joined.
pub gather-set :
    (n : ℕ) (bufs : List (List ℕ)) (lens : List ℕ) (b : List ℕ)
    → n < length bufs
    → n < length lens
    → gather (suc n) (set bufs n b) (set lens n (length b))
      ≡ (gather n bufs lens >>= λ joined. some (joined ++ b))
unfolding gather
gather-set n [] lens b h k = absurd (omega (arith, h))
gather-set n (x ∷ bufs) [] b h k = absurd (omega (arith, k))
gather-set zero (x ∷ bufs) (l ∷ lens) b h k =
    let whole : leb (length b) (length b) ≡ true = ground arith in
    rw (whole, take-length b, append-nil b) refl
gather-set (suc n) (x ∷ bufs) (l ∷ lens) b h k =
    rw (gather-set n bufs lens b (omega arith) (omega arith))
      (shift (leb l (length x)) (gather n bufs lens))
  where
    shift :
        (c : Bool) (g : Option (List ℕ))
        → assert c ((g >>= λ joined. some (joined ++ b)) >>= λ rest. some (take l x ++ rest))
          ≡ (assert c (g >>= λ rest. some (take l x ++ rest)) >>= λ joined. some (joined ++ b))
    shift false g = refl
    shift true none = refl
    shift true (some d) = ap some (sym (append_assoc (take l x) d b))
