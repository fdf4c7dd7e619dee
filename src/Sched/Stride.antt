-- ===== src/Sched/Stride.antt =====
-- kern/schedule/default_sched_stride.c: strides that wrap at 2^32 compare like the unbounded numbers
-- that they stand for, while these lie within `big_stride` of each other.
use oscmp.Base.{ℕ, ◌+◌, ◌%◌, ◌^◌, ◌≤◌, ◌≡◌, true, false, ltb, arith}
use oscmp.SkewHeap.{is_minus}
use oscmp.Sched.Defs.{Proc, big_stride, stride_sign, proc_stride_comp_f}

-- For two unbounded strides within one window of `big_stride`, the comparison of their 32-bit values
-- says -1 exactly if the first is less.
pub stride_sign-window :
    (base x y : ℕ)
    → base ≤ x
    → x ≤ base + big_stride
    → base ≤ y
    → y ≤ base + big_stride
    → (is_minus (stride_sign (x % 2 ^ 32) (y % 2 ^ 32)) ≡ ltb x y)
unfolding stride_sign
stride_sign-window base x y a b c d = ground arith

-- `g p` is the unbounded stride of process `p`; it lies in the window from `base`.
pub record InWindow (procs : ℕ → Proc) (g : ℕ → ℕ) (base p : ℕ) : Type 0 where
  pub low : base ≤ g p
  pub high : g p ≤ base + big_stride
  pub stride : (procs p).stride ≡ g p % 2 ^ 32

module _ (procs : ℕ → Proc) (g : ℕ → ℕ) (base : ℕ) where
  pub comp-window :
      (a b : ℕ)
      → InWindow procs g base a
      → InWindow procs g base b
      → is_minus (proc_stride_comp_f procs a b) ≡ ltb (g a) (g b)
  comp-window a b u v =
      rw (u.stride, v.stride) (stride_sign-window base (g a) (g b) u.low u.high v.low v.high)

  pub comp_total :
      (a b : ℕ)
      → InWindow procs g base a
      → InWindow procs g base b
      → is_minus (proc_stride_comp_f procs a b) ≡ true
      → is_minus (proc_stride_comp_f procs b a) ≡ false
  comp_total a b u v e = ground (arith, comp-window a b u v, comp-window b a v u)

  pub comp_trans :
      (a b c : ℕ)
      → InWindow procs g base a
      → InWindow procs g base b
      → InWindow procs g base c
      → is_minus (proc_stride_comp_f procs b a) ≡ false
      → is_minus (proc_stride_comp_f procs c b) ≡ false
      → is_minus (proc_stride_comp_f procs c a) ≡ false
  comp_trans a b c u v w d e =
      ground (arith, comp-window b a v u, comp-window c b w v, comp-window c a w u)
