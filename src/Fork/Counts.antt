-- ===== src/Fork/Counts.antt =====
-- The counts of inodes that do_fork of kern/process/proc.c takes and gives back.
use oscmp.Base.{
  ℕ, ◌+◌, ◌-◌, ◌==◌, ◌≡◌, refl, true, some, List, [], ◌∷◌, ltb, if◌then◌else◌, ◌>>=◌, update, arith,
}
use oscmp.Fork.Defs.{take_all, drop_all}

-- How often an inode stands in a list.
abbrev occ : ℕ → List ℕ → ℕ
occ i [] = 0
occ i (n ∷ ns) = (if n == i then 1 else 0) + occ i ns

pub take_all_lem : (ns : List ℕ) (f : ℕ → ℕ) (i : ℕ) → take_all ns f i ≡ f i + occ i ns
unfolding take_all
take_all_lem [] f i = omega arith
take_all_lem (n ∷ ns) f i = ground (arith, take_all_lem ns (update f n (f n + 1)) i)

pub drop_all_lem :
    (ns : List ℕ) (f g : ℕ → ℕ)
    → ((i : ℕ) → g i ≡ f i + occ i ns)
    → (h : ℕ → ℕ) × (drop_all ns g ≡ some h) × ((i : ℕ) → h i ≡ f i)
unfolding drop_all
drop_all_lem [] f g e = (g, refl, λ i. omega (arith, e i))
drop_all_lem (n ∷ ns) f g e =
    let has : ltb 0 (g n) ≡ true = ground (arith, e n) in
    rw has (drop_all_lem ns f (update g n (g n - 1)) (λ i. ground (arith, e i, e n)))

-- The inode of a working directory and of open entries that were taken are given back.
pub drop-take :
    (ps ns : List ℕ) (f : ℕ → ℕ)
    → (h : ℕ → ℕ) × ((drop_all ps (take_all ns (take_all ps f)) >>= drop_all ns) ≡ some h)
      × ((i : ℕ) → h i ≡ f i)
drop-take ps ns f =
    let (g, e, a) = drop_all_lem ps (take_all ns f) (take_all ns (take_all ps f)) (λ i.
      omega (arith, take_all_lem ns (take_all ps f) i, take_all_lem ps f i, take_all_lem ns f i)) in
    let (h, d, b) = drop_all_lem ns f g (λ i. omega (arith, a i, take_all_lem ns f i)) in
    (h, rw e d, b)
