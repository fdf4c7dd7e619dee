-- ===== src/Swap/Tests.antt =====
-- A queue of three pages, of which the second cannot be written.
use oscmp.Base.{ℕ, ◌*◌, ◌==◌, ◌≡◌, some, [], ◌∷◌, if◌then◌else◌, refl, arith}
use oscmp.Swap.Defs.{Swap, swap_out}
use oscmp.Swap.Fifo.{Holds, swap_out-rounds}

abbrev address : ℕ → ℕ
address x = 4096 * x

abbrev writes : ℕ → ℕ → ℕ
writes entry page = if page == 2 then 1 else 0

abbrev three : Swap
three = record {
  links = record {
    prev = λ i. if i == 9 then 3 else if i == 1 then 9 else if i == 2 then 1 else 2;
    next = λ i. if i == 9 then 1 else if i == 1 then 2 else if i == 2 then 3 else 9;
  };
  sm_priv = 9;
  pra_vaddr = address;
  pte = λ v. 1;
  freed = [];
}

three-Holds : Holds writes address three (1 ∷ 2 ∷ 3 ∷ [])
three-Holds = record {
  queue = record { chain = omega arith; distinct = omega arith };
  mapped = (refl, (refl, (refl, tt)));
  apart = omega arith;
  head = ground arith;
  addresses = refl;
}

swap_out-rounds_example :
    (s' : Swap) × (swap_out writes 2 0 three ≡ some s')
    × Holds writes address s' (3 ∷ 2 ∷ [])
    × (s'.freed ≡ 1 ∷ [])
swap_out-rounds_example =
    swap_out-rounds writes address 2 three (1 ∷ 2 ∷ 3 ∷ []) three-Holds (omega arith)
