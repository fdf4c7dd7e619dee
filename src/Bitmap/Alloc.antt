-- ===== src/Bitmap/Alloc.antt =====
-- bitmap_alloc, bitmap_test and bitmap_free of kern/fs/sfs/bitmap.c.
use oscmp.Base.{
  ℕ, zero, suc, ◌+◌, ◌-◌, ◌*◌, ◌/◌, ◌%◌, ◌^◌, ◌<◌, ◌≡◌, refl, ap, ltb, true, false, arith, inl, inr,
  ◌⊎◌, some, none, List, [], ◌∷◌, get_elem?, set,
}
use oscmp.Bitmap.Defs.{Bitmap, bit, bitmap_alloc, bitmap_translate, bitmap_test, bitmap_free}
use oscmp.Bitmap.Bits.{take_bit, pow_pos, AllWords, AllZero, first_word_lem}

set_found :
    (ws : List ℕ) (i w v : ℕ)
    → get_elem? ws i ≡ some w
    → (get_elem? (set ws i v) i ≡ some v) × (set (set ws i v) i w ≡ ws)
set_found [] i w v e = grind (arith, e)
set_found (x ∷ ws) zero w v e = let same : w ≡ x = grind (arith, e) in (refl, ap (λ y. y ∷ ws) same)
set_found (x ∷ ws) (suc i) w v e = let (p, q) = set_found ws i w v e in (p, ap (λ r. x ∷ r) q)

-- The state after bit `i` has been handed out.
pub record Allocated (b : Bitmap) (i : ℕ) (b' : Bitmap) : Type 0 where
  pub result : bitmap_alloc b ≡ some (some i, b')
  pub was_free : i < b.nbits → bitmap_test b i ≡ some true
  pub in_use : i < b.nbits → bitmap_test b' i ≡ some false
  pub back : i < b.nbits → bitmap_free b' i ≡ some b

-- On words of 32 bits `bitmap_alloc` fails no assertion: it either finds that all words are 0 and
-- reports that there is no free bit, with nothing changed, or hands out a bit. If this is one of the
-- bits of the map, then it was free, is in use now, and `bitmap_free` gives the map as it was.
pub bitmap_alloc-free :
    (b : Bitmap)
    → AllWords b.map
    → ((bitmap_alloc b ≡ some (none, b)) × AllZero b.map)
      ⊎ ((i : ℕ) × (b' : Bitmap) × Allocated b i b')
unfolding bitmap_alloc bitmap_translate bitmap_test bitmap_free
bitmap_alloc-free b h = elim (first_word_lem 0 b.map h) [
  | inl (e, all) ↦ inl (rw e refl, all)
  | inr (ix, o, w, e, p, lt, set_bit) ↦
      let m = 2 ^ o in
      let (le, clear) = take_bit w m (pow_pos o) (ground (arith, set_bit)) in
      let i = ix * 32 + o in
      let q : 0 + ix ≡ ix = omega arith in
      let word : i / 32 ≡ ix = omega arith in
      let offset : i % 32 ≡ o = omega arith in
      let (found, restored) = set_found b.map ix w (w - m) p in
      let off : bit (w - m) o ≡ false = ground (arith, clear) in
      let sum : w - m + m ≡ w = omega arith in
      let b' : Bitmap = record b { map = set b.map ix (w - m) } in
      inr (
        i,
        b',
        record {
          result = rw (e, q, p, set_bit) refl;
          was_free = λ l.
              let lt' : ltb i b.nbits ≡ true = ground (arith, l) in
              rw (lt', word, p, offset, set_bit) refl;
          in_use = λ l.
              let lt' : ltb i b.nbits ≡ true = ground (arith, l) in
              rw (lt', word, found, offset, off) refl;
          back = λ l.
              let lt' : ltb i b.nbits ≡ true = ground (arith, l) in
              rw (lt', word, found, offset, off, sum, restored) refl;
        },
      )
]
