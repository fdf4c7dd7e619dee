-- ===== src/Bitmap/Defs.antt =====
-- kern/fs/sfs/bitmap.c. A set bit is a free block. A word is a number below 2 ^ 32; `bit w o` is
-- `w & (1 << o)` as a test, and `^` and `|` with this mask add or take away 2 ^ o. A failed assertion
-- is `none`. Memory is always given (`kmalloc` does not fail). `WORD_BITS` has 64 bits, so that sums
-- with it do not wrap.
use oscmp.Base.{
  ℕ, zero, suc, ◌+◌, ◌-◌, ◌*◌, ◌/◌, ◌%◌, ◌^◌, Bool, not, ◌&&◌, Option, none, some, List, [], ◌∷◌,
  ltb, ◌==◌, if◌then◌else◌, assert, ◌>>=◌, get_elem?, set, replicate,
}

abbrev pub word_bits : ℕ
word_bits = 32

-- `struct bitmap`
pub record Bitmap : Type 0 where
  pub nbits : ℕ
  pub nwords : ℕ
  pub map : List ℕ

abbrev pub bit : ℕ → ℕ → Bool
bit w o = w / 2 ^ o % 2 == 1

-- `w ^ (1 << o)`
abbrev pub flip : ℕ → ℕ → ℕ
flip w o = if bit w o then w - 2 ^ o else w + 2 ^ o

-- The bits from `over` up, of `left` bits, are flipped.
unfoldable pub clear_over : ℕ → ℕ → ℕ → ℕ
clear_over zero over w = w
clear_over (suc left) over w = clear_over left (over + 1) (flip w over)

unfoldable pub bitmap_create : ℕ → Option Bitmap
bitmap_create nbits =
    let nwords = (nbits + word_bits - 1) / word_bits in
    let ix = nwords - 1 in
    let over = nbits - ix * word_bits in
    let full : List ℕ = replicate nwords (2 ^ 32 - 1) in
    assert (not (nbits == 0) && ltb nbits (nbits + word_bits)) (
      if nbits == nwords * word_bits
      then some (record { nbits = nbits; nwords = nwords; map = full })
      else assert (nbits / word_bits == ix && ltb 0 over && ltb over word_bits) (
          get_elem? full ix >>= λ w. some (record {
            nbits = nbits;
            nwords = nwords;
            map = set full ix (clear_over (word_bits - over) over w);
          })))

-- The loop over `offset`, with `left` bits to go.
unfoldable pub first_bit : ℕ → ℕ → ℕ → Option ℕ
first_bit zero o w = none
first_bit (suc left) o w = if bit w o then some o else first_bit left (o + 1) w

-- The loop over `ix`: the word and the bit of it, `none` inside for no free bit.
unfoldable pub first_word : ℕ → List ℕ → Option (Option (ℕ × ℕ))
first_word ix [] = some none
first_word ix (w ∷ ws) =
    if w == 0
    then first_word (ix + 1) ws
    else (first_bit word_bits 0 w >>= λ o. some (some (ix, o)))

-- The index, or `none` inside for -E_NO_MEM.
abbrev pub alloc_found : Option (ℕ × ℕ) → Bitmap → Option (Option ℕ × Bitmap)
alloc_found none b = some (none, b)
alloc_found (some (ix, o)) b = get_elem? b.map ix >>= λ w.
    some (some (ix * word_bits + o), record b { map = set b.map ix (flip w o) })

unfoldable pub bitmap_alloc : Bitmap → Option (Option ℕ × Bitmap)
bitmap_alloc b = first_word 0 b.map >>= λ r. alloc_found r b

-- The word, with the number of the word and of the bit.
unfoldable pub bitmap_translate : Bitmap → ℕ → Option (ℕ × ℕ × ℕ)
bitmap_translate b index =
    assert (ltb index b.nbits)
      (get_elem? b.map (index / word_bits) >>= λ w. some (w, index / word_bits, index % word_bits))

unfoldable pub bitmap_test : Bitmap → ℕ → Option Bool
bitmap_test b index = bitmap_translate b index >>= λ r. some (bit r.0 r.2)

unfoldable pub bitmap_free : Bitmap → ℕ → Option Bitmap
bitmap_free b index = bitmap_translate b index >>= λ r.
    assert (not (bit r.0 r.2)) (some (record b { map = set b.map r.1 (r.0 + 2 ^ r.2) }))
