-- ===== src/Format/Defs.antt =====
-- printnum of libs/printfmt.c, strtol of libs/string.c, and libs/rand.c. A text is the list of its
-- characters up to the null byte. A `long` is its bit pattern of 64 bits.
use oscmp.Base.{
  ℕ, zero, suc, ◌+◌, ◌-◌, ◌*◌, ◌/◌, ◌%◌, ◌^◌, Bool, true, false, ◌&&◌, ◌||◌, Option, none, some,
  List, [], ◌∷◌, ◌++◌, ltb, leb, ◌==◌, if◌then◌else◌, replicate,
}

-- `"0123456789abcdef"[mod]`
unfoldable pub digit_char : ℕ → ℕ
digit_char d = if ltb d 10 then d + b'0' else d - 10 + b'a'

-- What printnum gives to `putch`, in order. The fuel bounds the depth; `none` is too little of it. A
-- width below 1 pads nothing, so that it may be read as 0.
unfoldable pub printnum : ℕ → ℕ → ℕ → ℕ → ℕ → Option (List ℕ)
printnum zero num base width padc = none
printnum (suc fuel) num base width padc =
    let above = printnum fuel (num / base) base (width - 1) padc in
    let last = digit_char (num % base) ∷ [] in
    if leb base num
    then (elim above [ none ↦ none | some out ↦ some (out ++ last) ])
    else some (replicate (width - 1) padc ++ last)

-- The value of a digit or letter.
unfoldable pub digit_value : ℕ → Option ℕ
digit_value c =
    if leb b'0' c && leb c b'9'
    then some (c - b'0')
    else if leb b'a' c && leb c b'z'
    then some (c - b'a' + 10)
    else if leb b'A' c && leb c b'Z'
    then some (c - b'A' + 10)
    else none

abbrev pub wrap64 : ℕ → ℕ
wrap64 n = n % 2 ^ 64

-- The loop over the digits: the value, and what is left of the text.
unfoldable pub read_digits : ℕ → ℕ → List ℕ → ℕ × List ℕ
read_digits base val [] = (val, [])
read_digits base val (c ∷ cs) = elim (digit_value c) [
  | none ↦ (val, c ∷ cs)
  | some dig ↦
      if leb base dig then (val, c ∷ cs) else read_digits base (wrap64 (val * base + dig)) cs
]

abbrev pub is_blank : ℕ → Bool
is_blank c = c == b' ' || c == 9

unfoldable pub skip_blanks : List ℕ → List ℕ
skip_blanks [] = []
skip_blanks (c ∷ cs) = if is_blank c then skip_blanks cs else c ∷ cs

-- The sign: whether there is a minus, and the text behind it.
abbrev pub read_sign : List ℕ → Bool × List ℕ
read_sign [] = (false, [])
read_sign (c ∷ cs) =
    if c == b'+' then (false, cs) else if c == b'-' then (true, cs) else (false, c ∷ cs)

-- `s[0] == '0' && s[1] == 'x'`
abbrev pub hex_prefix : List ℕ → Bool
hex_prefix (c ∷ d ∷ cs) = c == b'0' && d == b'x'
hex_prefix _ = false

abbrev pub octal_prefix : List ℕ → Bool
octal_prefix (c ∷ cs) = c == b'0'
octal_prefix [] = false

abbrev pub rest : List ℕ → List ℕ
rest [] = []
rest (c ∷ cs) = cs

-- The base, and the text behind its prefix.
unfoldable pub read_prefix : ℕ → List ℕ → ℕ × List ℕ
read_prefix base s =
    if (base == 0 || base == 16) && hex_prefix s
    then (16, rest (rest s))
    else if base == 0 && octal_prefix s
    then (8, rest s)
    else if base == 0
    then (10, s)
    else (base, s)

abbrev pub signed : Bool → ℕ × List ℕ → ℕ × List ℕ
signed neg (val, s) = (if neg then wrap64 (2 ^ 64 - val) else val, s)

-- The value, and the text at `*endptr`.
unfoldable pub strtol : List ℕ → ℕ → ℕ × List ℕ
strtol s base =
    let (neg, t) = read_sign (skip_blanks s) in
    let (b, u) = read_prefix base t in signed neg (read_digits b 0 u)

abbrev pub rand_max : ℕ
rand_max = 2147483647

-- `rand`: the number, and `next`. `srand` sets `next` to the seed.
unfoldable pub rand : ℕ → ℕ × ℕ
rand next =
    let next' = wrap64 (next * 0x5DEECE66D + 0xB) % 2 ^ 48 in
    (next' / 2 ^ 12 % (rand_max + 1), next')
