-- ===== src/Format/Tests.antt =====
-- 0x2a in eight columns, before a line break.
use oscmp.Base.{ℕ, ◌≡◌, inr, some, List, [], ◌∷◌, ◌++◌, refl, arith}
use oscmp.Format.Defs.{digit_char, digit_value, printnum, strtol, rand}
use oscmp.Format.RoundTrip.{strtol-printnum}

strtol-printnum_example :
    (out : List ℕ) × (printnum 50 42 16 8 b'0' ≡ some out)
    × (strtol (out ++ (10 ∷ [])) 16 ≡ (42, 10 ∷ []))
unfolding digit_value
strtol-printnum_example =
    strtol-printnum 50 42 16 (10 ∷ []) (omega arith) (omega arith) (omega arith) (omega arith) refl
      8 b'0' (inr refl)

printed : printnum 50 42 16 4 b' ' ≡ some (b' ' ∷ b' ' ∷ b'2' ∷ b'a' ∷ [])
unfolding printnum digit_char
printed = refl

second_random : (rand (rand 1).1).0 ≡ 907315423
unfolding rand
second_random = refl
