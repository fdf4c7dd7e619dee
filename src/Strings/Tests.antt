-- ===== src/Strings/Tests.antt =====
-- The strings "ab" at 10 and "abc" at 20, with nothing else in memory.
use oscmp.Base.{◌==◌, if◌then◌else◌, arith}
use oscmp.Memory.{Bytes}
use oscmp.Strings.Scan.{IsString}

abbrev memory : Bytes
memory k =
    if k == 10
    then 97
    else if k == 11
    then 98
    else if k == 20
    then 97
    else if k == 21
    then 98
    else if k == 22
    then 99
    else 0

ab-IsString : IsString memory 10 2
ab-IsString = record { ends = ground arith; runs = λ k lt z. ground arith }

abc-IsString : IsString memory 20 3
abc-IsString = record { ends = ground arith; runs = λ k lt z. ground arith }
