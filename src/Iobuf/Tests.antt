-- ===== src/Iobuf/Tests.antt =====
-- A transfer between a buffer and memory at concrete addresses.
use oscmp.Base.{ℕ, ◌+◌, ◌-◌, ◌≡◌, true, some, leb, ltb, ◌&&◌, if◌then◌else◌, arith}
use oscmp.Memory.{Bytes}
use oscmp.Iobuf.Defs.{Iobuf, Moved, iobuf_move}
use oscmp.Iobuf.Move.{Accounts, iobuf_move-Accounts}

abbrev numbered : Bytes
numbered k = k

-- Three of eight bytes are left.
abbrev buffer : Iobuf
buffer = record { io_base = 105; io_offset = 25; io_len = 8; io_resid = 3 }

iobuf_move-Accounts_example :
    (r : Moved) × (iobuf_move numbered buffer 200 4 true ≡ some r)
    × (r.copied ≡ 3)
    × Accounts buffer r.copied r.iob
    × (r.ret ≡ 4)
    × ((k : ℕ) → r.mem k ≡ (if leb 105 k && ltb k (105 + r.copied) then 200 + (k - 105) else k))
iobuf_move-Accounts_example =
    iobuf_move-Accounts numbered buffer 200 4 true (record { fits = omega arith })
