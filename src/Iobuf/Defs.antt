-- ===== src/Iobuf/Defs.antt =====
-- kern/fs/iobuf.c and iobuf.h. Addresses and offsets do not wrap. A failed assertion is `none`.
use oscmp.Base.{ℕ, ◌+◌, ◌-◌, Bool, Option, some, ltb, leb, if◌then◌else◌, ◌==◌, assert, ◌>>=◌}
use oscmp.Memory.{Bytes, memmove, memset}

pub record Iobuf : Type 0 where
  pub io_base : ℕ
  pub io_offset : ℕ
  pub io_len : ℕ
  pub io_resid : ℕ

-- `iobuf_used`; the subtraction does not go below 0 in a valid buffer.
abbrev pub iobuf_used : Iobuf → ℕ
iobuf_used iob = iob.io_len - iob.io_resid

abbrev pub e_no_mem : ℕ
e_no_mem = 4

unfoldable pub iobuf_init : ℕ → ℕ → ℕ → Iobuf
iobuf_init base len offset = record {
  io_base = base;
  io_offset = offset;
  io_len = len;
  io_resid = len;
}

unfoldable pub iobuf_skip : Iobuf → ℕ → Option Iobuf
iobuf_skip iob n = assert (leb n iob.io_resid) (
    some (record iob {
      io_base = iob.io_base + n;
      io_offset = iob.io_offset + n;
      io_resid = iob.io_resid - n;
    }))

-- What a transfer returns: the error number that is negated in C (0 for success), the size copied,
-- the buffer and the memory.
pub record Moved : Type 0 where
  pub ret : ℕ
  pub copied : ℕ
  pub iob : Iobuf
  pub mem : Bytes

-- The common shape of the two transfers: `store` writes the memory where `alen > 0`.
transfer : Iobuf → ℕ → Bytes → (ℕ → Bytes) → Option Moved
transfer iob len mem store =
    let alen = if ltb len iob.io_resid then len else iob.io_resid in
    if alen == 0
    then some (record { ret = if len == 0 then 0 else e_no_mem; copied = 0; iob = iob; mem = mem })
    else iobuf_skip iob alen >>= λ iob'. some (record {
      ret = if len - alen == 0 then 0 else e_no_mem;
      copied = alen;
      iob = iob';
      mem = store alen;
    })

-- `m2b` moves from `data` into the buffer, else from the buffer into `data`.
unfoldable pub iobuf_move : Bytes → Iobuf → ℕ → ℕ → Bool → Option Moved
unfolding transfer
iobuf_move mem iob data_at len m2b = transfer iob len mem (λ alen.
    if m2b then memmove mem iob.io_base data_at alen else memmove mem data_at iob.io_base alen)

unfoldable pub iobuf_move_zeros : Bytes → Iobuf → ℕ → Option Moved
unfolding transfer
iobuf_move_zeros mem iob len = transfer iob len mem (λ alen. memset mem iob.io_base 0 alen)
