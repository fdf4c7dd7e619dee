-- ===== src/Memory/Tests.antt =====
-- The block functions on a memory where every byte is its own address.
use oscmp.Memory.Defs.{Bytes}

abbrev numbered : Bytes
numbered k = k
