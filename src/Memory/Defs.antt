-- ===== src/Memory/Defs.antt =====
-- libs/string.c: memset, memmove, memcpy and memcmp over a store of bytes. (The versions of
-- `__HAVE_ARCH_…` are not defined for this architecture.) A byte is a number below 256.
use oscmp.Base.{ℕ, zero, suc, ◌+◌, ◌-◌, ltb, ◌==◌, if◌then◌else◌, ◌&&◌, update, Option, none, some}

-- The bytes of memory by address.
abbrev pub Bytes : Type 0
Bytes = ℕ → ℕ

unfoldable pub memset : Bytes → ℕ → ℕ → ℕ → Bytes
memset mem s c zero = mem
memset mem s c (suc n) = memset (update mem s c) (s + 1) c n

-- `while (n -- > 0) { *d ++ = *s ++; }`
unfoldable pub memcpy : Bytes → ℕ → ℕ → ℕ → Bytes
memcpy mem d s zero = mem
memcpy mem d s (suc n) = memcpy (update mem d (mem s)) (d + 1) (s + 1) n

-- `while (n -- > 0) { *-- d = *-- s; }`, from the ends of both blocks.
unfoldable pub copy_down : Bytes → ℕ → ℕ → ℕ → Bytes
copy_down mem d s zero = mem
copy_down mem d s (suc n) = copy_down (update mem (d - 1) (mem (s - 1))) (d - 1) (s - 1) n

unfoldable pub memmove : Bytes → ℕ → ℕ → ℕ → Bytes
memmove mem dst src n =
    if ltb src dst && ltb dst (src + n)
    then copy_down mem (dst + n) (src + n) n
    else memcpy mem dst src n

-- The two bytes whose difference `memcmp` returns, or `none` for its result 0.
unfoldable pub memcmp : Bytes → ℕ → ℕ → ℕ → Option (ℕ × ℕ)
memcmp mem v1 v2 zero = none
memcmp mem v1 v2 (suc n) =
    let rest = memcmp mem (v1 + 1) (v2 + 1) n in
    if mem v1 == mem v2 then rest else some (mem v1, mem v2)
