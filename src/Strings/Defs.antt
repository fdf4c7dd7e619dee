-- ===== src/Strings/Defs.antt =====
-- libs/string.c: strlen to strfind but strncmp over a store of bytes. (The versions of
-- `__HAVE_ARCH_…` are not defined for this architecture.) A pointer is an address that does not
-- wrap; a loop that ends only at a null byte takes fuel, one round for each byte, and is `none` when
-- it runs out.
use oscmp.Base.{
  ℕ, zero, suc, ◌+◌, not, ◌&&◌, Option, none, some, ◌==◌, if◌then◌else◌, ◌>>=◌, update,
}
use oscmp.Memory.{Bytes}

unfoldable pub strlen_from : ℕ → Bytes → ℕ → ℕ → Option ℕ
strlen_from zero mem s cnt = none
strlen_from (suc fuel) mem s cnt =
    let rest = strlen_from fuel mem (s + 1) (cnt + 1) in if mem s == 0 then some cnt else rest

abbrev pub strlen : ℕ → Bytes → ℕ → Option ℕ
strlen fuel mem s = strlen_from fuel mem s 0

-- The third argument is `len - cnt`.
unfoldable pub strnlen_from : Bytes → ℕ → ℕ → ℕ → ℕ
strnlen_from mem s zero cnt = cnt
strnlen_from mem s (suc left) cnt =
    let rest = strnlen_from mem (s + 1) left (cnt + 1) in if mem s == 0 then cnt else rest

abbrev pub strnlen : Bytes → ℕ → ℕ → ℕ
strnlen mem s len = strnlen_from mem s len 0

unfoldable pub strcpy : ℕ → Bytes → ℕ → ℕ → Option Bytes
strcpy zero mem dst src = none
strcpy (suc fuel) mem dst src =
    let copied = update mem dst (mem src) in
    let rest = strcpy fuel copied (dst + 1) (src + 1) in if mem src == 0 then some copied else rest

unfoldable pub strncpy : Bytes → ℕ → ℕ → ℕ → Bytes
strncpy mem dst src zero = mem
strncpy mem dst src (suc len) =
    strncpy (update mem dst (mem src)) (dst + 1) (if mem src == 0 then src else src + 1) len

unfoldable pub strcat : ℕ → Bytes → ℕ → ℕ → Option Bytes
strcat fuel mem dst src = strlen fuel mem dst >>= λ n. strcpy fuel mem (dst + n) src

-- The two bytes whose difference is returned.
unfoldable pub strcmp : ℕ → Bytes → ℕ → ℕ → Option (ℕ × ℕ)
strcmp zero mem s1 s2 = none
strcmp (suc fuel) mem s1 s2 =
    let rest = strcmp fuel mem (s1 + 1) (s2 + 1) in
    if not (mem s1 == 0) && mem s1 == mem s2 then rest else some (mem s1, mem s2)

-- `none` inside is NULL.
unfoldable pub strchr : ℕ → Bytes → ℕ → ℕ → Option (Option ℕ)
strchr zero mem s c = none
strchr (suc fuel) mem s c =
    let rest = strchr fuel mem (s + 1) c in
    if mem s == 0 then some none else if mem s == c then some (some s) else rest

unfoldable pub strfind : ℕ → Bytes → ℕ → ℕ → Option ℕ
strfind zero mem s c = none
strfind (suc fuel) mem s c =
    let rest = strfind fuel mem (s + 1) c in
    if mem s == 0 then some s else if mem s == c then some s else rest
