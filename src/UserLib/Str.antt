-- ===== src/UserLib/Str.antt =====
-- user/lib/string.c, where it differs from kern/lib/string.c (cs.KernLib.Str). A string argument
-- is the list of bytes from the pointer to the end of its object; `none` is a read behind that
-- end. A function that writes a string gets the memory and the address to write to.
pub mod Copy
use cs.Prelude.{
  ℕ, zero, suc, ◌+◌, ◌-◌, ◌*◌, ◌%◌, ◌^◌, Bool, true, false, not, ◌&&◌, ◌||◌, Option, none, some,
  List, [], ◌∷◌, ltb, leb, ◌==◌, if◌then◌else◌, update,
}
use cs.Prelude.Int.{ℤ, pos}
use cs.KernLib.Str as Kernel
use cs.KernLib.Str.{Memory, byte_diff}

-- The loop of `strlen`, with the count so far.
unfoldable pub strlen_loop : List ℕ → ℕ → Option ℕ
strlen_loop [] n = none
strlen_loop (x ∷ s) n = let rest = strlen_loop s (n + 1) in if x == 0 then some n else rest

unfoldable pub strlen : List ℕ → Option ℕ
unfolding strlen_loop
strlen s = strlen_loop s 0

unfoldable pub strcpy : ℕ → List ℕ → Memory → Option Memory
strcpy dst [] mem = none
strcpy dst (x ∷ src) mem =
    let rest = strcpy (dst + 1) src (update mem dst x) in
    if x == 0 then some (update mem dst x) else rest

-- The source stays at its 0, which pads what is left.
unfoldable pub strncpy : ℕ → List ℕ → ℕ → Memory → Option Memory
strncpy dst src zero mem = some mem
strncpy dst [] (suc size) mem = none
strncpy dst (x ∷ src) (suc size) mem =
    let pad = strncpy (dst + 1) (x ∷ src) size (update mem dst x) in
    let rest = strncpy (dst + 1) src size (update mem dst x) in if x == 0 then pad else rest

-- The loop of `strlcpy` and the 0 behind it; `size` is the value after `--size`. The result is
-- the memory, and where the 0 stands.
unfoldable pub strlcpy_loop : ℕ → List ℕ → ℕ → Memory → Option (Memory × ℕ)
strlcpy_loop dst src zero mem = some (update mem dst 0, dst)
strlcpy_loop dst [] (suc size) mem = none
strlcpy_loop dst (x ∷ src) (suc size) mem =
    let rest = strlcpy_loop (dst + 1) src size (update mem dst x) in
    if x == 0 then some (update mem dst 0, dst) else rest

-- The memory and the number of bytes before the 0.
unfoldable pub strlcpy : ℕ → List ℕ → ℕ → Memory → Option (Memory × ℕ)
unfolding strlcpy_loop
strlcpy dst src zero mem = some (mem, 0)
strlcpy dst src (suc size) mem = elim (strlcpy_loop dst src size mem) [
  | some (mem', end) ↦ some (mem', end - dst)
  | none ↦ none
]

-- The loop of `strfind`: the offset of the first `c`, or of the 0.
unfoldable pub strfind_from : ℕ → List ℕ → ℕ → Option ℕ
strfind_from i [] c = none
strfind_from i (x ∷ s) c =
    let rest = strfind_from (i + 1) s c in
    if x == 0 then some i else if x == c then some i else rest

unfoldable pub strfind : List ℕ → ℕ → Option ℕ
unfolding strfind_from
strfind s c = strfind_from 0 s c

unfoldable pub memcmp : List ℕ → List ℕ → ℕ → Option ℤ
memcmp s1 s2 zero = some (pos 0)
memcmp [] s2 (suc n) = none
memcmp (x ∷ s1) [] (suc n) = none
memcmp (x ∷ s1) (y ∷ s2) (suc n) =
    let rest = memcmp s1 s2 n in if not (x == y) then some (byte_diff x y) else rest

-- The loop of `memchr`: the offset of the first byte `c % 256`, or the null pointer.
unfoldable pub memchr_from : ℕ → List ℕ → ℕ → ℕ → Option (Option ℕ)
memchr_from i s c zero = some none
memchr_from i [] c (suc n) = none
memchr_from i (x ∷ s) c (suc n) =
    let rest = memchr_from (i + 1) s c n in if x == c % 256 then some (some i) else rest

unfoldable pub memchr : List ℕ → ℕ → ℕ → Option (Option ℕ)
unfolding memchr_from
memchr s c n = memchr_from 0 s c n

-- The functions that have the same code as in kern/lib/string.c.
unfoldable pub strnlen : List ℕ → ℕ → Option ℕ
strnlen s size = Kernel.strnlen s size

unfoldable pub strcmp : List ℕ → List ℕ → Option ℤ
strcmp p q = Kernel.strcmp p q

unfoldable pub strncmp : List ℕ → List ℕ → ℕ → Option ℤ
strncmp p q n = Kernel.strncmp p q n

unfoldable pub strchr : List ℕ → ℕ → Option (Option ℕ)
strchr s c = Kernel.strchr s c

unfoldable pub memset : ℕ → ℕ → ℕ → Memory → Memory
memset v c n mem = Kernel.memset v c n mem

unfoldable pub memmove : ℕ → ℕ → ℕ → Memory → Memory
memmove d s n mem = Kernel.memmove d s n mem

unfoldable pub memcpy : ℕ → ℕ → ℕ → Memory → Memory
memcpy d s n mem = Kernel.memcpy d s n mem
