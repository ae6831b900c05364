-- ===== src/KernLib/Str.antt =====
-- kern/lib/string.c. A string argument is the list of bytes from the pointer to the end of its
-- object; `none` is a read behind that end. Memory, for the functions that copy and fill, is a
-- function from the address; pointers to the inside of an object do not wrap.
pub mod Memory
pub mod Compare
use cs.Prelude.{
  ℕ, zero, suc, ◌+◌, ◌-◌, ◌*◌, ◌/◌, ◌%◌, Bool, true, false, not, ◌&&◌, Option, none, some, List, [],
  ◌∷◌, ltb, leb, ◌==◌, if◌then◌else◌, update,
}
use cs.Prelude.Int.{ℤ, pos, sub_ℕ}

abbrev pub Memory : Type 0
Memory = ℕ → ℕ

-- Words of memory, the lowest byte first.
abbrev pub load16 : Memory → ℕ → ℕ
load16 mem a = mem a + 256 * mem (a + 1)

abbrev pub load32 : Memory → ℕ → ℕ
load32 mem a = mem a + 256 * mem (a + 1) + 65536 * mem (a + 2) + 16777216 * mem (a + 3)

-- `rep stosb`: `n` bytes `b` from address `a` on.
unfoldable pub stosb : ℕ → ℕ → ℕ → Memory → Memory
stosb zero a b mem = mem
stosb (suc n) a b mem = stosb n (a + 1) b (update mem a b)

-- A 32-bit word stored in little-endian order.
unfoldable pub store32 : ℕ → ℕ → Memory → Memory
store32 a w mem =
    update
      (update (update (update mem a (w % 256)) (a + 1) (w / 256 % 256)) (a + 2) (w / 65536 % 256))
      (a + 3) (w / 16777216 % 256)

-- `rep stosl`: `n` words.
unfoldable pub stosl : ℕ → ℕ → ℕ → Memory → Memory
stosl zero a w mem = mem
stosl (suc n) a w mem = stosl n (a + 4) w (store32 a w mem)

-- `(c << 24) | (c << 16) | (c << 8) | c` for a byte `c`: the four fields do not meet.
abbrev pub spread : ℕ → ℕ
spread c = c * 16777216 + c * 65536 + c * 256 + c

unfoldable pub memset : ℕ → ℕ → ℕ → Memory → Memory
unfolding stosb stosl store32
memset v c n mem =
    if n == 0
    then mem
    else if (v % 4 == 0) && (n % 4 == 0)
    then stosl (n / 4) v (spread (c % 256)) mem
    else stosb n v (c % 256) mem

unfoldable pub memzero : ℕ → ℕ → Memory → Memory
unfolding memset
memzero v n mem = memset v 0 n mem

-- `rep movsb` upwards from `d` and `s`.
unfoldable pub movsb_up : ℕ → ℕ → ℕ → Memory → Memory
movsb_up zero d s mem = mem
movsb_up (suc n) d s mem = movsb_up n (d + 1) (s + 1) (update mem d (mem s))

-- `movsl`: the word at `s` is read, and then stored at `d`.
unfoldable pub copy_word : ℕ → ℕ → Memory → Memory
copy_word d s mem =
    update (update (update (update mem d (mem s)) (d + 1) (mem (s + 1))) (d + 2) (mem (s + 2)))
      (d + 3) (mem (s + 3))

unfoldable pub movsl_up : ℕ → ℕ → ℕ → Memory → Memory
movsl_up zero d s mem = mem
movsl_up (suc n) d s mem = movsl_up n (d + 4) (s + 4) (copy_word d s mem)

-- `rep movsb` downwards: `n` bytes, the last one at `d + n - 1` first.
unfoldable pub movsb_down : ℕ → ℕ → ℕ → Memory → Memory
movsb_down zero d s mem = mem
movsb_down (suc n) d s mem = movsb_down n d s (update mem (d + n) (mem (s + n)))

-- `rep movsl` downwards: `n` words, the last one at `d + 4 * n - 4` first.
unfoldable pub movsl_down : ℕ → ℕ → ℕ → Memory → Memory
movsl_down zero d s mem = mem
movsl_down (suc n) d s mem = movsl_down n d s (copy_word (d + 4 * n) (s + 4 * n) mem)

unfoldable pub memmove : ℕ → ℕ → ℕ → Memory → Memory
memmove d s n mem =
    if ltb s d && ltb d (s + n)
    then (if ((s + n) % 4 == 0) && (((d + n) % 4 == 0) && (n % 4 == 0))
        then movsl_down (n / 4) d s mem
        else movsb_down n d s mem)
    else (if (s % 4 == 0) && ((d % 4 == 0) && (n % 4 == 0))
        then movsl_up (n / 4) d s mem
        else movsb_up n d s mem)

unfoldable pub memcpy : ℕ → ℕ → ℕ → Memory → Memory
unfolding memmove
memcpy d s n mem = memmove d s n mem

-- The difference of two bytes as unsigned characters.
abbrev pub byte_diff : ℕ → ℕ → ℤ
byte_diff x y = sub_ℕ x y

unfoldable pub strncmp : List ℕ → List ℕ → ℕ → Option ℤ
strncmp p q zero = some (pos 0)
strncmp [] q (suc n) = none
strncmp (x ∷ p) [] (suc n) = none
strncmp (x ∷ p) (y ∷ q) (suc n) =
    let rest = strncmp p q n in if not (x == 0) && (x == y) then rest else some (byte_diff x y)

-- The loop of `strnlen`, with the count so far.
unfoldable pub strnlen_loop : ℕ → List ℕ → ℕ → Option ℕ
strnlen_loop zero s n = some n
strnlen_loop (suc size) [] n = none
strnlen_loop (suc size) (x ∷ s) n =
    let rest = strnlen_loop size s (n + 1) in if x == 0 then some n else rest

unfoldable pub strnlen : List ℕ → ℕ → Option ℕ
unfolding strnlen_loop
strnlen s size = strnlen_loop size s 0

unfoldable pub strcmp : List ℕ → List ℕ → Option ℤ
strcmp [] q = none
strcmp (x ∷ p) [] = none
strcmp (x ∷ p) (y ∷ q) =
    let rest = strcmp p q in if not (x == 0) && (x == y) then rest else some (byte_diff x y)

-- The loop of `strchr`: the offset of the first `c`, or the null pointer.
unfoldable pub strchr_from : ℕ → List ℕ → ℕ → Option (Option ℕ)
strchr_from i [] c = none
strchr_from i (x ∷ s) c =
    let rest = strchr_from (i + 1) s c in
    if x == 0 then some none else if x == c then some (some i) else rest

unfoldable pub strchr : List ℕ → ℕ → Option (Option ℕ)
unfolding strchr_from
strchr s c = strchr_from 0 s c
