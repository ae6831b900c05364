-- ===== src/KernLib/Printfmt.antt =====
-- `printnum` of kern/lib/printfmt.c, and of user/lib/printfmt.c, which has the same one. The
-- result is the list of bytes that go to `putch`. `width` is an `int`, kept as an integer: the
-- recursion is at most 64 deep, too little for an overflow but of a width from `*` beside the least
-- int.
pub mod Numeral
pub mod Format
pub mod Vprintfmt
use cs.Prelude.{
  ℕ, zero, suc, ◌+◌, ◌-◌, ◌*◌, ◌/◌, ◌%◌, Bool, true, false, Option, none, some, List, [], ◌∷◌, ◌++◌,
  ltb, leb, ◌==◌, if◌then◌else◌, replicate, get_elem?, ◌>>=◌,
}
use cs.Prelude.Int.{ℤ, pos, negsuc, sub_ℕ}

-- `"0123456789abcdef"`, with the 0 at its end.
abbrev pub hex_digits : List ℕ
hex_digits =
    48 ∷ 49 ∷ 50 ∷ 51 ∷ 52 ∷ 53 ∷ 54 ∷ 55 ∷ 56 ∷ 57 ∷ 97 ∷ 98 ∷ 99 ∷ 100 ∷ 101 ∷ 102 ∷ 0 ∷ []

-- `"0123456789abcdef"[k]`: `none` is a read behind the end.
unfoldable pub hex_char : ℕ → Option ℕ
hex_char k = get_elem? hex_digits k

-- `width - 1`.
abbrev pub pred_width : ℤ → ℤ
pred_width (pos zero) = negsuc 0
pred_width (pos (suc n)) = pos n
pred_width (negsuc n) = negsuc (suc n)

-- The rounds of `while (--width > 0)`.
abbrev pub pad_count : ℤ → ℕ
pad_count (pos n) = n - 1
pad_count (negsuc n) = 0

-- A number has no more than `fuel` digits: 64 is enough for 64 bits in any base. `none` is also a
-- digit that the string does not have, in a base above 16.
unfoldable pub printnum : ℕ → ℕ → ℕ → ℤ → ℕ → Option (List ℕ)
printnum zero num base width padc = none
printnum (suc fuel) num base width padc = elim (leb base num) [
  | true ↦ printnum fuel (num / base) base (pred_width width) padc >>= λ out.
      hex_char (num % base) >>= λ c. some (out ++ c ∷ [])
  | false ↦ hex_char (num % base) >>= λ c. some (replicate (pad_count width) padc ++ c ∷ [])
]
