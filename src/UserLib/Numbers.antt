-- ===== src/UserLib/Numbers.antt =====
-- `strtol` of user/lib/string.c and `atoi` of user/lib/atoi.c. `long` and `int` have 32 bits and
-- are kept as their patterns; what overflows wraps. The base is a number below 2 ^ 31.
pub mod RoundTrip
use cs.Prelude.{
  ℕ, zero, suc, ◌+◌, ◌-◌, ◌*◌, ◌%◌, ◌^◌, Bool, true, false, not, ◌&&◌, ◌||◌, Option, none, some,
  List, [], ◌∷◌, ltb, leb, ◌==◌, if◌then◌else◌, add32, sub32, mul32, ◌>>=◌,
}

unfoldable pub skip_blanks : List ℕ → Option (List ℕ)
skip_blanks [] = none
skip_blanks (x ∷ s) =
    let rest = skip_blanks s in if (x == 32) || (x == 9) then rest else some (x ∷ s)

-- Whether there is a minus, and the string behind the sign.
unfoldable pub skip_sign : List ℕ → Option (Bool × List ℕ)
skip_sign [] = none
skip_sign (x ∷ s) =
    if x == 43 then some (false, s) else if x == 45 then some (true, s) else some (false, x ∷ s)

-- The base in force when the string is not read for a prefix.
abbrev pub given_base : ℕ → ℕ
given_base base = if base == 0 then 10 else base

-- The string behind a prefix, and the base. The second byte is read only behind a 0.
unfoldable pub skip_prefix : List ℕ → ℕ → Option (List ℕ × ℕ)
skip_prefix [] base = if (base == 0) || (base == 16) then none else some ([], base)
skip_prefix (x ∷ []) base =
    if ((base == 0) || (base == 16)) && (x == 48) then none else some (x ∷ [], given_base base)
skip_prefix (x ∷ y ∷ s) base =
    if ((base == 0) || (base == 16)) && ((x == 48) && (y == 120))
    then some (s, 16)
    else if (base == 0) && (x == 48)
    then some (y ∷ s, 8)
    else some (x ∷ y ∷ s, given_base base)

-- `dig`, when the byte is a digit or a letter.
unfoldable pub digit : ℕ → Option ℕ
digit c =
    if leb 48 c && leb c 57
    then some (c - 48)
    else if leb 97 c && leb c 122
    then some (c - 97 + 10)
    else if leb 65 c && leb c 90
    then some (c - 65 + 10)
    else none

-- The loop of `strtol`: the string from the first byte that is no digit, and the value.
unfoldable pub strtol_digits : List ℕ → ℕ → ℕ → Option (List ℕ × ℕ)
strtol_digits [] base val = none
strtol_digits (x ∷ s) base val = elim (digit x) [
  | some dig ↦
      let rest = strtol_digits s base (add32 (mul32 val base) dig) in
      if leb base dig then some (x ∷ s, val) else rest
  | none ↦ some (x ∷ s, val)
]

-- What `*endptr` points at, and the value.
unfoldable pub strtol : List ℕ → ℕ → Option (List ℕ × ℕ)
unfolding skip_blanks skip_sign skip_prefix strtol_digits
strtol s base = do
  behind_blanks ← skip_blanks s
  (neg, behind_sign) ← skip_sign behind_blanks
  (digits, base') ← skip_prefix behind_sign base
  (end, val) ← strtol_digits digits base' 0
  some (end, if neg then sub32 0 val else val)

-- The loop of `atoi`: `loc` and `acc` after it.
unfoldable pub atoi_digits : List ℕ → ℕ → ℕ → Option (ℕ × ℕ)
atoi_digits [] loc acc = none
atoi_digits (x ∷ s) loc acc =
    let rest = atoi_digits s (loc + 1) (add32 (mul32 acc 10) (x - 48)) in
    if leb 48 x && leb x 57 then rest else some (loc, acc)

-- The end of `atoi`, whose digits start at `numstart`: `none` when `*i` is not written.
unfoldable pub atoi_finish : Bool → ℕ → ℕ × ℕ → Option (ℕ × ℕ)
atoi_finish negative numstart (loc, acc) =
    if numstart == loc then none else some (loc, if negative then sub32 0 acc else acc)

-- `loc` and `*i`; `some none` is the answer 0, which leaves `*i` alone.
unfoldable pub atoi : List ℕ → Option (Option (ℕ × ℕ))
unfolding atoi_digits atoi_finish
atoi [] = none
atoi (x ∷ s) =
    if x == 43
    then (atoi_digits s 1 0 >>= λ r. some (atoi_finish false 1 r))
    else if x == 45
    then (atoi_digits s 1 0 >>= λ r. some (atoi_finish true 1 r))
    else (atoi_digits (x ∷ s) 0 0 >>= λ r. some (atoi_finish false 0 r))
