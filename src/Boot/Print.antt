-- ===== src/Boot/Print.antt =====
-- The strings, numbers and screen of boot/boot1/boot1lib.c. A `char` array is a function from the
-- offset. The screen is a function from the offset in display memory.
pub mod Reverse
pub mod Itox
use cs.Prelude.{
  ℕ, zero, suc, ◌+◌, ◌-◌, ◌*◌, ◌/◌, ◌%◌, Bool, true, false, Option, none, some, List, [], ◌∷◌, ltb,
  leb, ◌==◌, if◌then◌else◌, update, get_or, replicate,
}

abbrev pub crt_rows : ℕ
crt_rows = 25

unfoldable pub putc : ℕ → ℕ → ℕ → (ℕ → ℕ) → ℕ → ℕ
putc l color ch video = update (update video (l * 2) ch) (l * 2 + 1) color

-- The loop of `puts`: the place behind the text, and the screen.
unfoldable pub puts_loop : ℕ → ℕ → List ℕ → (ℕ → ℕ) → Option (ℕ × (ℕ → ℕ))
unfolding putc
puts_loop l color [] video = none
puts_loop l color (x ∷ string) video =
    let rest = puts_loop (l + 1) color string (putc l color x video) in
    if x == 0 then some (l, video) else rest

unfoldable pub puts : ℕ → ℕ → ℕ → List ℕ → (ℕ → ℕ) → Option (ℕ × (ℕ → ℕ))
unfolding puts_loop
puts r c color string video = puts_loop (r * 80 + c) color string video

-- 80 spaces and a 0.
abbrev pub blank : ℕ → List ℕ
blank zero = 0 ∷ []
blank (suc n) = 32 ∷ blank n

-- The row, and the screen.
unfoldable pub putline : List ℕ → ℕ × (ℕ → ℕ) → Option (ℕ × (ℕ → ℕ))
unfolding puts
putline s (row, video) =
    let row' = if leb crt_rows row then 0 else row + 1 in
    elim (puts row' 0 0 (blank 80) video) [
      | some (l, video') ↦ elim (puts row' 0 15 s video') [
        | some (l', video'') ↦ some (row', video'')
        | none ↦ none
      ]
      | none ↦ none
    ]

-- The loop of `strlen` on an array with room for `room` bytes from `n` on.
unfoldable pub strlen_from : ℕ → ℕ → (ℕ → ℕ) → Option ℕ
strlen_from zero n s = none
strlen_from (suc room) n s =
    let rest = strlen_from room (n + 1) s in if s n == 0 then some n else rest

-- The exchange of two bytes.
abbrev pub swap : ℕ → ℕ → (ℕ → ℕ) → ℕ → ℕ
swap i j s = update (update s i (s j)) j (s i)

-- The loop of `reverse`; `rounds` is at least the number of its rounds.
unfoldable pub reverse_loop : ℕ → ℕ → ℕ → (ℕ → ℕ) → ℕ → ℕ
reverse_loop zero i j s = s
reverse_loop (suc rounds) i j s =
    let rest = reverse_loop rounds (i + 1) (j - 1) (swap i j s) in if ltb i j then rest else s

-- `strlen(s) - 1` is -1 for an empty string, which is no round, as is 0.
unfoldable pub reverse : ℕ → (ℕ → ℕ) → Option (ℕ → ℕ)
unfolding strlen_from reverse_loop
reverse room s = elim (strlen_from room 0 s) [
  | some n ↦ some (reverse_loop n 0 (n - 1) s)
  | none ↦ none
]

-- The loop over the digits from `s[i]` on: `i` after it, and the array. 32 rounds are enough.
unfoldable pub itox_loop : ℕ → ℕ → ℕ → List ℕ → ℕ → (ℕ → ℕ) → Option (ℕ × (ℕ → ℕ))
itox_loop zero n root table i s = none
itox_loop (suc rounds) n root table i s =
    let s' = update s i (get_or table (n % root) 0) in
    elim (ltb 0 (n / root)) [
      | true ↦ itox_loop rounds (n / root) root table (i + 1) s'
      | false ↦ some (i + 1, s')
    ]

-- `n` is the pattern of an `int`; the least one has no magnitude, and a negative remainder that is
-- no index of the table. The array has room for `room` bytes.
unfoldable pub itox : ℕ → ℕ → ℕ → List ℕ → (ℕ → ℕ) → Option (ℕ → ℕ)
unfolding itox_loop reverse
itox room n root table s =
    if n == 0x8000_0000
    then none
    else elim (itox_loop 32 (if ltb n 0x8000_0000 then n else 0x1_0000_0000 - n) root table 0 s) [
      | some (i, s') ↦
          if ltb n 0x8000_0000
          then reverse room (update s' i 0)
          else reverse room (update (update s' i 45) (i + 1) 0)
      | none ↦ none
    ]

abbrev pub dec : List ℕ
dec = 48 ∷ 49 ∷ 50 ∷ 51 ∷ 52 ∷ 53 ∷ 54 ∷ 55 ∷ 56 ∷ 57 ∷ []

abbrev pub hex : List ℕ
hex = 48 ∷ 49 ∷ 50 ∷ 51 ∷ 52 ∷ 53 ∷ 54 ∷ 55 ∷ 56 ∷ 57 ∷ 97 ∷ 98 ∷ 99 ∷ 100 ∷ 101 ∷ 102 ∷ []

unfoldable pub itoa : ℕ → ℕ → (ℕ → ℕ) → Option (ℕ → ℕ)
unfolding itox
itoa room n s = itox room n 10 dec s

unfoldable pub itoh : ℕ → ℕ → (ℕ → ℕ) → Option (ℕ → ℕ)
unfolding itox
itoh room n s = itox room n 16 hex s
