-- ===== src/KernLib/Tests.antt =====
-- Runs of the string functions, and the theorems at them.
use cs.Prelude.{ℕ, ◌≡◌, ◌↔◌, refl, some, List, [], ◌∷◌, arith, take, replicate, length, ◌++◌}
use cs.Prelude.Int.{ℤ, pos}
use cs.KernLib.Str.{Memory, memmove, memset, strnlen, strcmp, strncmp}
use cs.KernLib.Printfmt.{hex_char, printnum}
use cs.KernLib.Printfmt.Format.{word, text}
use cs.KernLib.Printfmt.Vprintfmt.{vprintfmt}
use cs.KernLib.Printfmt.Numeral.{IsNumeral, padding, printnum_lem}
use cs.KernLib.Str.Memory.{memmove_lem}
use cs.KernLib.Str.Compare.{IsText}

-- Every byte holds its address.
abbrev addresses : Memory
addresses = λ a. a

memmove_test : memmove 8 4 8 addresses 12 ≡ 8
unfolding memmove cs.KernLib.Str.movsl_down cs.KernLib.Str.copy_word
memmove_test = refl

memmove_lem_example : memmove 6 4 8 addresses 9 ≡ 7
memmove_lem_example = memmove_lem 6 4 8 addresses 9

abbrev text_ab : List ℕ
text_ab = 97 ∷ 98 ∷ []

abbrev text_abc : List ℕ
text_abc = 97 ∷ 98 ∷ 99 ∷ []

text_ab-IsText : IsText text_ab
text_ab-IsText = ((omega arith), ((omega arith), tt))

text_abc-IsText : IsText text_abc
text_abc-IsText = ((omega arith), ((omega arith), ((omega arith), tt)))

-- `%5d` of 42.
printnum_test : printnum 64 42 10 (pos 5) 32 ≡ some (32 ∷ 32 ∷ 32 ∷ 52 ∷ 50 ∷ [])
unfolding printnum hex_char
printnum_test = refl

printnum_lem_example :
    (ds : List ℕ) × (printnum 64 42 10 (pos 5) 32
      ≡ some (replicate (padding (pos 5) (length ds)) 32 ++ ds))
    × IsNumeral 10 42 ds
printnum_lem_example =
    printnum_lem 64 42 10 (pos 5) 32 (omega arith) (omega arith) (omega arith) (omega arith)

-- "%5d|%-3s|%z%%" of -42 and "a".
vprintfmt_test :
    vprintfmt
      (37 ∷ 53 ∷ 100 ∷ 124 ∷ 37 ∷ 45 ∷ 51 ∷ 115 ∷ 124 ∷ 37 ∷ 122 ∷ 37 ∷ 37 ∷ 0 ∷ [])
      (word 0xffff_ffd6 ∷ text (some (97 ∷ 0 ∷ [])) ∷ [])
    ≡ some (45 ∷ 32 ∷ 32 ∷ 32 ∷ 52 ∷ 50 ∷ 124 ∷ 97 ∷ 32 ∷ 32 ∷ 124 ∷ 37 ∷ 122 ∷ 37 ∷ [])
unfolding vprintfmt cs.KernLib.Printfmt.printnum cs.KernLib.Printfmt.hex_char cs.Prelude.Int.◌-ℤ◌
vprintfmt_test = refl
