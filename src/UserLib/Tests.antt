-- ===== src/UserLib/Tests.antt =====
-- Runs of the string and number functions, and the theorems at them.
use cs.Prelude.{ℕ, ◌≡◌, refl, some, none, List, [], ◌∷◌, ◌++◌, arith, sub32}
use cs.Prelude.Int.{pos}
use cs.KernLib.Str.{Memory}
use cs.KernLib.Str.Compare.{IsText}
use cs.KernLib.Printfmt.{printnum}
use cs.UserLib.Str.Copy.{IsCopied}
use cs.UserLib.Printfmt.{vprintfmt, vsnprintf}
use cs.UserLib.Printfmt.Sprintf.{vsnprintf_lem}
use cs.UserLib.Numbers.{digit, strtol}
use cs.UserLib.Numbers.RoundTrip.{strtol-printnum}

abbrev zeros : Memory
zeros = λ a. 0

abbrev text_abc : List ℕ
text_abc = 97 ∷ 98 ∷ 99 ∷ []

text_abc-IsText : IsText text_abc
text_abc-IsText = ((omega arith), ((omega arith), ((omega arith), tt)))

-- -0x1f, behind a blank.
strtol_test : strtol (32 ∷ 45 ∷ 48 ∷ 120 ∷ 49 ∷ 102 ∷ 0 ∷ []) 0 ≡ some (0 ∷ [], sub32 0 31)
unfolding strtol digit
strtol_test = refl

nul-ends : digit 0 ≡ none
unfolding digit
nul-ends = refl

strtol-printnum_example :
    (out : List ℕ) × (printnum 64 0xbeef 16 (pos 8) 32 ≡ some out)
    × (strtol (out ++ 0 ∷ []) 16 ≡ some (0 ∷ [], 0xbeef))
strtol-printnum_example =
    strtol-printnum 0xbeef 16 (pos 8) 0 [] (omega arith) (omega arith) (omega arith) nul-ends

plain_run : vprintfmt (97 ∷ 98 ∷ 99 ∷ 0 ∷ []) [] ≡ some text_abc
unfolding vprintfmt cs.KernLib.Printfmt.Vprintfmt.vprintfmt_from
plain_run = refl

vsnprintf_lem_example :
    (mem : Memory) × (vsnprintf 8 3 (97 ∷ 98 ∷ 99 ∷ 0 ∷ []) [] zeros ≡ some (3, mem))
    × IsCopied 8 (97 ∷ 98 ∷ []) zeros mem
vsnprintf_lem_example =
    vsnprintf_lem 8 2 (97 ∷ 98 ∷ 99 ∷ 0 ∷ []) [] zeros (omega arith) (omega arith) plain_run
      (omega arith)
      (
        ((omega arith), (omega arith)),
        (((omega arith), (omega arith)), (((omega arith), (omega arith)), tt)),
      )
