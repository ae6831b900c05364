-- ===== src/Dev/Console/Tests.antt =====
-- Runs of the console, and the theorems at them.
use cs.Prelude.{ℕ, ◌≡◌, refl, inr, some, List, [], ◌∷◌, ◌++◌, arith}
use cs.Dev.Console.{Cons, Readline, cons_put, cons_getc, readline}
use cs.Dev.Console.Ring.{IsRing, contents, cons_getc_lem, cons_put_overflows}
use cs.Dev.Console.Line.{IsKeys, IsAnswer, readline_lem}

-- A byte waits at the end of the buffer, where the writing goes on at the start.
abbrev at_end : Cons
at_end = record { buf = λ i. 65; rpos = 511; wpos = 0 }

cons_getc_lem_example :
    ((cons_getc (66 ∷ []) (0 ∷ 67 ∷ []) at_end).0 ≡ 65)
    × ((contents (cons_getc (66 ∷ []) (0 ∷ 67 ∷ []) at_end).1 ≡ 66 ∷ 67 ∷ [])
        × IsRing (cons_getc (66 ∷ []) (0 ∷ 67 ∷ []) at_end).1)
cons_getc_lem_example =
    cons_getc_lem (66 ∷ []) (0 ∷ 67 ∷ []) at_end ((omega arith), (omega arith)) (omega arith)

-- 511 bytes wait.
abbrev nearly_full : Cons
nearly_full = record { buf = λ i. 65; rpos = 1; wpos = 0 }

cons_put_overflows_example : contents (cons_put 66 nearly_full) ≡ []
cons_put_overflows_example =
    cons_put_overflows 66 nearly_full ((omega arith), (omega arith)) refl (omega arith)

-- "ab", a backspace, "c".
abbrev typed_keys : List ℕ
typed_keys = 97 ∷ 98 ∷ 8 ∷ 99 ∷ []

typed_keys-IsKeys : IsKeys typed_keys
typed_keys-IsKeys = (
  ((omega arith), ((omega arith), (omega arith))),
  (
    ((omega arith), ((omega arith), (omega arith))),
    (
      ((omega arith), ((omega arith), (omega arith))),
      (((omega arith), ((omega arith), (omega arith))), tt),
    ),
  ),
)

readline_lem_example :
    (s : Readline) × (readline (typed_keys ++ 13 ∷ []) (λ i. 0) ≡ some (some s))
    × IsAnswer (97 ∷ 99 ∷ []) s
readline_lem_example = readline_lem typed_keys [] 13 (λ i. 0) typed_keys-IsKeys (inr refl)
