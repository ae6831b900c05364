-- ===== src/UserLib/Printf/Tests.antt =====
-- A user's output and input, and the theorems at them.
use cs.Prelude.{ℕ, ◌<◌, ◌≡◌, refl, inr, some, [], ◌∷◌, arith}
use cs.KernLib.Str.{Memory}
use cs.KernLib.Dprintf.Buffer.{Holds}
use cs.UserLib.Printf.{gets}
use cs.UserLib.Printf.Gets.{gets_lem}

-- "hi" and a carriage return, for a buffer of 8 bytes.
gets_lem_example :
    (buf' : ℕ → ℕ) × (output' : Memory) × (gets
        (λ i. 7)
        (104 ∷ 105 ∷ 13 ∷ [])
        8
        (λ i. 9)
        (λ a. 0, [])
      ≡ some (buf', (output', 104 ∷ 105 ∷ 13 ∷ [])))
    × Holds buf' 0 (104 ∷ 105 ∷ [])
    × (buf' 2 ≡ 0)
    × ((k : ℕ) → 2 < k → buf' k ≡ 9)
gets_lem_example =
    gets_lem (λ i. 7) (104 ∷ 105 ∷ []) 13 [] 8 (λ i. 9) (λ a. 0) []
      (
        (((omega arith), (omega arith)), ((omega arith), (omega arith))),
        ((((omega arith), (omega arith)), ((omega arith), (omega arith))), tt),
      )
      (inr refl) (omega arith)
