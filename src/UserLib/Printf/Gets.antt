-- ===== src/UserLib/Printf/Gets.antt =====
-- The line that `gets` reads.
use cs.Prelude.{
  ℕ, suc, ◌+◌, ◌-◌, ◌<◌, ◌≡◌, ◌≢◌, ◌⊎◌, ◌∙◌, refl, sym, ap, inr, true, false, ◌||◌, some, List, [],
  ◌∷◌, ◌++◌, append_assoc, ltb, ◌==◌, update, length, arith,
}
use cs.KernLib.Str.{Memory}
use cs.KernLib.Dprintf.Buffer.{Holds}
use cs.UserLib.Printf.{sys_puts, gets_loop, gets}
use cs.UserLib.Printf.Buffer.{sys_puts_lem}

-- Bytes that do not end a line.
abbrev pub IsLine : List ℕ → Type 0
IsLine [] = Unit
IsLine (x ∷ xs) = (((x ≢ 0) × (x < 256)) × ((x ≢ 10) × (x ≢ 13))) × IsLine xs

gets_loop-key :
    (junk : ℕ → ℕ) (c : ℕ) (keys : List ℕ) (num size : ℕ) (buf : ℕ → ℕ) (s s' : Memory × List ℕ)
    → num + 1 < size
    → c ≢ 0
    → c ≢ 10
    → c ≢ 13
    → sys_puts junk (c ∷ 0 ∷ []) 2 s ≡ some s'
    → gets_loop junk (c ∷ keys) num size buf s
      ≡ gets_loop junk keys (num + 1) size (update buf num c) s'
unfolding gets_loop
gets_loop-key junk c keys num size buf s s' room nz n10 n13 e =
    let r : ltb num (size - 1) ≡ true = ground arith in
    let z : (c == 0) ≡ false = ground arith in
    let n : (c == 10) || (c == 13) ≡ false = ground arith in rw (gets_loop, r, z, e, n) refl

gets_loop-end :
    (junk : ℕ → ℕ) (c : ℕ) (keys : List ℕ) (num size : ℕ) (buf : ℕ → ℕ) (s s' : Memory × List ℕ)
    → num + 1 < size
    → (c ≡ 10) ⊎ (c ≡ 13)
    → sys_puts junk (c ∷ 0 ∷ []) 2 s ≡ some s'
    → gets_loop junk (c ∷ keys) num size buf s ≡ some (update buf num 0, s')
unfolding gets_loop
gets_loop-end junk c keys num size buf s s' room ends e =
    let r : ltb num (size - 1) ≡ true = ground arith in
    let z : (c == 0) ≡ false = ground arith in
    let n : (c == 10) || (c == 13) ≡ true = ground arith in rw (gets_loop, r, z, e, n) refl

-- What comes of reading the line from `num` on.
abbrev IsRead : ℕ → List ℕ → (ℕ → ℕ) → (ℕ → ℕ) → Type 0
IsRead num xs buf buf' =
    ((k : ℕ) → (k < num) ⊎ (num + length xs < k) → buf' k ≡ buf k)
    × (Holds buf' num xs × (buf' (num + length xs) ≡ 0))

gets_loop_lem :
    (junk : ℕ → ℕ) (xs : List ℕ) (c : ℕ) (rest : List ℕ) (num size : ℕ) (buf : ℕ → ℕ)
    (output : Memory) (console : List ℕ)
    → IsLine xs
    → (c ≡ 10) ⊎ (c ≡ 13)
    → num + length xs + 1 < size
    → (buf' : ℕ → ℕ) × (output' : Memory) × (gets_loop junk
          (xs ++ c ∷ rest)
          num
          size
          buf
          (output, console)
        ≡ some (buf', (output', console ++ (xs ++ c ∷ []))))
      × IsRead num xs buf buf'
gets_loop_lem junk [] c rest num size buf output console line ends room =
    let (output', put) =
      sys_puts_lem junk (c ∷ []) [] 2 output console (((omega arith), (omega arith)), tt) in
    (
      update buf num 0,
      output',
      gets_loop-end junk c rest num size buf (output, console) (output', console ++ c ∷ [])
          (omega arith) ends put,
      ((λ k p. ground arith), (tt, (ground arith))),
    )
gets_loop_lem junk (x ∷ xs) c rest num size buf output console (((nz, lt), (n10, n13)), line) ends
      room =
    let (output1, put) = sys_puts_lem junk (x ∷ []) [] 2 output console ((nz, lt), tt) in
    let (buf', output', run, (same, (holds, z))) =
      gets_loop_lem junk xs c rest (num + 1) size (update buf num x) output1 (console ++ x ∷ [])
        line ends (omega arith) in
    let at : num + 1 + length xs ≡ num + suc (length xs) = omega arith in
    (
      buf',
      output',
      gets_loop-key junk x (xs ++ c ∷ rest) num size buf (output, console)
            (output1, console ++ x ∷ []) (omega arith) nz n10 n13 put
          ∙ run
          ∙ ap (λ l. some (buf', (output', l))) (append_assoc console (x ∷ []) (xs ++ c ∷ [])),
      (
        (λ k p. same k (omega arith) ∙ ground arith),
        ((same num (omega arith) ∙ ground arith, holds), ap buf' (sym at) ∙ z),
      ),
    )

-- A line with its line feed or carriage return that is shorter than the buffer by two bytes or more
-- is read by `gets` whole: it stands in the buffer with a 0 behind it, no other byte of the buffer
-- is changed, and the line and its end are echoed.
pub gets_lem :
    (junk : ℕ → ℕ) (xs : List ℕ) (c : ℕ) (rest : List ℕ) (size : ℕ) (buf : ℕ → ℕ) (output : Memory)
    (console : List ℕ)
    → IsLine xs
    → (c ≡ 10) ⊎ (c ≡ 13)
    → length xs + 1 < size
    → (buf' : ℕ → ℕ) × (output' : Memory) × (gets junk (xs ++ c ∷ rest) size buf (output, console)
        ≡ some (buf', (output', console ++ (xs ++ c ∷ []))))
      × Holds buf' 0 xs
      × (buf' (length xs) ≡ 0)
      × ((k : ℕ) → length xs < k → buf' k ≡ buf k)
unfolding gets
gets_lem junk xs c rest size buf output console line ends room =
    let (buf', output', run, (same, (holds, z))) =
      gets_loop_lem junk xs c rest 0 size buf output console line ends (omega arith) in
    let at : length xs ≡ 0 + length xs = omega arith in
    (buf', output', run, holds, ap buf' at ∙ z, λ k p. same k (inr (omega arith)))
