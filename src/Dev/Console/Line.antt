-- ===== src/Dev/Console/Line.antt =====
-- `readline` as an editor of a line.
use cs.Prelude.{
  ℕ, zero, suc, ◌+◌, ◌-◌, ◌≤◌, ◌<◌, ◌≡◌, ◌≢◌, ◌⊎◌, ◌∙◌, refl, sym, ap, subst, inl, inr, false, ◌&&◌,
  ◌||◌, some, List, [], ◌∷◌, ◌++◌, ltb, leb, ◌==◌, if◌then◌else◌, update, arith, Bool-cases, length,
  length-append,
}
use cs.Dev.Console.{Readline, rub_out, type_in, end_line, readline_loop, readline, buflen}

-- A line without its last byte.
abbrev pub init : List ℕ → List ℕ
init [] = []
init (x ∷ []) = []
init (x ∷ y ∷ xs) = x ∷ init (y ∷ xs)

-- What a key makes of the line.
abbrev pub edit_key : List ℕ → ℕ → List ℕ
edit_key line c =
    if ((c == 8) || (c == 127)) && ltb 0 (length line)
    then init line
    else if leb 32 c && ltb (length line) (buflen - 1)
    then line ++ c ∷ []
    else line

abbrev pub edit : List ℕ → List ℕ → List ℕ
edit line [] = line
edit line (c ∷ keys) = edit (edit_key line c) keys

-- What a terminal shows behind the prompt: 8 takes the last byte away.
abbrev pub shown : List ℕ → List ℕ → List ℕ
shown line [] = line
shown line (c ∷ echo) = shown (if c == 8 then init line else line ++ c ∷ []) echo

-- The first `n` bytes.
abbrev pub text : (ℕ → ℕ) → ℕ → List ℕ
text buf zero = []
text buf (suc n) = text buf n ++ buf n ∷ []

-- Keys that neither end the line nor are negative as a `char`.
abbrev pub IsKeys : List ℕ → Type 0
IsKeys [] = Unit
IsKeys (c ∷ keys) = ((c < 128) × ((c ≢ 10) × (c ≢ 13))) × IsKeys keys

init-snoc : (xs : List ℕ) (x : ℕ) → init (xs ++ x ∷ []) ≡ xs
init-snoc [] x = refl
init-snoc (y ∷ []) x = refl
init-snoc (y ∷ z ∷ xs) x = ap (λ l. y ∷ l) (init-snoc (z ∷ xs) x)

pub length-text : (buf : ℕ → ℕ) (n : ℕ) → length (text buf n) ≡ n
length-text buf zero = refl
length-text buf (suc n) = omega (arith, length-append (text buf n) (buf n ∷ []), length-text buf n)

text-update : (buf : ℕ → ℕ) (n i x : ℕ) → n ≤ i → text (update buf i x) n ≡ text buf n
text-update buf zero i x h = refl
text-update buf (suc n) i x h =
    let others = text-update buf n i x (omega arith) in
    let last : update buf i x n ≡ buf n = ground arith in cc (others, last)

shown-snoc :
    (line echo : List ℕ) (c : ℕ)
    → shown line (echo ++ c ∷ [])
      ≡ (if c == 8 then init (shown line echo) else shown line echo ++ c ∷ [])
shown-snoc line [] c = refl
shown-snoc line (x ∷ echo) c = shown-snoc (if x == 8 then init line else line ++ x ∷ []) echo c

-- The state of the loop holds the line, and so does the terminal.
abbrev pub IsLine : List ℕ → Readline → Type 0
IsLine line s = (text s.linebuf s.i ≡ line) × ((shown [] s.echo ≡ line) × (s.i ≤ buflen - 1))

rub_out-IsLine :
    (line : List ℕ) (s : Readline) → IsLine line s → 0 < s.i → IsLine (init line) (rub_out s)
rub_out-IsLine line s (e, (e', h)) p =
    let back : suc (s.i - 1) ≡ s.i = omega arith in
    (
      sym (init-snoc (text s.linebuf (s.i - 1)) (s.linebuf (s.i - 1)))
          ∙ ap (λ n. init (text s.linebuf n)) back
          ∙ ap init e,
      (shown-snoc [] s.echo 8 ∙ ap init e', (omega arith)),
    )

type_in-IsLine :
    (line : List ℕ) (s : Readline) (c : ℕ)
    → IsLine line s
    → s.i < buflen - 1
    → c ≢ 8
    → IsLine (line ++ c ∷ []) (type_in c s)
type_in-IsLine line s c (e, (e', h)) room nb =
    let no_rub : (c == 8) ≡ false = ground arith in
    let here : update s.linebuf s.i c s.i ≡ c = ground arith in
    let longer : s.i + 1 ≡ suc s.i = omega arith in
    let kept = text-update s.linebuf s.i s.i c (omega arith) in
    (
      ap (text (update s.linebuf s.i c)) longer
          ∙ ap (λ l. l ++ update s.linebuf s.i c s.i ∷ []) (kept ∙ e)
          ∙ ap (λ x. line ++ x ∷ []) here,
      (shown-snoc [] s.echo c ∙ rw no_rub (ap (λ l. l ++ c ∷ []) e'), (omega arith)),
    )

-- The variables after a key.
abbrev after_key : ℕ → Readline → Readline
after_key c s =
    if ((c == 8) || (c == 127)) && ltb 0 s.i
    then rub_out s
    else if leb 32 c && ltb s.i (buflen - 1)
    then type_in c s
    else s

pub readline_loop-key :
    (c : ℕ) (cs : List ℕ) (s : Readline)
    → c < 128
    → c ≢ 10
    → c ≢ 13
    → readline_loop (c ∷ cs) s ≡ readline_loop cs (after_key c s)
unfolding readline_loop
readline_loop-key c cs s lt n10 n13 =
    let small : leb 128 c ≡ false = ground arith in
    let goes_on : (c == 10) || (c == 13) ≡ false = ground arith in
    elim (Bool-cases (((c == 8) || (c == 127)) && ltb 0 s.i)) [
      | inl e ↦ rw (readline_loop, small, e) refl
      | inr e ↦ elim (Bool-cases (leb 32 c && ltb s.i (buflen - 1))) [
        | inl e' ↦ rw (readline_loop, small, e, e') refl
        | inr e' ↦ rw (readline_loop, small, e, e', goes_on) refl
      ]
    ]

after_key-IsLine :
    (line : List ℕ) (s : Readline) (c : ℕ)
    → IsLine line s
    → IsLine (edit_key line c) (after_key c s)
after_key-IsLine line s c is_line =
    let len : s.i ≡ length line = sym (length-text s.linebuf s.i) ∙ ap length is_line.0 in
    let tests : edit_key line c ≡ (
        if ((c == 8) || (c == 127)) && ltb 0 s.i
        then init line
        else if leb 32 c && ltb s.i (buflen - 1)
        then line ++ c ∷ []
        else line) =
      rw len refl in
    subst (λ l. IsLine l (after_key c s)) (sym tests)
      (elim (Bool-cases (((c == 8) || (c == 127)) && ltb 0 s.i)) [
        | inl e ↦ rw e (rub_out-IsLine line s is_line (ground arith))
        | inr e ↦ elim (Bool-cases (leb 32 c && ltb s.i (buflen - 1))) [
          | inl e' ↦ rw (e, e') (type_in-IsLine line s c is_line (ground arith) (ground arith))
          | inr e' ↦ rw (e, e') is_line
        ]
      ])

readline_loop-end :
    (c : ℕ) (cs : List ℕ) (s : Readline)
    → (c ≡ 10) ⊎ (c ≡ 13)
    → readline_loop (c ∷ cs) s ≡ some (some (end_line s))
unfolding readline_loop
readline_loop-end c cs s (inl e) = rw e refl
readline_loop-end c cs s (inr e) = rw e refl

-- The line that `readline` answers, and the terminal.
abbrev pub IsAnswer : List ℕ → Readline → Type 0
IsAnswer line s =
    (text s.linebuf s.i ≡ line)
    × ((s.linebuf s.i ≡ 0) × ((s.i ≤ buflen - 1) × (shown [] s.echo ≡ line ++ 10 ∷ [])))

end_line-IsAnswer : (line : List ℕ) (s : Readline) → IsLine line s → IsAnswer line (end_line s)
end_line-IsAnswer line s (e, (e', h)) = (
  text-update s.linebuf s.i s.i 0 (omega arith) ∙ e,
  ((ground arith), (h, shown-snoc [] s.echo 10 ∙ ap (λ l. l ++ 10 ∷ []) e')),
)

readline_loop_lem :
    (keys rest : List ℕ) (c : ℕ) (line : List ℕ) (s : Readline)
    → IsKeys keys
    → (c ≡ 10) ⊎ (c ≡ 13)
    → IsLine line s
    → (s' : Readline) × (readline_loop (keys ++ c ∷ rest) s ≡ some (some s'))
      × IsAnswer (edit line keys) s'
readline_loop_lem [] rest c line s k end is_line =
    (end_line s, readline_loop-end c rest s end, end_line-IsAnswer line s is_line)
readline_loop_lem (x ∷ keys) rest c line s ((lt, (n10, n13)), k) end is_line =
    let (s', run, answer) =
      readline_loop_lem keys rest c (edit_key line x) (after_key x s) k end
        (after_key-IsLine line s x is_line) in
    (s', readline_loop-key x (keys ++ c ∷ rest) s lt n10 n13 ∙ run, answer)

-- On keys from 0 to 127 with a line feed or carriage return behind them `readline` returns the
-- line that they edit, at most 1023 bytes with a 0 behind them in the buffer, and the terminal
-- shows that line.
pub readline_lem :
    (keys rest : List ℕ) (c : ℕ) (linebuf : ℕ → ℕ)
    → IsKeys keys
    → (c ≡ 10) ⊎ (c ≡ 13)
    → (s : Readline) × (readline (keys ++ c ∷ rest) linebuf ≡ some (some s))
      × IsAnswer (edit [] keys) s
unfolding readline
readline_lem keys rest c linebuf k end =
    readline_loop_lem keys rest c [] (record { i = 0; linebuf = linebuf; echo = [] }) k end
      (refl, (refl, (omega arith)))
