-- ===== src/KernLib/Monitor/Run.antt =====
-- The command that a line asks for.
use cs.Prelude.{
  ℕ, zero, suc, ◌+◌, ◌<◌, ◌≡◌, ◌≢◌, ◌⊎◌, ◌∙◌, refl, sym, ap, subst, inl, inr, Option, none, some,
  List, [], ◌∷◌, ◌++◌, length, length-append, arith,
}
use cs.Prelude.Int.{ℤ, pos, negsuc, pos_part, neg_part}
use cs.KernLib.Str.{strcmp}
use cs.KernLib.Str.Compare.{IsText, ended, strcmp_iff}
use cs.KernLib.Dprintf.Buffer.{Holds}
use cs.KernLib.Monitor.{
  parse_args, parsed, bytes_from, find_command, commands, runcmd, Ran, command, unknown_command,
}
use cs.KernLib.Monitor.Split.{AllWhite, AllArg}
use cs.KernLib.Monitor.Args.{line, line_words, ArePieces, AreArgs, arg, parse_args-words}

-- `r` is the number of the first of the names that is `w`, counted from `i` on.
pub data IsFound (w : List ℕ) : ℕ → List (List ℕ) → Option ℕ → Type 0 where
  here : {i : ℕ} {names : List (List ℕ)} → IsFound w i (w ∷ names) (some i)
  next :
      {i : ℕ} {name : List ℕ} {names : List (List ℕ)} {r : Option ℕ}
      → w ≢ name
      → IsFound w (i + 1) names r
      → IsFound w i (name ∷ names) r
  missing : {i : ℕ} → IsFound w i [] none

abbrev ended_all : List (List ℕ) → List (List ℕ)
ended_all [] = []
ended_all (name ∷ names) = ended name [] ∷ ended_all names

abbrev AllTexts : List (List ℕ) → Type 0
AllTexts [] = Unit
AllTexts (name ∷ names) = IsText name × AllTexts names

-- The texts of `commands`.
abbrev pub command_names : List (List ℕ)
command_names =
    (104 ∷ 101 ∷ 108 ∷ 112 ∷ [])
    ∷ (107 ∷ 101 ∷ 114 ∷ 110 ∷ 105 ∷ 110 ∷ 102 ∷ 111 ∷ [])
    ∷ (98 ∷ 97 ∷ 99 ∷ 107 ∷ 116 ∷ 114 ∷ 97 ∷ 99 ∷ 101 ∷ [])
    ∷ []

command_names-ended : ended_all command_names ≡ commands
command_names-ended = refl

command_names-AllTexts : AllTexts command_names
command_names-AllTexts = ground arith

find_command-equal :
    (i : ℕ) (w name : List ℕ) (rest : List (List ℕ))
    → strcmp w name ≡ some (pos 0)
    → find_command i w (name ∷ rest) ≡ some (some i)
unfolding find_command
find_command-equal i w name rest e = rw (find_command, e) refl

find_command-other :
    (i : ℕ) (w name : List ℕ) (rest : List (List ℕ)) (d : ℤ)
    → strcmp w name ≡ some d
    → d ≢ pos 0
    → find_command i w (name ∷ rest) ≡ find_command (i + 1) w rest
unfolding find_command
find_command-other i w name rest (pos zero) e ne = absurd (ne refl)
find_command-other i w name rest (pos (suc n)) e ne = rw (find_command, e) refl
find_command-other i w name rest (negsuc n) e ne = rw (find_command, e) refl

pos-suc : (n : ℕ) → suc n ≢ 0
pos-suc n e = omega (arith, e)

int_cases : (d : ℤ) → (d ≡ pos 0) ⊎ (d ≢ pos 0)
int_cases (pos zero) = inl refl
int_cases (pos (suc n)) = inr (λ e. absurd (pos-suc n (ap pos_part e)))
int_cases (negsuc n) = inr (λ e. absurd (pos-suc n (ap neg_part e)))

find_command_lem :
    (names : List (List ℕ)) (i : ℕ) (w junk : List ℕ)
    → IsText w
    → AllTexts names
    → (r : Option ℕ) × (find_command i (ended w junk) (ended_all names) ≡ some r)
      × IsFound w i names r
unfolding find_command
find_command_lem [] i w junk t ts = (none, refl, missing)
find_command_lem (name ∷ names) i w junk t (tn, ts) =
    let (d, run, iff) = strcmp_iff w name junk [] t tn in
    elim (int_cases d) [
      | inl e ↦ (
        some i,
        find_command-equal i (ended w junk) (ended name []) (ended_all names) (run ∙ ap some e),
        subst (λ n. IsFound w i (n ∷ names) (some i)) (iff.0 e) here,
      )
      | inr ne ↦
          let (r, rest, found) = find_command_lem names (i + 1) w junk t ts in
          (
            r,
            find_command-other i (ended w junk) (ended name []) (ended_all names) d run ne ∙ rest,
            next (λ same. ne (iff.1 same)) found,
          )
    ]

pub bytes_from_lem :
    (w : List ℕ) (room a : ℕ) (buf : ℕ → ℕ)
    → Holds buf a w
    → buf (a + length w) ≡ 0
    → length w < room
    → (junk : List ℕ) × (bytes_from room a buf ≡ ended w junk)
unfolding bytes_from
bytes_from_lem w zero a buf h z small = absurd (omega arith)
bytes_from_lem [] (suc room) a buf h z small =
    let at : a ≡ a + 0 = omega arith in
    (bytes_from room (a + 1) buf, ap (λ x. x ∷ bytes_from room (a + 1) buf) (ap buf at ∙ z))
bytes_from_lem (x ∷ w) (suc room) a buf (e, h) z small =
    let at : a + 1 + length w ≡ a + suc (length w) = omega arith in
    let (junk, same) = bytes_from_lem w room (a + 1) buf h (ap buf at ∙ z) (omega arith) in
    (junk, ap (λ y. y ∷ bytes_from room (a + 1) buf) e ∙ ap (λ l. x ∷ l) same)

AllArg-IsText : (w : List ℕ) → AllArg w → IsText w
AllArg-IsText [] h = tt
AllArg-IsText (x ∷ w) ((nz, _), h) = (nz, AllArg-IsText w h)

-- What `runcmd` comes to for a result of the search.
abbrev pub ran : Option ℕ → List ℕ → (ℕ → ℕ) → Ran
ran none argv buf = unknown_command
ran (some i) argv buf = command i argv buf

runcmd-found :
    (room a : ℕ) (argv : List ℕ) (buf buf' : ℕ → ℕ) (r : Option ℕ)
    → parse_args 16 room 0 [] buf ≡ some (parsed (a ∷ argv) buf')
    → find_command 0 (bytes_from room a buf') commands ≡ some r
    → runcmd room buf ≡ some (ran r (a ∷ argv) buf')
unfolding runcmd
runcmd-found room a argv buf buf' none p f = rw (runcmd, p, f) refl
runcmd-found room a argv buf buf' (some i) p f = rw (runcmd, p, f) refl

first_arg :
    {buf : ℕ → ℕ} {argv : List ℕ} {w : List ℕ} {ws : List (List ℕ)}
    → AreArgs buf argv (w ∷ ws)
    → (a : ℕ) × (rest : List ℕ) × (argv ≡ a ∷ rest) × Holds buf a w × (buf (a + length w) ≡ 0)
first_arg (arg {a} {w} {args} {ws} h z more) = (a, args, refl, h, z)

-- A line of 1 to 15 words, with any whitespace in front of, between and behind them, and a 0 at its
-- end: `runcmd` looks the first word up among the names of the commands and runs the first command
-- of that name, with a place in `argv` for each word, where it stands with a 0 behind it; if there
-- is none it says so.
pub runcmd_lem :
    (gap word : List ℕ) (ps : List (List ℕ × List ℕ)) (trail : List ℕ) (room : ℕ) (buf : ℕ → ℕ)
    → ArePieces ((gap, word) ∷ ps)
    → AllWhite trail
    → Holds buf 0 (line ((gap, word) ∷ ps) trail)
    → buf (length (line ((gap, word) ∷ ps) trail)) ≡ 0
    → length (line ((gap, word) ∷ ps) trail) < room
    → length ps < 15
    → (r : Option ℕ) × (buf' : ℕ → ℕ) × (argv : List ℕ) × IsFound word 0 command_names r
      × AreArgs buf' argv (word ∷ line_words ps)
      × (runcmd room buf ≡ some (ran r argv buf'))
runcmd_lem gap word ps trail room buf pieces white h z small few =
    let (buf', argv, run, are) =
      parse_args-words ((gap, word) ∷ ps) trail room buf pieces white h z small (omega arith) in
    let (a, rest, split, holds, ends) = first_arg are in
    let whole = length-append gap (word ++ line ps trail) in
    let front = length-append word (line ps trail) in
    let (junk, text) = bytes_from_lem word room a buf' holds ends (omega arith) in
    let (r, found, is) =
      find_command_lem command_names 0 word junk (AllArg-IsText word pieces.0.1.0)
        command_names-AllTexts in
    (
      r,
      buf',
      argv,
      is,
      are,
      runcmd-found room a rest buf buf' r (run ∙ ap (λ l. some (parsed l buf')) split) (
            ap (λ t. find_command 0 t commands) text
            ∙ ap (find_command 0 (ended word junk)) (sym command_names-ended)
            ∙ found)
          ∙ ap (λ l. some (ran r l buf')) (sym split),
    )
