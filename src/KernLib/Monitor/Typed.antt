-- ===== src/KernLib/Monitor/Typed.antt =====
-- From the keys that are typed to the command that runs.
use cs.Prelude.{
  ℕ, zero, suc, ◌+◌, ◌<◌, ◌≡◌, ◌⊎◌, ◌∙◌, refl, sym, ap, subst, Option, some, List, [], ◌∷◌, ◌++◌,
  length, arith,
}
use cs.Dev.Console.{Readline, readline, buflen}
use cs.Dev.Console.Line.{text, edit, IsKeys, readline_lem, length-text}
use cs.KernLib.Dprintf.Buffer.{Holds, Holds-snoc}
use cs.KernLib.Monitor.{runcmd, monitor_round}
use cs.KernLib.Monitor.Split.{AllWhite}
use cs.KernLib.Monitor.Args.{line, line_words, ArePieces, AreArgs}
use cs.KernLib.Monitor.Run.{IsFound, command_names, ran, runcmd_lem}

Holds-text : (buf : ℕ → ℕ) (n : ℕ) → Holds buf 0 (text buf n)
Holds-text buf zero = tt
Holds-text buf (suc n) =
    let at : 0 + length (text buf n) ≡ n = omega (arith, length-text buf n) in
    Holds-snoc buf 0 (buf n) (text buf n) (Holds-text buf n) (ap buf at)

monitor_round-runs :
    (keys : List ℕ) (linebuf : ℕ → ℕ) (s : Readline)
    → readline keys linebuf ≡ some (some s)
    → monitor_round keys linebuf ≡ runcmd buflen s.linebuf
unfolding monitor_round
monitor_round-runs keys linebuf s e = rw (monitor_round, e) refl

-- A line of 1 to 15 words with whitespace in front of, between and behind them, that the keys typed
-- at the console come to with all their corrections, and a line feed or carriage return: a round of
-- the monitor looks the first word up among the names of the commands and runs the first command of
-- that name on the words, or says that there is none.
pub monitor_round_lem :
    (keys rest : List ℕ) (c : ℕ) (linebuf : ℕ → ℕ) (gap word : List ℕ) (ps : List (List ℕ × List ℕ))
    (trail : List ℕ)
    → IsKeys keys
    → (c ≡ 10) ⊎ (c ≡ 13)
    → edit [] keys ≡ line ((gap, word) ∷ ps) trail
    → ArePieces ((gap, word) ∷ ps)
    → AllWhite trail
    → length ps < 15
    → (r : Option ℕ) × (buf : ℕ → ℕ) × (argv : List ℕ) × IsFound word 0 command_names r
      × AreArgs buf argv (word ∷ line_words ps)
      × (monitor_round (keys ++ c ∷ rest) linebuf ≡ some (ran r argv buf))
monitor_round_lem keys rest c linebuf gap word ps trail k end edits pieces white few =
    let (s, run, answer) = readline_lem keys rest c linebuf k end in
    let whole = line ((gap, word) ∷ ps) trail in
    let same : text s.linebuf s.i ≡ whole = answer.0 ∙ edits in
    let size : length whole ≡ s.i = ap length (sym same) ∙ length-text s.linebuf s.i in
    let (r, buf, argv, found, args, ran_it) =
      runcmd_lem gap word ps trail buflen s.linebuf pieces white
        (subst (Holds s.linebuf 0) same (Holds-text s.linebuf s.i)) (ap s.linebuf size ∙ answer.1.0)
        (omega (arith, size, answer.1.1.0)) few in
    (r, buf, argv, found, args, monitor_round-runs (keys ++ c ∷ rest) linebuf s run ∙ ran_it)
