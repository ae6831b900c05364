-- ===== src/KernLib/Monitor/Args.antt =====
-- The arguments of a command line.
use mathlib.Core.List.{append-nil}
use cs.Prelude.{
  ℕ, zero, suc, ◌+◌, ◌<◌, ◌≤◌, ◌≡◌, ◌≢◌, ◌∙◌, refl, sym, ap, inl, inr, true, false, some, List, [],
  ◌∷◌, ◌++◌, append_assoc, ◌==◌, length, length-append, arith, Bool-cases,
}
use cs.KernLib.Dprintf.Buffer.{Holds}
use cs.KernLib.Monitor.{gobble, scan_arg, parse_args, parsed, maxargs}
use cs.KernLib.Monitor.Split.{
  AllWhite, AllArg, goes_on, gobbled, white-stops, arg-goes_on, Holds-same, Holds-append,
  gobble_lem, scan_arg_lem,
}

-- The line of words, each with the whitespace in front of it, and the whitespace behind them.
abbrev pub line : List (List ℕ × List ℕ) → List ℕ → List ℕ
line [] trail = trail
line ((gap, word) ∷ words) trail = gap ++ (word ++ line words trail)

abbrev pub line_words : List (List ℕ × List ℕ) → List (List ℕ)
line_words [] = []
line_words ((gap, word) ∷ words) = word ∷ line_words words

-- Whitespace stands in front of the first word.
abbrev pub IsSpaced : List (List ℕ × List ℕ) → Type 0
IsSpaced [] = Unit
IsSpaced ((gap, word) ∷ words) = 0 < length gap

-- Words that are not empty, with whitespace between them.
abbrev pub ArePieces : List (List ℕ × List ℕ) → Type 0
ArePieces [] = Unit
ArePieces ((gap, word) ∷ words) =
    (AllWhite gap × (AllArg word × (0 < length word))) × (IsSpaced words × ArePieces words)

-- The places hold the words, each with a 0 behind it.
pub data AreArgs (buf : ℕ → ℕ) : List ℕ → List (List ℕ) → Type 0 where
  end : AreArgs buf [] []
  arg :
      {a : ℕ} {w : List ℕ} {args : List ℕ} {ws : List (List ℕ)}
      → Holds buf a w
      → buf (a + length w) ≡ 0
      → AreArgs buf args ws
      → AreArgs buf (a ∷ args) (w ∷ ws)

-- Behind a word the line has whitespace, or ends.
line-stops :
    (ps : List (List ℕ × List ℕ)) (trail : List ℕ) (i : ℕ) (buf : ℕ → ℕ)
    → IsSpaced ps
    → ArePieces ps
    → AllWhite trail
    → Holds buf i (line ps trail)
    → buf (i + length (line ps trail)) ≡ 0
    → goes_on (buf i) ≡ false
line-stops [] [] i buf spaced pieces white h z =
    let e : buf i ≡ 0 = ap buf (omega arith) ∙ z in ground arith
line-stops [] (x ∷ trail) i buf spaced pieces (wx, white) (e, h) z = ap goes_on e ∙ white-stops x wx
line-stops (([], word) ∷ ps) trail i buf spaced pieces white h z = absurd (omega arith)
line-stops ((x ∷ gap, word) ∷ ps) trail i buf spaced (((wx, _), _), _) white (e, h) z =
    ap goes_on e ∙ white-stops x wx

parse_args-end :
    (rounds room i i' : ℕ) (argv : List ℕ) (buf buf' : ℕ → ℕ)
    → gobble room i buf ≡ some (i', buf')
    → buf' i' ≡ 0
    → parse_args (suc rounds) room i argv buf ≡ some (parsed argv buf')
unfolding parse_args
parse_args-end rounds room i i' argv buf buf' run z =
    let e : (buf' i' == 0) ≡ true = ground arith in rw (parse_args, run, e) refl

parse_args-word :
    (rounds room i i' i'' : ℕ) (argv : List ℕ) (buf buf' : ℕ → ℕ)
    → gobble room i buf ≡ some (i', buf')
    → buf' i' ≢ 0
    → length argv < 15
    → scan_arg room i' buf' ≡ some i''
    → parse_args (suc rounds) room i argv buf ≡ parse_args rounds room i'' (argv ++ i' ∷ []) buf'
unfolding parse_args
parse_args-word rounds room i i' i'' argv buf buf' run nz few scan =
    let e : (buf' i' == 0) ≡ false = ground arith in
    let n : (length argv + 1 == maxargs) ≡ false = ground arith in
    rw (parse_args, run, e, n, scan) refl

-- What splitting from `i` on comes to: `argv` with the places of the words.
abbrev IsSplit : ℕ → ℕ → ℕ → List ℕ → (ℕ → ℕ) → List (List ℕ) → (ℕ → ℕ) → List ℕ → Type 0
IsSplit rounds room i argv buf words buf' args =
    (parse_args rounds room i argv buf ≡ some (parsed (argv ++ args) buf'))
    × (((k : ℕ) → k < i → buf' k ≡ buf k)
        × ((goes_on (buf i) ≡ false → buf' i ≡ 0) × AreArgs buf' args words))

parse_args_lem :
    (ps : List (List ℕ × List ℕ)) (trail : List ℕ) (rounds room i : ℕ) (argv : List ℕ) (buf : ℕ → ℕ)
    → ArePieces ps
    → AllWhite trail
    → Holds buf i (line ps trail)
    → buf (i + length (line ps trail)) ≡ 0
    → length (line ps trail) < room
    → length ps < rounds
    → length argv + length ps ≤ 15
    → (buf' : ℕ → ℕ) × (args : List ℕ) × IsSplit rounds room i argv buf (line_words ps) buf' args
parse_args_lem ps trail zero room i argv buf pieces white h z small enough few =
    absurd (omega arith)
parse_args_lem [] trail (suc rounds) room i argv buf pieces white h z small enough few =
    let stop : gobbled (buf (i + length trail)) ≡ false = ground arith in
    let (buf', run, same, zeros) = gobble_lem trail room i buf white h stop small in
    let at_end : buf' (i + length trail) ≡ 0 = same (i + length trail) (omega arith) ∙ z in
    (
      buf',
      [],
      (
        parse_args-end rounds room i (i + length trail) argv buf buf' run at_end
            ∙ ap (λ l. some (parsed l buf')) (sym (append-nil argv)),
        (
          (λ k p. same k (omega arith)),
          (
            (λ s. elim (Bool-cases (length trail == 0)) [
              | inl none_left ↦ let at : i ≡ i + length trail = ground arith in ap buf' at ∙ at_end
              | inr left ↦ zeros i (omega arith) (ground arith)
            ]),
            end,
          ),
        ),
      ),
    )
parse_args_lem ((gap, []) ∷ ps) trail (suc rounds) room i argv buf ((_, (_, long)), _) white h z
      small enough few =
    absurd (omega arith)
parse_args_lem ((gap, x ∷ w) ∷ ps) trail (suc rounds) room i argv buf
      ((gaps, (ax, _)), (spaced, pieces)) white h z small enough few =
    let word = x ∷ w in
    let rest = line ps trail in
    let gap_len = length-append gap (word ++ rest) in
    let word_len = length-append word rest in
    let (hgap, tail) = Holds-append buf i gap (word ++ rest) h in
    let (hword, hrest) = Holds-append buf (i + length gap) word rest tail in
    let stop : gobbled (buf (i + length gap)) ≡ false =
      ap gobbled hword.0 ∙ (arg-goes_on x ax.0).1 in
    let (buf1, run, same, zeros) = gobble_lem gap room i buf gaps hgap stop (omega arith) in
    let i1 = i + length gap in
    let i2 = i1 + length word in
    let hword1 = Holds-same buf buf1 i1 word hword (λ k p q. same k (inr p)) in
    let hrest1 = Holds-same buf buf1 i2 rest hrest (λ k p q. same k (inr (omega arith))) in
    let z1 : buf1 (i2 + length rest) ≡ 0 =
      let at : i2 + length rest ≡ i + length (line ((gap, word) ∷ ps) trail) = omega arith in
      same (i2 + length rest) (inr (omega arith)) ∙ ap buf at ∙ z in
    let stop1 : goes_on (buf1 i2) ≡ false =
      line-stops ps trail i2 buf1 spaced pieces white hrest1 z1 in
    let scan = scan_arg_lem word room i1 buf1 ax hword1 stop1 (omega arith) in
    let nz : buf1 i1 ≢ 0 = λ e. (ax.0).0 (sym hword1.0 ∙ e) in
    let more = length-append argv (i1 ∷ []) in
    let (buf', args, (out, (kept, (ended, are)))) =
      parse_args_lem ps trail rounds room i2 (argv ++ i1 ∷ []) buf1 pieces white hrest1 z1
        (omega arith) (omega arith) (omega arith) in
    (
      buf',
      i1 ∷ args,
      (
        parse_args-word rounds room i i1 i2 argv buf buf1 run nz (omega arith) scan
            ∙ out
            ∙ ap (λ l. some (parsed l buf')) (append_assoc argv (i1 ∷ []) args),
        (
          (λ k p. kept k (omega arith) ∙ same k (inl p)),
          (
            (λ s. elim (Bool-cases (length gap == 0)) [
              | inl no_gap ↦
                  let at : i1 ≡ i = ground arith in
                  let here : goes_on (buf i) ≡ true =
                    ap (λ j. goes_on (buf j)) (sym at)
                    ∙ ap goes_on hword.0
                    ∙ (arg-goes_on x ax.0).0 in
                  ground (arith, here, s)
              | inr some_gap ↦ kept i (omega arith) ∙ zeros i (omega arith) (ground arith)
            ]),
            arg (Holds-same buf1 buf' i1 word hword1 (λ k p q. kept k q)) (ended stop1) are,
          ),
        ),
      ),
    )

-- A line of at most 15 words, with any whitespace in front of, between and behind them, and a 0 at
-- its end is split: `argv` gets a place for each word, in order, where the word stands with a 0
-- behind it.
pub parse_args-words :
    (ps : List (List ℕ × List ℕ)) (trail : List ℕ) (room : ℕ) (buf : ℕ → ℕ)
    → ArePieces ps
    → AllWhite trail
    → Holds buf 0 (line ps trail)
    → buf (length (line ps trail)) ≡ 0
    → length (line ps trail) < room
    → length ps ≤ 15
    → (buf' : ℕ → ℕ) × (argv : List ℕ) × (parse_args 16 room 0 [] buf ≡ some (parsed argv buf'))
      × AreArgs buf' argv (line_words ps)
parse_args-words ps trail room buf pieces white h z small few =
    let at : 0 + length (line ps trail) ≡ length (line ps trail) = omega arith in
    let (buf', args, (run, (_, (_, are)))) =
      parse_args_lem ps trail 16 room 0 [] buf pieces white h (ap buf at ∙ z) small (omega arith)
        (omega arith) in
    (buf', args, run, are)
