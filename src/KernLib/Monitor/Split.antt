-- ===== src/KernLib/Monitor/Split.antt =====
-- The two loops over the bytes of a command line.
use cs.Prelude.{
  ℕ, zero, suc, ◌+◌, ◌<◌, ◌≤◌, ◌≡◌, ◌≢◌, ◌⊎◌, ◌∙◌, refl, sym, ap, subst, inl, inr, Bool, true,
  false, ◌&&◌, not, some, List, [], ◌∷◌, ◌++◌, ◌==◌, update, length, arith, Bool-cases,
}
use cs.KernLib.Str.{strchr, strchr_from}
use cs.KernLib.Dprintf.Buffer.{Holds}
use cs.KernLib.Monitor.{is_whitespace, gobble, scan_arg}

abbrev pub AllWhite : List ℕ → Type 0
AllWhite [] = Unit
AllWhite (x ∷ xs) = (is_whitespace x ≡ true) × AllWhite xs

abbrev pub IsArgByte : ℕ → Type 0
IsArgByte x = (x ≢ 0) × (is_whitespace x ≡ false)

abbrev pub AllArg : List ℕ → Type 0
AllArg [] = Unit
AllArg (x ∷ xs) = IsArgByte x × AllArg xs

white-nonzero : (c : ℕ) → is_whitespace c ≡ true → c ≢ 0
unfolding is_whitespace strchr strchr_from
white-nonzero c h e =
    let at : is_whitespace 0 ≡ true = subst (λ c. is_whitespace c ≡ true) e h in ground (arith, at)

-- Neither a 0 nor whitespace: where a word goes on.
abbrev pub goes_on : ℕ → Bool
goes_on c = not (c == 0) && not (is_whitespace c)

abbrev pub gobbled : ℕ → Bool
gobbled c = not (c == 0) && is_whitespace c

white-gobbled : (c : ℕ) → is_whitespace c ≡ true → gobbled c ≡ true
white-gobbled c h = let nz = white-nonzero c h in ground arith

pub white-stops : (c : ℕ) → is_whitespace c ≡ true → goes_on c ≡ false
white-stops c h = let nz = white-nonzero c h in ground arith

pub arg-goes_on : (c : ℕ) → IsArgByte c → (goes_on c ≡ true) × (gobbled c ≡ false)
arg-goes_on c (nz, w) = ((ground arith), (ground arith))

pub Holds-same :
    (buf buf' : ℕ → ℕ) (i : ℕ) (xs : List ℕ)
    → Holds buf i xs
    → ((k : ℕ) → i ≤ k → k < i + length xs → buf' k ≡ buf k)
    → Holds buf' i xs
Holds-same buf buf' i [] h same = tt
Holds-same buf buf' i (x ∷ xs) (e, h) same = (
  same i (omega arith) (omega arith) ∙ e,
  Holds-same buf buf' (i + 1) xs h (λ k p q. same k (omega arith) (omega arith)),
)

pub Holds-append :
    (buf : ℕ → ℕ) (i : ℕ) (xs ys : List ℕ)
    → Holds buf i (xs ++ ys)
    → Holds buf i xs × Holds buf (i + length xs) ys
Holds-append buf i [] ys h = (tt, subst (λ j. Holds buf j ys) (omega arith) h)
Holds-append buf i (x ∷ xs) ys (e, h) =
    let (left, right) = Holds-append buf (i + 1) xs ys h in
    let at : i + 1 + length xs ≡ i + suc (length xs) = omega arith in
    ((e, left), subst (λ j. Holds buf j ys) at right)

pub gobble_lem :
    (g : List ℕ) (room i : ℕ) (buf : ℕ → ℕ)
    → AllWhite g
    → Holds buf i g
    → gobbled (buf (i + length g)) ≡ false
    → length g < room
    → (buf' : ℕ → ℕ) × (gobble room i buf ≡ some (i + length g, buf'))
      × ((k : ℕ) → (k < i) ⊎ (i + length g ≤ k) → buf' k ≡ buf k)
      × ((k : ℕ) → i ≤ k → k < i + length g → buf' k ≡ 0)
unfolding gobble
gobble_lem g zero i buf white h stop small = absurd (omega arith)
gobble_lem [] (suc room) i buf white h stop small =
    let at : i + 0 ≡ i = omega arith in
    let here : gobbled (buf i) ≡ false = ap (λ j. gobbled (buf j)) (sym at) ∙ stop in
    (buf, rw here (ap (λ j. some (j, buf)) (sym at)), (λ k p. refl), λ k p q. absurd (omega arith))
gobble_lem (x ∷ g) (suc room) i buf (wx, white) (e, h) stop small =
    let at : i + 1 + length g ≡ i + suc (length g) = omega arith in
    let here : gobbled (buf i) ≡ true = ap gobbled e ∙ white-gobbled x wx in
    let h' = Holds-same buf (update buf i 0) (i + 1) g h (λ k p q. ground arith) in
    let stop' : gobbled (update buf i 0 (i + 1 + length g)) ≡ false =
      let same : update buf i 0 (i + 1 + length g) ≡ buf (i + suc (length g)) =
        ground arith ∙ ap buf at in
      ap gobbled same ∙ stop in
    let (buf', run, same, zeros) =
      gobble_lem g room (i + 1) (update buf i 0) white h' stop' (omega arith) in
    (
      buf',
      rw here (run ∙ ap (λ j. some (j, buf')) at),
      (λ k p. same k (omega arith) ∙ ground arith),
      λ k p q. elim (Bool-cases (k == i)) [
        | inl e' ↦ same k (ground arith) ∙ ground arith
        | inr e' ↦ zeros k (ground arith) (omega arith)
      ],
    )

pub scan_arg_lem :
    (w : List ℕ) (room i : ℕ) (buf : ℕ → ℕ)
    → AllArg w
    → Holds buf i w
    → goes_on (buf (i + length w)) ≡ false
    → length w < room
    → scan_arg room i buf ≡ some (i + length w)
unfolding scan_arg
scan_arg_lem w zero i buf args h stop small = absurd (omega arith)
scan_arg_lem [] (suc room) i buf args h stop small =
    let at : i + 0 ≡ i = omega arith in
    let here : goes_on (buf i) ≡ false = ap (λ j. goes_on (buf j)) (sym at) ∙ stop in
    rw here (ap some (sym at))
scan_arg_lem (x ∷ w) (suc room) i buf (ax, args) (e, h) stop small =
    let at : i + 1 + length w ≡ i + suc (length w) = omega arith in
    let here : goes_on (buf i) ≡ true = ap goes_on e ∙ (arg-goes_on x ax).0 in
    let stop' : goes_on (buf (i + 1 + length w)) ≡ false = ap (λ j. goes_on (buf j)) at ∙ stop in
    rw here (scan_arg_lem w room (i + 1) buf args h stop' (omega arith) ∙ ap some at)
