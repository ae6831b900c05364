-- ===== src/KernLib/Dprintf/Buffer.antt =====
-- What the buffer of `dprintf` holds, and what has gone to the console.
use cs.Prelude.{
  ℕ, zero, suc, ◌+◌, ◌-◌, ◌%◌, ◌<◌, ◌≤◌, ◌≡◌, ◌≢◌, ◌∙◌, refl, sym, ap, subst, inl, inr, true, false,
  some, List, [], ◌∷◌, ◌++◌, ◌==◌, if◌then◌else◌, update, length, length-append, append_assoc,
  arith, Bool-cases,
}
use cs.KernLib.Printfmt.Format.{Arg}
use cs.KernLib.Printfmt.Vprintfmt.{vprintfmt}
use cs.KernLib.Dprintf.{
  Dprintbuf, cputs, flush, putch, putch_all, vdprintf, console_buffer_size, store_char, count,
  flush_full, empty_buffer,
}

-- Bytes as a `char` holds them, none of which is 0.
abbrev pub IsBytes : List ℕ → Type 0
IsBytes [] = Unit
IsBytes (x ∷ xs) = ((x ≢ 0) × (x < 256)) × IsBytes xs

-- The bytes stand in the buffer from a position on.
abbrev pub Holds : (ℕ → ℕ) → ℕ → List ℕ → Type 0
Holds buf i [] = Unit
Holds buf i (x ∷ xs) = (buf i ≡ x) × Holds buf (i + 1) xs

pub Holds-update :
    (buf : ℕ → ℕ) (i j v : ℕ) (xs : List ℕ)
    → Holds buf i xs
    → i + length xs ≤ j
    → Holds (update buf j v) i xs
Holds-update buf i j v [] h le = tt
Holds-update buf i j v (x ∷ xs) (e, h) le =
    ((ground arith), Holds-update buf (i + 1) j v xs h (omega arith))

pub Holds-snoc :
    (buf : ℕ → ℕ) (i x : ℕ) (xs : List ℕ)
    → Holds buf i xs
    → buf (i + length xs) ≡ x
    → Holds buf i (xs ++ x ∷ [])
Holds-snoc buf i x [] h e = (ap buf (omega arith) ∙ e, tt)
Holds-snoc buf i x (y ∷ ys) (e', h) e =
    let here : i + 1 + length ys ≡ i + suc (length ys) = omega arith in
    (e', Holds-snoc buf (i + 1) x ys h (ap buf here ∙ e))

IsBytes-snoc : (xs : List ℕ) (x : ℕ) → IsBytes xs → x ≢ 0 → x < 256 → IsBytes (xs ++ x ∷ [])
IsBytes-snoc [] x b nz lt = ((nz, lt), tt)
IsBytes-snoc (y ∷ ys) x (by, b) nz lt = (by, IsBytes-snoc ys x b nz lt)

-- `cputs` stops at the 0 behind the bytes.
cputs_lem :
    (n i : ℕ) (buf : ℕ → ℕ) (xs : List ℕ)
    → Holds buf i xs
    → IsBytes xs
    → buf (i + length xs) ≡ 0
    → length xs < n
    → cputs n i buf ≡ xs
unfolding cputs
cputs_lem zero i buf xs h b z lt = absurd (omega arith)
cputs_lem (suc n) i buf [] h b z lt =
    let here : buf i ≡ 0 = ap buf (omega arith) ∙ z in rw here refl
cputs_lem (suc n) i buf (x ∷ xs) (e, h) ((nz, _), b) z lt =
    let goes_on : (x == 0) ≡ false = ground arith in
    let here : i + 1 + length xs ≡ i + suc (length xs) = omega arith in
    let rest = cputs_lem n (i + 1) buf xs h b (ap buf here ∙ z) (omega arith) in
    rw (cputs, e, goes_on, rest) refl

-- What went to the console and what waits in the buffer are `all` bytes, in order.
abbrev pub IsBuffered : List ℕ → Dprintbuf → Type 0
IsBuffered all b =
    (waiting : List ℕ) × (Holds b.buf 0 waiting)
    × (IsBytes waiting)
    × (b.idx ≡ length waiting)
    × (b.console ++ waiting ≡ all)

pub flush_lem :
    (all : List ℕ) (b : Dprintbuf)
    → IsBuffered all b
    → b.idx < console_buffer_size
    → (flush b).console ≡ all
unfolding flush
flush_lem all b (waiting, holds, bytes, e, all_of) h =
    let whole =
      cputs_lem console_buffer_size 0 (update b.buf b.idx 0) waiting
        (Holds-update b.buf 0 b.idx 0 waiting holds (omega arith)) bytes (ground arith)
        (omega arith) in
    ap (λ l. b.console ++ l) whole ∙ all_of

pub store_char-IsBuffered :
    (all : List ℕ) (b : Dprintbuf) (ch : ℕ)
    → IsBuffered all b
    → ch ≢ 0
    → ch < 256
    → IsBuffered (all ++ ch ∷ []) (store_char ch b)
store_char-IsBuffered all b ch (waiting, holds, bytes, e, all_of) nz lt =
    let byte : ch % 256 ≡ ch = ground arith in
    let kept = Holds-update b.buf 0 b.idx (ch % 256) waiting holds (omega arith) in
    let longer = length-append waiting (ch ∷ []) in
    (
      waiting ++ ch ∷ [],
      Holds-snoc (update b.buf b.idx (ch % 256)) 0 ch waiting kept (ground arith),
      IsBytes-snoc waiting ch bytes nz lt,
      (omega arith),
      sym (append_assoc b.console waiting (ch ∷ [])) ∙ ap (λ l. l ++ ch ∷ []) all_of,
    )

pub append-nil : (xs : List ℕ) → xs ++ [] ≡ xs
append-nil [] = refl
append-nil (x ∷ xs) = ap (λ l. x ∷ l) (append-nil xs)

-- The invariant of `putch`.
abbrev pub IsRunning : List ℕ → ℕ → Dprintbuf → Type 0
IsRunning all n b = IsBuffered all b × ((b.idx < console_buffer_size - 1) × (b.cnt ≡ n))

pub flush-cnt : (b : Dprintbuf) → (flush b).cnt ≡ b.cnt
unfolding flush
flush-cnt b = refl

pub putch-full :
    (ch : ℕ) (b : Dprintbuf)
    → (b.idx + 1 == console_buffer_size - 1) ≡ true
    → putch ch b ≡ count (flush_full (store_char ch b))
unfolding putch
putch-full ch b e =
    ap (λ t. if t then count (flush_full (store_char ch b)) else count (store_char ch b)) e

pub putch-part :
    (ch : ℕ) (b : Dprintbuf)
    → (b.idx + 1 == console_buffer_size - 1) ≡ false
    → putch ch b ≡ count (store_char ch b)
unfolding putch
putch-part ch b e =
    ap (λ t. if t then count (flush_full (store_char ch b)) else count (store_char ch b)) e

pub putch-IsRunning :
    (all : List ℕ) (n ch : ℕ) (b : Dprintbuf)
    → IsRunning all n b
    → ch ≢ 0
    → ch < 256
    → IsRunning (all ++ ch ∷ []) (n + 1) (putch ch b)
putch-IsRunning all n ch b (buffered, (room, e)) nz lt =
    let stored = store_char-IsBuffered all b ch buffered nz lt in
    elim (Bool-cases (b.idx + 1 == console_buffer_size - 1)) [
      | inl full ↦
          let whole = flush_lem (all ++ ch ∷ []) (store_char ch b) stored (omega arith) in
          subst (IsRunning (all ++ ch ∷ []) (n + 1)) (sym (putch-full ch b full)) (
            ([], tt, tt, refl, append-nil (flush (store_char ch b)).console ∙ whole),
            ((omega arith), (omega (arith, flush-cnt (store_char ch b)))),
          )
      | inr part ↦
          subst (IsRunning (all ++ ch ∷ []) (n + 1)) (sym (putch-part ch b part))
            (stored, ((ground arith), (omega arith)))
    ]

pub putch_all-IsRunning :
    (out all : List ℕ) (n : ℕ) (b : Dprintbuf)
    → IsRunning all n b
    → IsBytes out
    → IsRunning (all ++ out) (n + length out) (putch_all out b)
unfolding putch_all
putch_all-IsRunning [] all n b (buffered, (room, e)) bytes =
    subst (λ l. IsRunning l (n + 0) b) (sym (append-nil all)) (buffered, (room, (omega arith)))
putch_all-IsRunning (ch ∷ out) all n b running ((nz, lt), bytes) =
    let one_more : n + 1 + length out ≡ n + suc (length out) = omega arith in
    let rest =
      putch_all-IsRunning out (all ++ ch ∷ []) (n + 1) (putch ch b)
        (putch-IsRunning all n ch b running nz lt) bytes in
    subst (λ l. IsRunning l (n + suc (length out)) (putch_all (ch ∷ out) b))
      (append_assoc all (ch ∷ []) out)
      (subst (λ m. IsRunning ((all ++ ch ∷ []) ++ out) m (putch_all out (putch ch b))) one_more
        rest)

pub vdprintf-some :
    (fmt : List ℕ) (args : List Arg) (buf : ℕ → ℕ) (console : List ℕ) (out : List ℕ)
    → vprintfmt fmt args ≡ some out
    → vdprintf fmt args buf console
      ≡ (let b = flush (putch_all out (empty_buffer buf console)) in some (b.cnt, b.console))
unfolding vdprintf
vdprintf-some fmt args buf console out run = rw run refl

-- Bytes other than 0 that `vprintfmt` prints, `vdprintf` brings to the console, whole and in
-- order, and counts.
pub vdprintf_lem :
    (fmt : List ℕ) (args : List Arg) (buf : ℕ → ℕ) (console : List ℕ) {out : List ℕ}
    → vprintfmt fmt args ≡ some out
    → IsBytes out
    → vdprintf fmt args buf console ≡ some (length out, console ++ out)
vdprintf_lem fmt args buf console {out} run bytes =
    let start = empty_buffer buf console in
    let end = putch_all out start in
    let (buffered, (room, e)) =
      putch_all-IsRunning out console 0 start
        (([], tt, tt, refl, append-nil console), ((omega arith), refl)) bytes in
    let all_of = flush_lem (console ++ out) end buffered (omega arith) in
    let counted : (flush end).cnt ≡ length out = flush-cnt end ∙ e ∙ omega arith in
    vdprintf-some fmt args buf console out run
    ∙ ap (λ n. some (n, (flush end).console)) counted
    ∙ ap (λ l. some (length out, l)) all_of
