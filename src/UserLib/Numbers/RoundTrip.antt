-- ===== src/UserLib/Numbers/RoundTrip.antt =====
-- `strtol` and `atoi` on what `printnum` prints.
use cs.Prelude.{
  ℕ, zero, suc, ◌+◌, ◌-◌, ◌*◌, ◌≤◌, ◌<◌, ◌≡◌, ◌≢◌, ◌⊎◌, ◌∙◌, refl, sym, ap, subst, inl, inr, Bool,
  true, false, ◌&&◌, none, some, List, [], ◌∷◌, ◌++◌, leb, ◌==◌, if◌then◌else◌, arith, Bool-cases,
  length, length-append, replicate, append_assoc, add32, mul32, sub32,
}
use cs.Prelude.Int.{ℤ, negsuc}
use native.Mathlib.Nat.{mul-le-mul_left}
use cs.KernLib.Printfmt.{printnum}
use cs.KernLib.Printfmt.Numeral.{hex_digit, IsNumeral, one, more, padding, printnum_lem}
use cs.UserLib.Numbers.{
  skip_blanks, skip_sign, skip_prefix, digit, strtol_digits, strtol, atoi_digits, atoi_finish, atoi,
}

digit-hex_digit : (d : ℕ) → d < 16 → digit (hex_digit d) ≡ some d
unfolding digit
digit-hex_digit d h = ground arith

strtol_digits-step :
    (d base val : ℕ) (tail : List ℕ)
    → base ≤ 16
    → d < base
    → val * base + d < 0x1_0000_0000
    → strtol_digits (hex_digit d ∷ tail) base val ≡ strtol_digits tail base (val * base + d)
unfolding strtol_digits
strtol_digits-step d base val tail hb h bound =
    let e : leb base d ≡ false = ground arith in
    let wrap : add32 (mul32 val base) d ≡ val * base + d = omega arith in
    rw (digit-hex_digit d (omega arith), strtol_digits, e, wrap) refl

strtol_digits-end :
    (x : ℕ) (rest : List ℕ) (base val : ℕ)
    → digit x ≡ none
    → strtol_digits (x ∷ rest) base val ≡ some (x ∷ rest, val)
unfolding strtol_digits
strtol_digits-end x rest base val e = rw (e, strtol_digits) refl

strtol_digits-numeral :
    {base num : ℕ} {ds : List ℕ} (tail : List ℕ)
    → base ≤ 16
    → IsNumeral base num ds
    → num < 0x1_0000_0000
    → strtol_digits (ds ++ tail) base 0 ≡ strtol_digits tail base num
strtol_digits-numeral {base} tail hb (one {d} h) bound =
    strtol_digits-step d base 0 tail hb h (omega arith) ∙ ap (strtol_digits tail base) (omega arith)
strtol_digits-numeral {base} tail hb (more {n} {d} {ds} pos_n h numeral) bound =
    let some_base : 1 ≤ base = omega arith in
    let below = mul-le-mul_left n some_base in
    ap (λ s. strtol_digits s base 0) (append_assoc ds (hex_digit d ∷ []) tail)
    ∙ strtol_digits-numeral (hex_digit d ∷ tail) hb numeral (omega arith)
    ∙ strtol_digits-step d base n tail hb h bound

-- A numeral starts with a digit, which is 0 only in the numeral of 0.
numeral-head :
    {base num : ℕ} {ds : List ℕ}
    → IsNumeral base num ds
    → (d : ℕ) × (ds' : List ℕ) × (ds ≡ hex_digit d ∷ ds')
      × (d < base)
      × ((0 < d) ⊎ ((num ≡ 0) × (ds' ≡ [])))
numeral-head (one {d} h) = elim (Bool-cases (d == 0)) [
  | inl z ↦ (d, [], refl, h, inr ((ground arith), refl))
  | inr nz ↦ (d, [], refl, h, inl (ground arith))
]
numeral-head (more {n} {d} {ds} pos_n h numeral) =
    let (d', ds', e, lt, or) = numeral-head numeral in
    (
      d',
      ds' ++ hex_digit d ∷ [],
      ap (λ s. s ++ hex_digit d ∷ []) e,
      lt,
      elim or [ inl p ↦ inl p | inr (z, _) ↦ absurd (omega arith) ],
    )

skip_blanks-digit :
    (d : ℕ) (s : List ℕ) → d < 16 → skip_blanks (hex_digit d ∷ s) ≡ some (hex_digit d ∷ s)
unfolding skip_blanks
skip_blanks-digit d s h = ground arith

skip_blanks-replicate : (k : ℕ) (s : List ℕ) → skip_blanks (replicate k 32 ++ s) ≡ skip_blanks s
unfolding skip_blanks
skip_blanks-replicate zero s = refl
skip_blanks-replicate (suc k) s = skip_blanks-replicate k s

skip_sign-digit :
    (d : ℕ) (s : List ℕ) → d < 16 → skip_sign (hex_digit d ∷ s) ≡ some (false, hex_digit d ∷ s)
unfolding skip_sign
skip_sign-digit d s h = ground arith

skip_prefix-two :
    (x y : ℕ) (s : List ℕ) (base : ℕ)
    → 0 < base
    → (x ≢ 48) ⊎ (y ≢ 120)
    → skip_prefix (x ∷ y ∷ s) base ≡ some (x ∷ y ∷ s, base)
unfolding skip_prefix
skip_prefix-two x y s base hb (inl h) = ground arith
skip_prefix-two x y s base hb (inr h) = ground arith

no_x : (x : ℕ) → digit x ≡ none → x ≢ 120
unfolding digit
no_x x e h = ground arith

skip_prefix-numeral :
    (d base : ℕ) (ds : List ℕ) (x : ℕ) (rest : List ℕ)
    → 0 < base
    → digit x ≡ none
    → d < 16
    → (0 < d) ⊎ (ds ≡ [])
    → skip_prefix (hex_digit d ∷ (ds ++ x ∷ rest)) base
      ≡ some (hex_digit d ∷ (ds ++ x ∷ rest), base)
skip_prefix-numeral d base [] x rest hb e h or =
    skip_prefix-two (hex_digit d) x rest base hb (inr (no_x x e))
skip_prefix-numeral d base (y ∷ ds) x rest hb e h (inl p) =
    skip_prefix-two (hex_digit d) y (ds ++ x ∷ rest) base hb (inl (ground arith))
skip_prefix-numeral d base (y ∷ ds) x rest hb e h (inr z) = absurd (cc z)

strtol-chain :
    (s : List ℕ) (base : ℕ) {t u : List ℕ} {neg : Bool} {b : ℕ} {end : List ℕ} {val : ℕ}
    → skip_blanks s ≡ some t
    → skip_sign t ≡ some (neg, u)
    → skip_prefix u base ≡ some (u, b)
    → strtol_digits u b 0 ≡ some (end, val)
    → strtol s base ≡ some (end, if neg then sub32 0 val else val)
unfolding strtol
strtol-chain s base blanks sign prefix digits = rw (blanks, sign, prefix, digits) refl

-- A numeral behind blanks, ended by a byte that is no digit.
strtol-numeral :
    {base num : ℕ} {ds : List ℕ} (k x : ℕ) (rest : List ℕ)
    → 2 ≤ base
    → base ≤ 16
    → num < 0x1_0000_0000
    → digit x ≡ none
    → IsNumeral base num ds
    → strtol (replicate k 32 ++ (ds ++ x ∷ rest)) base ≡ some (x ∷ rest, num)
strtol-numeral {base} {num} {ds} k x rest lo hi bound e numeral =
    let (d, ds', head, lt, or) = numeral-head numeral in
    let s = hex_digit d ∷ (ds' ++ x ∷ rest) in
    let same : ds ++ x ∷ rest ≡ s = ap (λ l. l ++ x ∷ rest) head in
    let read : strtol_digits s base 0 ≡ some (x ∷ rest, num) =
      ap (λ l. strtol_digits l base 0) (sym same)
      ∙ strtol_digits-numeral (x ∷ rest) hi numeral bound
      ∙ strtol_digits-end x rest base num e in
    let first : (0 < d) ⊎ (ds' ≡ []) = elim or [ inl p ↦ inl p | inr (_, z) ↦ inr z ] in
    ap (λ l. strtol (replicate k 32 ++ l) base) same
    ∙ strtol-chain (replicate k 32 ++ s) base
        (skip_blanks-replicate k s ∙ skip_blanks-digit d (ds' ++ x ∷ rest) (omega arith))
        (skip_sign-digit d (ds' ++ x ∷ rest) (omega arith))
        (skip_prefix-numeral d base ds' x rest (omega arith) e (omega arith) first) read

-- What `printnum` prints of a 32-bit number in a base from 2 to 16, at any width and padded with
-- blanks, `strtol` reads back in that base, up to the byte behind it, if that is no digit and no
-- letter.
pub strtol-printnum :
    (num base : ℕ) (width : ℤ) (x : ℕ) (rest : List ℕ)
    → 2 ≤ base
    → base ≤ 16
    → num < 0x1_0000_0000
    → digit x ≡ none
    → (out : List ℕ) × (printnum 64 num base width 32 ≡ some out)
      × (strtol (out ++ x ∷ rest) base ≡ some (x ∷ rest, num))
strtol-printnum num base width x rest lo hi bound e =
    let (ds, run, numeral) =
      printnum_lem 64 num base width 32 lo (omega arith) (omega arith) (omega arith) in
    let pads = padding width (length ds) in
    (
      replicate pads 32 ++ ds,
      run,
      ap (λ l. strtol l base) (append_assoc (replicate pads 32) ds (x ∷ rest))
          ∙ strtol-numeral pads x rest lo hi bound e numeral,
    )

atoi_digits-step :
    (d loc acc : ℕ) (s : List ℕ)
    → d < 10
    → acc * 10 + d < 0x1_0000_0000
    → atoi_digits (hex_digit d ∷ s) loc acc ≡ atoi_digits s (loc + 1) (acc * 10 + d)
unfolding atoi_digits
atoi_digits-step d loc acc s h bound =
    let e : leb 48 (hex_digit d) && leb (hex_digit d) 57 ≡ true = ground arith in
    let value : add32 (mul32 acc 10) (hex_digit d - 48) ≡ acc * 10 + d = ground arith in
    rw (atoi_digits, e, value) refl

atoi_digits-numeral :
    {num : ℕ} {ds : List ℕ} (loc : ℕ) (s : List ℕ)
    → IsNumeral 10 num ds
    → num < 0x1_0000_0000
    → atoi_digits (ds ++ s) loc 0 ≡ atoi_digits s (loc + length ds) num
atoi_digits-numeral loc s (one {d} h) bound =
    atoi_digits-step d loc 0 s h (omega arith) ∙ ap (λ n. atoi_digits s (loc + 1) n) (omega arith)
atoi_digits-numeral loc s (more {n} {d} {ds} pos_n h numeral) bound =
    ap (λ l. atoi_digits l loc 0) (append_assoc ds (hex_digit d ∷ []) s)
    ∙ atoi_digits-numeral loc (hex_digit d ∷ s) numeral (omega arith)
    ∙ atoi_digits-step d (loc + length ds) n s h bound
    ∙ ap (λ l. atoi_digits s l (n * 10 + d))
        (let longer = length-append ds (hex_digit d ∷ []) in omega arith)

atoi_digits-end :
    (x : ℕ) (rest : List ℕ) (loc acc : ℕ)
    → leb 48 x && leb x 57 ≡ false
    → atoi_digits (x ∷ rest) loc acc ≡ some (loc, acc)
unfolding atoi_digits
atoi_digits-end x rest loc acc e = rw (e, atoi_digits) refl

atoi-plain :
    (d : ℕ) (s : List ℕ) {loc acc : ℕ}
    → d < 10
    → 0 < loc
    → atoi_digits (hex_digit d ∷ s) 0 0 ≡ some (loc, acc)
    → atoi (hex_digit d ∷ s) ≡ some (some (loc, acc))
unfolding atoi atoi_finish
atoi-plain d s {loc} h p run =
    let plus : (hex_digit d == 43) ≡ false = ground arith in
    let minus : (hex_digit d == 45) ≡ false = ground arith in
    let some_digit : (0 == loc) ≡ false = ground arith in
    rw (atoi, plus, minus, run, some_digit) refl

atoi-minus :
    (s : List ℕ) {loc acc : ℕ}
    → 1 < loc
    → atoi_digits s 1 0 ≡ some (loc, acc)
    → atoi (45 ∷ s) ≡ some (some (loc, sub32 0 acc))
unfolding atoi atoi_finish
atoi-minus s {loc} p run =
    let some_digit : (1 == loc) ≡ false = ground arith in rw (run, some_digit) refl

-- What `printnum` prints of a 32-bit number in base 10 without a width, `atoi` reads back, up to
-- the byte behind it, if that is no digit; behind a minus it reads the two's complement.
pub atoi-printnum :
    (num w padc x : ℕ) (rest : List ℕ)
    → num < 0x1_0000_0000
    → leb 48 x && leb x 57 ≡ false
    → (out : List ℕ) × (printnum 64 num 10 (negsuc w) padc ≡ some out)
      × (atoi (out ++ x ∷ rest) ≡ some (some (length out, num)))
      × (atoi (45 ∷ (out ++ x ∷ rest)) ≡ some (some (suc (length out), sub32 0 num)))
atoi-printnum num w padc x rest bound e =
    let (ds, run, numeral) =
      printnum_lem 64 num 10 (negsuc w) padc (omega arith) (omega arith) (omega arith)
        (omega arith) in
    let (d, ds', head, lt, _) = numeral-head numeral in
    let some_length : 0 < length ds = subst (λ l. 0 < length l) (sym head) (omega arith) in
    let read = λ (loc : ℕ).
      atoi_digits-numeral loc (x ∷ rest) numeral bound
      ∙ atoi_digits-end x rest (loc + length ds) num e in
    (
      ds,
      run,
      subst (λ l. atoi (l ++ x ∷ rest) ≡ some (some (length ds, num))) (sym head)
          (atoi-plain d (ds' ++ x ∷ rest) lt some_length (
            ap (λ l. atoi_digits (l ++ x ∷ rest) 0 0) (sym head)
            ∙ read 0
            ∙ ap (λ k. some (k, num)) (omega arith))),
      atoi-minus (ds ++ x ∷ rest) (omega arith) (read 1 ∙ ap (λ k. some (k, num)) (omega arith)),
    )
