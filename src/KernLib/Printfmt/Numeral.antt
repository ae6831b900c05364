-- ===== src/KernLib/Printfmt/Numeral.antt =====
-- What `printnum` prints: padding and a numeral.
use cs.Prelude.{
  ℕ, zero, suc, ◌+◌, ◌-◌, ◌*◌, ◌/◌, ◌%◌, ◌^◌, ◌≤◌, ◌<◌, ◌≡◌, ◌∙◌, refl, sym, ap, subst, inl, inr,
  true, false, some, List, [], ◌∷◌, ◌++◌, leb, ltb, ◌==◌, Option, if◌then◌else◌, Bool, none, passes,
  passes-at, arith, Bool-cases, length, length-append, replicate, append_assoc,
}
use cs.Prelude.Int.{ℤ, pos, negsuc}
use native.Mathlib.Nat.{
  mod-eq_of_lt, mod-lt, div-mul-le_self, mul-le-mul_left, le-div_iff_mul-le, div-add-mod',
}
use cs.KernLib.Printfmt.{hex_char, pred_width, pad_count, printnum}

-- The character of a digit below 16.
abbrev pub hex_digit : ℕ → ℕ
hex_digit k = if ltb k 10 then 48 + k else 87 + k

abbrev holds : Option ℕ → ℕ → Bool
holds (some c) d = c == d
holds none d = false

holds-some : (o : Option ℕ) (d : ℕ) → holds o d ≡ true → o ≡ some d
holds-some (some c) d h = let e : c ≡ d = ground arith in ap some e
holds-some none d h = absurd (ground arith)

-- Checked at each of the sixteen.
hex_char-hex_digit : (k : ℕ) → k < 16 → hex_char k ≡ some (hex_digit k)
unfolding passes hex_char
hex_char-hex_digit k h =
    let table : passes (λ i. holds (hex_char i) (hex_digit i)) 16 ≡ true = refl in
    holds-some (hex_char k) (hex_digit k)
      (passes-at (λ i. holds (hex_char i) (hex_digit i)) 16 k table h)

-- The numerals of a base, without a leading 0.
pub data IsNumeral (base : ℕ) : ℕ → List ℕ → Type 0 where
  one : {d : ℕ} → d < base → IsNumeral base d (hex_digit d ∷ [])
  more :
      {n d : ℕ} {ds : List ℕ}
      → 0 < n
      → d < base
      → IsNumeral base n ds
      → IsNumeral base (n * base + d) (ds ++ hex_digit d ∷ [])

-- The number of pad bytes for a number of digits: what the width has left.
abbrev pub padding : ℤ → ℕ → ℕ
padding (pos n) digits = n - digits
padding (negsuc n) digits = 0

printnum-one :
    (fuel num base : ℕ) (width : ℤ) (padc : ℕ)
    → base ≤ 16
    → num < base
    → printnum (suc fuel) num base width padc
      ≡ some (replicate (pad_count width) padc ++ hex_digit num ∷ [])
unfolding printnum
printnum-one fuel num base width padc top h =
    let e : leb base num ≡ false = ground arith in
    let m : num % base ≡ num = mod-eq_of_lt h in
    rw (e, printnum, m, hex_char-hex_digit num (omega arith)) refl

printnum-more :
    (fuel num base : ℕ) (width : ℤ) (padc : ℕ) {out : List ℕ}
    → 2 ≤ base
    → base ≤ 16
    → base ≤ num
    → printnum fuel (num / base) base (pred_width width) padc ≡ some out
    → printnum (suc fuel) num base width padc ≡ some (out ++ hex_digit (num % base) ∷ [])
unfolding printnum
printnum-more fuel num base width padc least top h run =
    let e : leb base num ≡ true = ground arith in
    let below : num % base < base = mod-lt num (omega arith) in
    rw (e, printnum, run, hex_char-hex_digit (num % base) (omega (arith, below))) refl

padding-pred : (width : ℤ) (n : ℕ) → padding (pred_width width) n ≡ padding width (n + 1)
padding-pred (pos zero) n = omega arith
padding-pred (pos (suc w)) n = omega arith
padding-pred (negsuc w) n = refl

pad_count-padding : (width : ℤ) → pad_count width ≡ padding width 1
pad_count-padding (pos n) = refl
pad_count-padding (negsuc n) = refl

pub div-lt_half : (num base k : ℕ) → 2 ≤ base → num < 2 * k → num / base < k
div-lt_half num base k hb h =
    let twice = mul-le-mul_left (num / base) hb in
    let below = div-mul-le_self num base in omega arith

pub fuel-pos : (fuel : ℕ) {n : ℕ} → n < 2 ^ fuel → 0 < n → 0 < fuel
fuel-pos zero h p = absurd (omega arith)
fuel-pos (suc fuel) h p = omega arith

pub div-pos : (num base : ℕ) → 0 < base → base ≤ num → 0 < num / base
div-pos num base hb h = (le-div_iff_mul-le {k = base} {x = 1} {y = num} hb).1 (omega arith)

-- In a base from 2 to 16, with fuel for its binary digits, a number is printed: as its numeral,
-- behind as many pad bytes as make up the width.
pub printnum_lem :
    (fuel num base : ℕ) (width : ℤ) (padc : ℕ)
    → 2 ≤ base
    → base ≤ 16
    → num < 2 ^ fuel
    → 0 < fuel
    → (ds : List ℕ) × (printnum fuel num base width padc
        ≡ some (replicate (padding width (length ds)) padc ++ ds))
      × IsNumeral base num ds
printnum_lem zero num base width padc hb top h hf = absurd (omega arith)
printnum_lem (suc fuel) num base width padc hb top h hf = elim (Bool-cases (leb base num)) [
  | inl big ↦
      let le : base ≤ num = ground arith in
      let half : num / base < 2 ^ fuel = div-lt_half num base (2 ^ fuel) hb (omega arith) in
      let some_left = div-pos num base (omega arith) le in
      let (ds, run, numeral) =
        printnum_lem fuel (num / base) base (pred_width width) padc hb top half
          (fuel-pos fuel half some_left) in
      let pads = padding (pred_width width) (length ds) in
      (
        ds ++ hex_digit (num % base) ∷ [],
        printnum-more fuel num base width padc hb top le run
            ∙ ap some (append_assoc (replicate pads padc) ds (hex_digit (num % base) ∷ []))
            ∙ ap (λ k. some (replicate k padc ++ (ds ++ hex_digit (num % base) ∷ [])))
                (padding-pred width (length ds)
                  ∙ ap (padding width) (sym (length-append ds (hex_digit (num % base) ∷ [])))),
        subst (λ k. IsNumeral base k (ds ++ hex_digit (num % base) ∷ [])) (div-add-mod' num base)
            (more some_left (mod-lt num (omega arith)) numeral),
      )
  | inr small ↦
      let lt : num < base = ground arith in
      (
        hex_digit num ∷ [],
        printnum-one fuel num base width padc top lt
            ∙ ap (λ k. some (replicate k padc ++ hex_digit num ∷ [])) (pad_count-padding width),
        one lt,
      )
]
