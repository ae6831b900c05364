-- ===== src/KernLib/Printfmt/Vprintfmt/Decimal.antt =====
-- `%d` with a width.
use cs.Prelude.{
  ℕ, ◌+◌, ◌-◌, ◌*◌, ◌^◌, ◌<◌, ◌≡◌, ◌∙◌, refl, sym, ap, inl, inr, Bool, true, false, some, List, [],
  ◌∷◌, ◌++◌, ltb, ◌==◌, if◌then◌else◌, replicate, length, length-append, ◌>>=◌, arith, append_assoc,
  Bool-cases,
}
use cs.Prelude.Int.{pos}
use cs.KernLib.Printfmt.{printnum}
use cs.KernLib.Printfmt.Numeral.{hex_digit, IsNumeral, one, more, printnum_lem}
use cs.KernLib.Printfmt.Format.{
  Arg, word, Flags, no_flags, process_precision, end_field, reswitch, flag_case, print_case,
  is_digit, getint, signed_case,
}
use cs.KernLib.Printfmt.Vprintfmt.{escape, vprintfmt_from}
use cs.KernLib.Printfmt.Vprintfmt.Text.{vprintfmt_from-skip, vprintfmt_from-escape}

-- The flags behind the digits of a width.
abbrev width_flags : ℕ → Flags
width_flags w = record no_flags { field = some w }

escape-first :
    (octal : Bool) (d : ℕ) (tail : List ℕ) (args : List Arg) (k : ℕ)
    → 0 < d
    → d < 10
    → escape octal (hex_digit d ∷ tail) no_flags args k
      ≡ escape octal tail (width_flags d) args (k + 1)
unfolding escape flag_case end_field
escape-first octal d tail args k p h =
    let minus : (hex_digit d == 45) ≡ false = ground arith in
    let nought : (hex_digit d == 48) ≡ false = ground arith in
    let e : is_digit (hex_digit d) ≡ true = ground arith in
    let e' : hex_digit d - 48 ≡ d = ground arith in rw (escape, minus, nought, e, e') refl

escape-reswitch :
    (octal : Bool) (ch : ℕ) (fmt : List ℕ) (fl fl' : Flags) (args args' : List Arg) (k : ℕ)
    → flag_case ch (end_field ch fl) args ≡ reswitch fl' args'
    → escape octal (ch ∷ fmt) fl args k ≡ escape octal fmt fl' args' (k + 1)
unfolding escape
escape-reswitch octal ch fmt fl fl' args args' k e = rw (escape, e) refl

end_field-digit : (d w : ℕ) → d < 10 → end_field (hex_digit d) (width_flags w) ≡ width_flags w
unfolding end_field
end_field-digit d w h = let e : is_digit (hex_digit d) ≡ true = ground arith in rw e refl

flag_case-digit :
    (d w : ℕ) (args : List Arg)
    → d < 10
    → w * 10 + d + 48 < 0x8000_0000
    → flag_case (hex_digit d) (width_flags w) args ≡ reswitch (width_flags (w * 10 + d)) args
unfolding flag_case
flag_case-digit d w args h fits =
    let e : is_digit (hex_digit d) ≡ true = ground arith in
    let room : ltb (w * 10 + hex_digit d) 0x8000_0000 ≡ true = ground arith in
    let e' : w * 10 + hex_digit d - 48 ≡ w * 10 + d = ground arith in rw (e, room, e') refl

escape-next :
    (octal : Bool) (d w : ℕ) (tail : List ℕ) (args : List Arg) (k : ℕ)
    → d < 10
    → w * 10 + d + 48 < 0x8000_0000
    → escape octal (hex_digit d ∷ tail) (width_flags w) args k
      ≡ escape octal tail (width_flags (w * 10 + d)) args (k + 1)
escape-next octal d w tail args k h fits =
    escape-reswitch octal (hex_digit d) tail (width_flags w) (width_flags (w * 10 + d)) args args k
      (ap (λ fl. flag_case (hex_digit d) fl args) (end_field-digit d w h)
        ∙ flag_case-digit d w args h fits)

-- The digits of a width are read as the number that they stand for.
escape-numeral :
    {w : ℕ} {ws : List ℕ} (octal : Bool) (tail : List ℕ) (args : List Arg) (k : ℕ)
    → IsNumeral 10 w ws
    → 0 < w
    → w + 48 < 0x8000_0000
    → escape octal (ws ++ tail) no_flags args k
      ≡ escape octal tail (width_flags w) args (k + length ws)
escape-numeral octal tail args k (one {d} h) p fits = escape-first octal d tail args k p h
escape-numeral octal tail args k (more {n} {d} {ds} pos_n h numeral) p fits =
    ap (λ l. escape octal l no_flags args k) (append_assoc ds (hex_digit d ∷ []) tail)
    ∙ escape-numeral octal (hex_digit d ∷ tail) args k numeral pos_n (omega arith)
    ∙ escape-next octal d n tail args (k + length ds) h fits
    ∙ ap (escape octal tail (width_flags (n * 10 + d)) args)
        (let longer = length-append ds (hex_digit d ∷ []) in omega arith)

-- The magnitude and the sign of a 32-bit pattern.
abbrev pub magnitude : ℕ → ℕ
magnitude n = if ltb n 0x8000_0000 then n else 0x1_0000_0000 - n

abbrev pub sign : ℕ → List ℕ
sign n = if ltb n 0x8000_0000 then [] else 45 ∷ []

abbrev pub with_width : ℕ → Flags
with_width w = record no_flags { width = pos w }

-- A 32-bit pattern extended by its sign.
abbrev extended : ℕ → ℕ
extended n = if ltb n 0x8000_0000 then n else 0xffff_ffff_0000_0000 + n

signed_case_lem :
    (n w : ℕ) (out : List ℕ)
    → n < 0x1_0000_0000
    → printnum 64 (magnitude n) 10 (pos w) 32 ≡ some out
    → signed_case (extended n) (with_width w) ≡ some (sign n ++ out)
unfolding signed_case
signed_case_lem n w out bound run = elim (Bool-cases (ltb n 0x8000_0000)) [
  | inl small ↦
      let mag : magnitude n ≡ n = rw small refl in
      let positive : ltb n 0x8000_0000_0000_0000 ≡ true = ground arith in
      rw (small, signed_case, positive) (ap (λ m. printnum 64 m 10 (pos w) 32) (sym mag) ∙ run)
  | inr big ↦
      let mag : magnitude n ≡ 0x1_0000_0000 - n = rw big refl in
      let negative : ltb (0xffff_ffff_0000_0000 + n) 0x8000_0000_0000_0000 ≡ false = ground arith in
      let absolute : 0x1_0000_0000_0000_0000 - (0xffff_ffff_0000_0000 + n) ≡ 0x1_0000_0000 - n =
        ground arith in
      let printed = ap (λ m. printnum 64 m 10 (pos w) 32) (sym mag) ∙ run in
      rw (big, signed_case, negative, absolute, printed) refl
]

print_case-d :
    (octal : Bool) (n w : ℕ) (args : List Arg) (out : List ℕ)
    → n < 0x1_0000_0000
    → printnum 64 (magnitude n) 10 (pos w) 32 ≡ some out
    → print_case octal 100 (with_width w) (word n ∷ args) ≡ some (some (sign n ++ out, args))
unfolding print_case getint
print_case-d octal n w args out bound run = rw (signed_case_lem n w out bound run) refl

escape-d :
    (octal : Bool) (n w : ℕ) (fmt : List ℕ) (args : List Arg) (out : List ℕ) (k : ℕ)
    → n < 0x1_0000_0000
    → printnum 64 (magnitude n) 10 (pos w) 32 ≡ some out
    → escape octal (100 ∷ fmt) (width_flags w) (word n ∷ args) k
      ≡ some (record { out = sign n ++ out; args = args; taken = k + 1 })
unfolding escape flag_case end_field process_precision
escape-d octal n w fmt args out k bound run = rw (print_case-d octal n w args out bound run) refl

-- `%`, a width w of at most 2147483599, with which the reading of its digits does not overflow, and
-- `d` print a 32-bit `int`: a minus, if it is negative, then blanks that fill the digits up to w, and
-- the digits of its magnitude; what follows in the format comes behind.
pub vprintfmt-width_d :
    (octal : Bool) (n w : ℕ) (ws fmt : List ℕ) (args : List Arg)
    → n < 0x1_0000_0000
    → 0 < w
    → w + 48 < 0x8000_0000
    → IsNumeral 10 w ws
    → (ds : List ℕ) × IsNumeral 10 (magnitude n) ds
      × (vprintfmt_from octal 0 (37 ∷ (ws ++ 100 ∷ fmt)) (word n ∷ args) ≡ (
          vprintfmt_from octal 0 fmt args >>= λ out.
          some ((sign n ++ (replicate (w - length ds) 32 ++ ds)) ++ out)))
vprintfmt-width_d octal n w ws fmt args bound pos_w fits numeral =
    let small : magnitude n < 2 ^ 64 = ground arith in
    let (ds, run, digits) =
      printnum_lem 64 (magnitude n) 10 (pos w) 32 (omega arith) (omega arith) small (omega arith) in
    let printed = replicate (w - length ds) 32 ++ ds in
    let run_escape =
      escape-numeral octal (100 ∷ fmt) (word n ∷ args) 0 numeral pos_w fits
      ∙ escape-d octal n w fmt args printed (0 + length ws) bound run in
    let taken : 0 + length ws + 1 ≡ length (ws ++ 100 ∷ []) =
      (let longer = length-append ws (100 ∷ []) in omega arith) in
    let skipped : vprintfmt_from octal (0 + length ws + 1) (ws ++ 100 ∷ fmt) args
        ≡ vprintfmt_from octal 0 fmt args =
      ap (λ m. vprintfmt_from octal m (ws ++ 100 ∷ fmt) args) taken
      ∙ ap (λ l. vprintfmt_from octal (length (ws ++ 100 ∷ [])) l args)
          (sym (append_assoc ws (100 ∷ []) fmt))
      ∙ vprintfmt_from-skip octal (ws ++ 100 ∷ []) fmt args in
    (
      ds,
      digits,
      vprintfmt_from-escape octal (ws ++ 100 ∷ fmt) (word n ∷ args) run_escape
          ∙ ap (λ o. o >>= λ out. some ((sign n ++ printed) ++ out)) skipped,
    )
