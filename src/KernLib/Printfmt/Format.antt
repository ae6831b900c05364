-- ===== src/KernLib/Printfmt/Format.antt =====
-- `vprintfmt` of kern/lib/printfmt.c, and of user/lib/printfmt.c, which differs from it in %o. The
-- result is what goes to `putch`; `none` is a read behind the end of a string or of the arguments,
-- or of an argument as another type, or a width that overflows. An `int`, a `long` and a pointer are `word`s of 32 bits.
use cs.Prelude.{
  ℕ, zero, suc, ◌+◌, ◌-◌, ◌*◌, Bool, true, false, not, ◌&&◌, ◌||◌, Option, none, some, List, [],
  ◌∷◌, ◌++◌, ltb, leb, ◌==◌, if◌then◌else◌, replicate, length, ◌>>=◌,
}
use cs.Prelude.Int.{ℤ, pos, negsuc, pos_part, ◌-ℤ◌}
use cs.KernLib.Str.{strnlen}
use cs.KernLib.Printfmt.{printnum}

-- `text none` is the null pointer.
pub data Arg : Type 0 where
  word : ℕ → Arg
  quad : ℕ → Arg
  text : Option (List ℕ) → Arg

-- The variables of one escape; `field` is the number that the loop over its digits has so far.
pub record Flags : Type 0 where
  pub padc : ℕ
  pub width : ℤ
  pub precision : ℤ
  pub lflag : ℕ
  pub altflag : Bool
  pub field : Option ℕ

abbrev pub no_flags : Flags
no_flags = record {
  padc = 32;
  width = negsuc 0;
  precision = negsuc 0;
  lflag = 0;
  altflag = false;
  field = none;
}

-- `process_precision`, for the number that `precision` holds there.
unfoldable pub process_precision : ℤ → Flags → Flags
process_precision p fl = elim fl.width [
  | negsuc n ↦ record fl { width = p; precision = negsuc 0; field = none }
  | pos n ↦ record fl { precision = p; field = none }
]

abbrev pub is_digit : ℕ → Bool
is_digit ch = leb 48 ch && leb ch 57

-- The end of the loop over the digits, at a byte that is none.
unfoldable pub end_field : ℕ → Flags → Flags
unfolding process_precision
end_field ch fl = elim fl.field [
  | some p ↦ if is_digit ch then fl else process_precision (pos p) fl
  | none ↦ fl
]

-- `va_arg(ap, int)` as a signed number.
abbrev pub signed32 : ℕ → ℤ
signed32 n = if ltb n 0x8000_0000 then pos n else negsuc (0x1_0000_0000 - n - 1)

-- What the switch does at a byte: go on in the escape, or print.
pub data Case : Type 0 where
  reswitch : Flags → List Arg → Case
  print : Case
  undefined : Case

-- `case '*'`.
unfoldable pub star_case : Flags → List Arg → Case
unfolding process_precision
star_case fl (word n ∷ args) = reswitch (process_precision (signed32 n) fl) args
star_case fl _ = undefined

-- The cases of the switch that go on in the escape. A number whose `precision * 10 + ch` does not
-- fit in an `int` is undefined.
unfoldable pub flag_case : ℕ → Flags → List Arg → Case
unfolding star_case
flag_case ch fl args = elim fl.field [
  | some p ↦
      if is_digit ch
      then (if ltb (p * 10 + ch) 0x8000_0000
          then reswitch (record fl { field = some (p * 10 + ch - 48) }) args
          else undefined)
      else print
  | none ↦
      if ch == 45
      then reswitch (record fl { padc = 45 }) args
      else if ch == 48
      then reswitch (record fl { padc = 48 }) args
      else if is_digit ch
      then reswitch (record fl { field = some (ch - 48) }) args
      else if ch == 42
      then star_case fl args
      else if ch == 46
      then (elim fl.width [
        | negsuc n ↦ reswitch (record fl { width = pos 0 }) args
        | pos n ↦ reswitch fl args
      ])
      else if ch == 35
      then reswitch (record fl { altflag = true }) args
      else if ch == 108
      then reswitch (record fl { lflag = fl.lflag + 1 }) args
      else print
]

-- The loop of `case 's'` over the text; `limit` is the precision, `none` when it is negative.
unfoldable pub print_text : Bool → List ℕ → Option ℕ → Option (List ℕ)
print_text alt [] limit = none
print_text alt (ch ∷ p) limit =
    let shown = if alt && (ltb ch 32 || ltb 126 ch) then 63 else ch in
    let unlimited = print_text alt p none >>= λ out. some (shown ∷ out) in
    if ch == 0 then some [] else elim limit [
      | none ↦ unlimited
      | some zero ↦ some []
      | some (suc k) ↦ print_text alt p (some k) >>= λ out. some (shown ∷ out)
    ]

-- `"(null)"`.
abbrev pub null_text : List ℕ
null_text = 40 ∷ 110 ∷ 117 ∷ 108 ∷ 108 ∷ 41 ∷ 0 ∷ []

abbrev pub limit_of : ℤ → Option ℕ
limit_of (pos n) = some n
limit_of (negsuc n) = none

-- The precision as the `size_t` that `strnlen` gets.
abbrev pub size_of : ℤ → ℕ
size_of (pos n) = n
size_of (negsuc n) = 0x1_0000_0000 - n - 1

-- `width` behind a loop that counts it down to 0.
abbrev pub used_up : ℤ → ℤ
used_up (pos n) = pos 0
used_up (negsuc n) = negsuc n

-- The pad bytes in front of the text, and the width behind their loop.
unfoldable pub pad_text : List ℕ → Flags → Option (List ℕ × ℤ)
unfolding strnlen
pad_text p fl =
    if ltb 0 (pos_part fl.width) && not (fl.padc == 45)
    then (strnlen p (size_of fl.precision) >>= λ n.
        let left = fl.width -ℤ pos n in some (replicate (pos_part left) fl.padc, used_up left))
    else some ([], fl.width)

-- `case 's'`, for the text that it prints.
unfoldable pub string_case : List ℕ → Flags → Option (List ℕ)
unfolding pad_text print_text
string_case p fl = do
  (pads, width) ← pad_text p fl
  out ← print_text fl.altflag p (limit_of fl.precision)
  some (pads ++ (out ++ replicate (pos_part (width -ℤ pos (length out))) 32))

-- `va_arg(ap, char *)`.
unfoldable pub text_arg : List Arg → Option (List ℕ × List Arg)
text_arg (text none ∷ args) = some (null_text, args)
text_arg (text (some p) ∷ args) = some (p, args)
text_arg _ = none

-- `va_arg(ap, int)`, or a pointer.
unfoldable pub word_arg : List Arg → Option (ℕ × List Arg)
word_arg (word n ∷ args) = some (n, args)
word_arg _ = none

-- `getuint`.
unfoldable pub getuint : ℕ → List Arg → Option (ℕ × List Arg)
getuint lflag (word n ∷ args) = if ltb lflag 2 then some (n, args) else none
getuint lflag (quad n ∷ args) = if ltb lflag 2 then none else some (n, args)
getuint lflag _ = none

-- `getint`: a word is extended by its sign to the pattern of a `long long`.
unfoldable pub getint : ℕ → List Arg → Option (ℕ × List Arg)
getint lflag (word n ∷ args) =
    if ltb lflag 2
    then some (if ltb n 0x8000_0000 then n else 0xffff_ffff_0000_0000 + n, args)
    else none
getint lflag (quad n ∷ args) = if ltb lflag 2 then none else some (n, args)
getint lflag _ = none

-- The label `number`.
abbrev pub number : ℕ → ℕ → Flags → Option (List ℕ)
number num base fl = printnum 64 num base fl.width fl.padc

-- `case 'd'`.
unfoldable pub signed_case : ℕ → Flags → Option (List ℕ)
signed_case num fl =
    if ltb num 0x8000_0000_0000_0000
    then number num 10 fl
    else number (0x1_0000_0000_0000_0000 - num) 10 fl >>= λ out. some (45 ∷ out)

-- The cases of the switch that print. `some none` is `default`.
unfoldable pub print_case : Bool → ℕ → Flags → List Arg → Option (Option (List ℕ × List Arg))
unfolding string_case text_arg word_arg getuint getint signed_case
print_case octal ch fl args =
    if ch == 99
    then (word_arg args >>= λ (n, rest). some (some (n ∷ [], rest)))
    else if ch == 115
    then (text_arg args >>= λ (p, rest). string_case p fl >>= λ out. some (some (out, rest)))
    else if ch == 100
    then (getint fl.lflag args >>= λ (n, rest). signed_case n fl >>= λ out. some (some (out, rest)))
    else if ch == 117
    then (getuint fl.lflag args >>= λ (n, rest). number n 10 fl >>= λ out. some (some (out, rest)))
    else if ch == 111
    then (if octal
        then (getuint fl.lflag args >>= λ (n, rest).
            number n 8 fl >>= λ out. some (some (out, rest)))
        else some (some (88 ∷ 88 ∷ 88 ∷ [], args)))
    else if ch == 112
    then (word_arg args >>= λ (n, rest).
        number n 16 fl >>= λ out. some (some (48 ∷ 120 ∷ out, rest)))
    else if ch == 120
    then (getuint fl.lflag args >>= λ (n, rest). number n 16 fl >>= λ out. some (some (out, rest)))
    else if ch == 37
    then some (some (37 ∷ [], args))
    else some none
