-- ===== src/KernLib/Printfmt/Vprintfmt.antt =====
-- The loops of `vprintfmt` over the format string. Both libraries' versions are one definition,
-- which is told whether %o prints a number.
pub mod Text
pub mod Decimal
pub mod String
use cs.Prelude.{
  ℕ, zero, suc, ◌+◌, ◌-◌, ◌*◌, ◌<◌, ◌≡◌, ◌≢◌, ◌∙◌, refl, sym, ap, Bool, true, false, not, ◌&&◌,
  ◌||◌, Option, none, some, List, [], ◌∷◌, ◌++◌, ltb, leb, ◌==◌, if◌then◌else◌, replicate, length,
  ◌>>=◌, arith, append_assoc, Bool-cases,
}
use cs.Prelude.Int.{ℤ, pos, negsuc}
use cs.KernLib.Str.Compare.{IsText, ended}
use cs.KernLib.Printfmt.{printnum}
use cs.KernLib.Printfmt.Numeral.{IsNumeral, printnum_lem}
use cs.KernLib.Printfmt.Format.{
  Arg, word, quad, text, Flags, no_flags, end_field, reswitch, print, undefined, flag_case,
  print_case, is_digit, getint, signed_case, number,
}

-- What an escape prints, the arguments that are left, and how many bytes it takes behind its '%'.
pub record Escape : Type 0 where
  out : List ℕ
  args : List Arg
  taken : ℕ

-- From `reswitch` on, with the number of bytes read. `default` prints the '%' and goes back to
-- the byte behind it.
unfoldable pub escape : Bool → List ℕ → Flags → List Arg → ℕ → Option Escape
unfolding end_field flag_case print_case
escape octal [] fl args n = none
escape octal (ch ∷ fmt) fl args n = elim (flag_case ch (end_field ch fl) args) [
  | reswitch fl' args' ↦ escape octal fmt fl' args' (n + 1)
  | undefined ↦ none
  | print ↦ print_case octal ch (end_field ch fl) args >>= λ r. elim r [
    | some (out, rest) ↦ some (record { out = out; args = rest; taken = n + 1 })
    | none ↦ some (record { out = 37 ∷ []; args = args; taken = 0 })
  ]
]

-- `vprintfmt`, first past the bytes that an escape has taken.
unfoldable pub vprintfmt_from : Bool → ℕ → List ℕ → List Arg → Option (List ℕ)
unfolding escape
vprintfmt_from octal skip [] args = none
vprintfmt_from octal (suc skip) (ch ∷ fmt) args = vprintfmt_from octal skip fmt args
vprintfmt_from octal zero (ch ∷ fmt) args = elim (ch == 37) [
  | true ↦ escape octal fmt no_flags args 0 >>= λ e.
      vprintfmt_from octal e.taken fmt e.args >>= λ out. some (e.out ++ out)
  | false ↦ elim (ch == 0) [
    | true ↦ some []
    | false ↦ vprintfmt_from octal 0 fmt args >>= λ out. some (ch ∷ out)
  ]
]

unfoldable pub vprintfmt : List ℕ → List Arg → Option (List ℕ)
unfolding vprintfmt_from
vprintfmt fmt args = vprintfmt_from true 0 fmt args
