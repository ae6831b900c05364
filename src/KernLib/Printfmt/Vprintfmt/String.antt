-- ===== src/KernLib/Printfmt/Vprintfmt/String.antt =====
-- The conversion %s.
use mathlib.Core.List.{append-nil}
use cs.Prelude.{
  ℕ, ◌≡◌, ◌∙◌, refl, ap, Bool, false, none, some, List, [], ◌∷◌, ◌++◌, ◌==◌, arith, length,
  replicate,
}
use cs.Prelude.Int.{pos, negsuc, pos_part, ◌-ℤ◌}
use cs.KernLib.Str.Compare.{IsText, ended}
use cs.KernLib.Printfmt.Format.{text, no_flags, print_text, pad_text, string_case}
use cs.KernLib.Printfmt.Vprintfmt.{vprintfmt_from, escape}

print_text-text : (xs junk : List ℕ) → IsText xs → print_text false (ended xs junk) none ≡ some xs
unfolding print_text
print_text-text [] junk t = refl
print_text-text (x ∷ xs) junk (nz, t) =
    let e : (x == 0) ≡ false = ground arith in rw (e, print_text-text xs junk t) refl

string_case-text : (xs junk : List ℕ) → IsText xs → string_case (ended xs junk) no_flags ≡ some xs
unfolding string_case pad_text ◌-ℤ◌
string_case-text xs junk t =
    let full : pos_part (negsuc 0 -ℤ pos (length xs)) ≡ 0 = ground arith in
    rw (print_text-text xs junk t)
      (ap (λ k. some (xs ++ replicate k 32)) full ∙ ap some (append-nil xs))

-- %s prints a text that ends within its object.
pub vprintfmt-s :
    (octal : Bool) (xs junk : List ℕ)
    → IsText xs
    → vprintfmt_from octal 0 (37 ∷ 115 ∷ 0 ∷ []) (text (some (ended xs junk)) ∷ []) ≡ some xs
unfolding vprintfmt_from escape
vprintfmt-s octal xs junk t = rw (string_case-text xs junk t) (ap some (append-nil xs))
