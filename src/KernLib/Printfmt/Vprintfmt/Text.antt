-- ===== src/KernLib/Printfmt/Vprintfmt/Text.antt =====
-- The loops of `vprintfmt` on text, and past an escape.
use cs.Prelude.{
  ℕ, ◌≡◌, ◌≢◌, ◌∙◌, refl, ap, Bool, false, Option, none, some, List, [], ◌∷◌, ◌++◌, ◌==◌, length,
  ◌>>=◌, arith,
}
use cs.KernLib.Printfmt.Format.{Arg, no_flags}
use cs.KernLib.Printfmt.Vprintfmt.{Escape, escape, vprintfmt_from}

-- No byte is 0 or '%'.
abbrev pub IsPlain : List ℕ → Type 0
IsPlain [] = Unit
IsPlain (x ∷ xs) = ((x ≢ 0) × (x ≢ 37)) × IsPlain xs

vprintfmt_from-byte :
    (octal : Bool) (x : ℕ) (fmt : List ℕ) (args : List Arg)
    → x ≢ 0
    → x ≢ 37
    → vprintfmt_from octal 0 (x ∷ fmt) args
      ≡ (vprintfmt_from octal 0 fmt args >>= λ out. some (x ∷ out))
unfolding vprintfmt_from
vprintfmt_from-byte octal x fmt args nul percent =
    let e : (x == 37) ≡ false = ground arith in
    let e' : (x == 0) ≡ false = ground arith in rw (vprintfmt_from, e, e') refl

bind-cons :
    (x : ℕ) (xs : List ℕ) (o : Option (List ℕ))
    → ((o >>= λ out. some (xs ++ out)) >>= λ out. some (x ∷ out))
      ≡ (o >>= λ out. some ((x ∷ xs) ++ out))
bind-cons x xs none = refl
bind-cons x xs (some out) = refl

bind-some : (o : Option (List ℕ)) → o ≡ (o >>= λ out. some out)
bind-some none = refl
bind-some (some out) = refl

-- Text without a 0 or a '%' is printed as it stands, in front of what the rest of the format prints.
pub vprintfmt_from-plain :
    (octal : Bool) (xs fmt : List ℕ) (args : List Arg)
    → IsPlain xs
    → vprintfmt_from octal 0 (xs ++ fmt) args
      ≡ (vprintfmt_from octal 0 fmt args >>= λ out. some (xs ++ out))
vprintfmt_from-plain octal [] fmt args p = bind-some (vprintfmt_from octal 0 fmt args)
vprintfmt_from-plain octal (x ∷ xs) fmt args ((nul, percent), p) =
    vprintfmt_from-byte octal x (xs ++ fmt) args nul percent
    ∙ ap (λ o. o >>= λ out. some (x ∷ out)) (vprintfmt_from-plain octal xs fmt args p)
    ∙ bind-cons x xs (vprintfmt_from octal 0 fmt args)

pub vprintfmt_from-skip :
    (octal : Bool) (xs fmt : List ℕ) (args : List Arg)
    → vprintfmt_from octal (length xs) (xs ++ fmt) args ≡ vprintfmt_from octal 0 fmt args
unfolding vprintfmt_from
vprintfmt_from-skip octal [] fmt args = refl
vprintfmt_from-skip octal (x ∷ xs) fmt args = vprintfmt_from-skip octal xs fmt args

pub vprintfmt_from-escape :
    (octal : Bool) (fmt : List ℕ) (args : List Arg) {e : Escape}
    → escape octal fmt no_flags args 0 ≡ some e
    → vprintfmt_from octal 0 (37 ∷ fmt) args
      ≡ (vprintfmt_from octal e.taken fmt e.args >>= λ out. some (e.out ++ out))
unfolding vprintfmt_from
vprintfmt_from-escape octal fmt args run = rw (run, vprintfmt_from) refl
