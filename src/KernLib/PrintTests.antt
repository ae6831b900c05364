-- ===== src/KernLib/PrintTests.antt =====
-- Formatted output at examples.
use cs.Prelude.{ℕ, ◌-◌, ◌≡◌, refl, true, some, List, [], ◌∷◌, ◌++◌, arith, length, replicate, ◌>>=◌}
use cs.KernLib.Printfmt.Format.{word}
use cs.KernLib.Printfmt.Numeral.{IsNumeral, one}
use cs.KernLib.Printfmt.Vprintfmt.{vprintfmt, vprintfmt_from}
use cs.KernLib.Printfmt.Vprintfmt.Decimal.{vprintfmt-width_d}

vprintfmt-width_d_example :
    (ds : List ℕ) × IsNumeral 10 42 ds
    × (vprintfmt_from true 0 (37 ∷ 53 ∷ 100 ∷ 0 ∷ []) (word 0xffff_ffd6 ∷ []) ≡ (
        vprintfmt_from true 0 (0 ∷ []) [] >>= λ out.
        some ((45 ∷ [] ++ (replicate (5 - length ds) 32 ++ ds)) ++ out)))
vprintfmt-width_d_example =
    vprintfmt-width_d true 0xffff_ffd6 5 (53 ∷ []) (0 ∷ []) [] (omega arith) (omega arith)
      (omega arith) (one (omega arith))

plain_run : vprintfmt (97 ∷ 98 ∷ 0 ∷ []) [] ≡ some (97 ∷ 98 ∷ [])
unfolding vprintfmt
plain_run = refl
