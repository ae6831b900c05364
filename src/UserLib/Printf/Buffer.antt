-- ===== src/UserLib/Printf/Buffer.antt =====
-- From the user's `printf` to the console.
use cs.Prelude.{ℕ, ◌≡◌, refl, true, some, List, [], ◌∷◌, ◌++◌, ltb, if◌then◌else◌, update, length}
use cs.KernLib.Str.{Memory}
use cs.KernLib.Str.Compare.{IsText, ended}
use cs.KernLib.Printfmt.Format.{text}
use cs.KernLib.Printfmt.Vprintfmt.String.{vprintfmt-s}
use cs.KernLib.Printfmt.Vprintfmt as Kernel
use cs.KernLib.Dprintf.{Dprintbuf, vdprintf}
use cs.KernLib.Dprintf.Buffer.{IsBytes, vdprintf_lem}
use cs.UserLib.Str.{strncpy}
use cs.UserLib.Str.Copy.{strncpy_lem}
use cs.UserLib.Printfmt.{vprintfmt}
use cs.UserLib.Printf.{sys_puts, percent_s}

IsBytes-IsText : (xs : List ℕ) → IsBytes xs → IsText xs
IsBytes-IsText [] b = tt
IsBytes-IsText (x ∷ xs) ((nz, _), b) = (nz, IsBytes-IsText xs b)

kernel-prints :
    (xs more : List ℕ)
    → IsBytes xs
    → Kernel.vprintfmt percent_s (text (some (ended xs more)) ∷ []) ≡ some xs
unfolding Kernel.vprintfmt
kernel-prints xs more b = vprintfmt-s true xs more (IsBytes-IsText xs b)

sys_puts-some :
    (junk : ℕ → ℕ) (src : List ℕ) (len n : ℕ) (output output' : Memory) (console console' : List ℕ)
    → strncpy 0 src (if ltb len 1023 then len else 1023) output ≡ some output'
    → vdprintf percent_s (text (some src) ∷ []) junk console ≡ some (n, console')
    → sys_puts junk src len (output, console)
      ≡ some (update output' (if ltb len 1023 then len else 1023) 0, console')
unfolding sys_puts
sys_puts-some junk src len n output output' console console' c v = rw (sys_puts, c, v) refl

-- `sys_puts` brings a text to the console.
pub sys_puts_lem :
    (junk : ℕ → ℕ) (xs more : List ℕ) (len : ℕ) (output : Memory) (console : List ℕ)
    → IsBytes xs
    → (output' : Memory) × (sys_puts junk (ended xs more) len (output, console)
        ≡ some (output', console ++ xs))
sys_puts_lem junk xs more len output console b = (
  _,
  sys_puts-some junk (ended xs more) len (length xs) output _ console (console ++ xs)
      (strncpy_lem (if ltb len 1023 then len else 1023) 0 xs more output (IsBytes-IsText xs b))
      (vdprintf_lem percent_s (text (some (ended xs more)) ∷ []) junk console
        (kernel-prints xs more b) b),
)

with_console : Dprintbuf → List ℕ → Dprintbuf
with_console b console' = record b { buf = update b.buf b.idx 0; console = console' }
