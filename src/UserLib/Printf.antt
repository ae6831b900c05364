-- ===== src/UserLib/Printf.antt =====
-- user/lib/printf.c, and sys_puts of user/lib/fake_syscall.c, which hands a string to the kernel's
-- `dprintf`. The buffer of `printf` is the record of the kernel's: their fields and sizes are the
-- same. `output` is the array that `sys_puts` copies to, `junk` what the kernel's buffer holds.
pub mod Buffer
pub mod Gets
mod Tests
use cs.Prelude.{
  ℕ, zero, suc, ◌+◌, ◌-◌, ◌%◌, Bool, true, false, ◌||◌, Option, none, some, List, [], ◌∷◌, ◌++◌,
  ltb, ◌==◌, if◌then◌else◌, update, ◌>>=◌,
}
use cs.KernLib.Str.{Memory}
use cs.KernLib.Printfmt.Format.{Arg, text}
use cs.KernLib.Dprintf.{Dprintbuf, vdprintf, store_char, count, empty_buffer}
use cs.KernLib.Monitor.{bytes_from}
use cs.UserLib.Str.{strncpy}
use cs.UserLib.Printfmt.{vprintfmt}

abbrev pub max_buf : ℕ
max_buf = 512

-- "%s".
abbrev pub percent_s : List ℕ
percent_s = 37 ∷ 115 ∷ 0 ∷ []

-- The state is `output` and the console.
unfoldable pub sys_puts : (ℕ → ℕ) → List ℕ → ℕ → Memory × List ℕ → Option (Memory × List ℕ)
sys_puts junk s len (output, console) =
    let rlen = if ltb len 1023 then len else 1023 in
    elim (strncpy 0 s rlen output) [
      | none ↦ none
      | some output' ↦ elim (vdprintf percent_s (text (some s) ∷ []) junk console) [
        | none ↦ none
        | some (n, console') ↦ some (update output' rlen 0, console')
      ]
    ]

-- `b.buf[b.idx] = 0; puts(b.buf, b.idx)`.
unfoldable pub put_buffer : (ℕ → ℕ) → Dprintbuf × Memory → Option (Dprintbuf × Memory)
put_buffer junk (b, output) =
    let buf' = update b.buf b.idx 0 in
    elim (sys_puts junk (bytes_from max_buf 0 buf') b.idx (output, b.console)) [
      | none ↦ none
      | some (output', console') ↦ some (record b { buf = buf'; console = console' }, output')
    ]

unfoldable pub user_putch : (ℕ → ℕ) → ℕ → Dprintbuf × Memory → Option (Dprintbuf × Memory)
user_putch junk ch (b, output) =
    if b.idx + 1 == max_buf - 1
    then elim (put_buffer junk (store_char ch b, output)) [
      | none ↦ none
      | some (b', output') ↦ some (count (record b' { idx = 0 }), output')
    ]
    else some (count (store_char ch b), output)

unfoldable pub user_putch_all : (ℕ → ℕ) → List ℕ → Dprintbuf × Memory → Option (Dprintbuf × Memory)
user_putch_all junk [] s = some s
user_putch_all junk (ch ∷ out) s = elim (user_putch junk ch s) [
  | none ↦ none
  | some s' ↦ user_putch_all junk out s'
]

-- The count of the bytes, `output` and the console.
unfoldable pub vcprintf :
    (ℕ → ℕ) → List ℕ → List Arg → (ℕ → ℕ) → Memory × List ℕ → Option (ℕ × (Memory × List ℕ))
vcprintf junk fmt args buf (output, console) = elim (vprintfmt fmt args) [
  | none ↦ none
  | some out ↦ elim (user_putch_all junk out (empty_buffer buf console, output)) [
    | none ↦ none
    | some s ↦ elim (put_buffer junk s) [
      | none ↦ none
      | some (b, output') ↦ some (b.cnt, (output', b.console))
    ]
  ]
]

-- The loop of `gets`, for a `size` of at least 1, on what `getc` gives; a 0 is waited through.
-- `none` is a wait for more.
unfoldable pub gets_loop :
    (ℕ → ℕ) → List ℕ → ℕ → ℕ → (ℕ → ℕ) → Memory × List ℕ → Option ((ℕ → ℕ) × (Memory × List ℕ))
gets_loop junk [] num size buf s =
    if ltb num (size - 1) then none else some (update buf (size - 1) 0, s)
gets_loop junk (c ∷ keys) num size buf s = elim (ltb num (size - 1)) [
  | false ↦ some (update buf (size - 1) 0, s)
  | true ↦ elim (c == 0) [
    | true ↦ gets_loop junk keys num size buf s
    | false ↦ elim (sys_puts junk (c ∷ 0 ∷ []) 2 s) [
      | none ↦ none
      | some s' ↦ elim ((c == 10) || (c == 13)) [
        | true ↦ some (update buf num 0, s')
        | false ↦ gets_loop junk keys (num + 1) size (update buf num c) s'
      ]
    ]
  ]
]

unfoldable pub gets :
    (ℕ → ℕ) → List ℕ → ℕ → (ℕ → ℕ) → Memory × List ℕ → Option ((ℕ → ℕ) × (Memory × List ℕ))
gets junk keys size buf s = gets_loop junk keys 0 size buf s
