-- ===== src/Dev/Console.antt =====
-- kern/dev/console.c: the input buffer of the console and the line editor. What an interrupt
-- handler's `proc` returns before its -1 is a list of bytes. Debug output is left aside, and so
-- are the devices behind `putchar`, of which the bytes are kept.
pub mod Ring
pub mod Line
mod Tests
use cs.Prelude.{
  ℕ, zero, suc, ◌+◌, ◌-◌, Bool, true, false, not, ◌&&◌, ◌||◌, Option, none, some, List, [], ◌∷◌,
  ◌++◌, ltb, leb, ◌==◌, if◌then◌else◌, update,
}

abbrev pub console_buffer_size : ℕ
console_buffer_size = 512

pub record Cons : Type 0 where
  pub buf : ℕ → ℕ
  pub rpos : ℕ
  pub wpos : ℕ

-- `memset(&cons, 0, sizeof(cons))`.
abbrev pub cons_init : Cons
cons_init = record { buf = λ i. 0; rpos = 0; wpos = 0 }

-- A position one further, at the end back to the start.
abbrev pub next_pos : ℕ → ℕ
next_pos i = if i + 1 == console_buffer_size then 0 else i + 1

-- The body of the loop of `cons_intr`, for a byte.
unfoldable pub cons_put : ℕ → Cons → Cons
cons_put c s =
    if c == 0
    then s
    else record { buf = update s.buf s.wpos c; rpos = s.rpos; wpos = next_pos s.wpos }

unfoldable pub cons_intr : List ℕ → Cons → Cons
cons_intr [] s = s
cons_intr (c ∷ cs) s = cons_intr cs (cons_put c s)

-- The end of `cons_getc`, behind the two handlers.
unfoldable pub cons_take : Cons → ℕ × Cons
cons_take s =
    if not (s.rpos == s.wpos)
    then (s.buf s.rpos, record { buf = s.buf; rpos = next_pos s.rpos; wpos = s.wpos })
    else (0, s)

-- `serial` and `keyboard` are the bytes that `serial_intr` and `keyboard_intr` find.
unfoldable pub cons_getc : List ℕ → List ℕ → Cons → ℕ × Cons
unfolding cons_intr cons_take
cons_getc serial keyboard s = cons_take (cons_intr keyboard (cons_intr serial s))

-- Each round of the loop finds what has come to the devices by then; `none` is a loop that still
-- waits behind the rounds given.
unfoldable pub getchar : List (List ℕ × List ℕ) → Cons → Option (ℕ × Cons)
unfolding cons_getc
getchar [] s = none
getchar ((serial, keyboard) ∷ polls) s =
    let c = (cons_getc serial keyboard s).0 in
    let s' = (cons_getc serial keyboard s).1 in
    let rest = getchar polls s' in if c == 0 then rest else some (c, s')

abbrev pub buflen : ℕ
buflen = 1024

-- The variables of `readline`, and the bytes that it gave to `putchar`.
pub record Readline : Type 0 where
  pub i : ℕ
  pub linebuf : ℕ → ℕ
  pub echo : List ℕ

-- The backspace's branch.
abbrev pub rub_out : Readline → Readline
rub_out s = record { i = s.i - 1; linebuf = s.linebuf; echo = s.echo ++ 8 ∷ [] }

-- The branch of a byte that is typed.
abbrev pub type_in : ℕ → Readline → Readline
type_in c s = record { i = s.i + 1; linebuf = update s.linebuf s.i c; echo = s.echo ++ c ∷ [] }

-- The branch of the line's end.
abbrev pub end_line : Readline → Readline
end_line s = record { i = s.i; linebuf = update s.linebuf s.i 0; echo = s.echo ++ 10 ∷ [] }

-- The loop of `readline` on the bytes that `getchar` gives it. `none` is a loop that waits for
-- more, `some none` the null pointer of a read error: a byte from 128 on is a negative `char`.
unfoldable pub readline_loop : List ℕ → Readline → Option (Option Readline)
readline_loop [] s = none
readline_loop (c ∷ cs) s =
    let rubbed = readline_loop cs (rub_out s) in
    let typed = readline_loop cs (type_in c s) in
    let rest = readline_loop cs s in
    if leb 128 c
    then some none
    else if ((c == 8) || (c == 127)) && ltb 0 s.i
    then rubbed
    else if leb 32 c && ltb s.i (buflen - 1)
    then typed
    else if (c == 10) || (c == 13)
    then some (some (end_line s))
    else rest

unfoldable pub readline : List ℕ → (ℕ → ℕ) → Option (Option Readline)
unfolding readline_loop
readline keys linebuf = readline_loop keys (record { i = 0; linebuf = linebuf; echo = [] })
