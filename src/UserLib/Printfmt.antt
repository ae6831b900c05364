-- ===== src/UserLib/Printfmt.antt =====
-- `vprintfmt` and the functions that print to memory, of user/lib/printfmt.c. %o prints "XXX"
-- there: no build file of the tree defines SOL.
pub mod Sprintf
use cs.Prelude.{
  ℕ, zero, suc, ◌+◌, ◌-◌, ◌%◌, Bool, true, false, Option, none, some, List, [], ◌∷◌, ltb,
  if◌then◌else◌, update, ◌>>=◌,
}
use cs.KernLib.Str.{Memory}
use cs.KernLib.Printfmt.Format.{Arg}
use cs.KernLib.Printfmt.Vprintfmt.{vprintfmt_from}

unfoldable pub vprintfmt : List ℕ → List Arg → Option (List ℕ)
vprintfmt fmt args = vprintfmt_from false 0 fmt args

-- `buf` and `ebuf` are addresses.
pub record Sprintbuf : Type 0 where
  buf : ℕ
  ebuf : ℕ
  cnt : ℕ
  mem : Memory

abbrev pub count_byte : Sprintbuf → Sprintbuf
count_byte b = record b { cnt = b.cnt + 1 }

abbrev pub store_byte : ℕ → Sprintbuf → Sprintbuf
store_byte ch b = record b { buf = b.buf + 1; mem = update b.mem b.buf (ch % 256) }

unfoldable pub sprintputch : ℕ → Sprintbuf → Sprintbuf
sprintputch ch b = if ltb b.buf b.ebuf then store_byte ch (count_byte b) else count_byte b

unfoldable pub sprintputch_all : List ℕ → Sprintbuf → Sprintbuf
sprintputch_all [] b = b
sprintputch_all (ch ∷ out) b = sprintputch_all out (sprintputch ch b)

-- From the initialisation of the `sprintbuf` on: the count, and the memory.
unfoldable pub print_to : ℕ → ℕ → List ℕ → List Arg → Memory → Option (ℕ × Memory)
print_to buf ebuf fmt args mem = vprintfmt fmt args >>= λ out.
    let b = sprintputch_all out (record { buf = buf; ebuf = ebuf; cnt = 0; mem = mem }) in
    some (b.cnt, update b.mem b.buf 0)

unfoldable pub vsprintf : ℕ → List ℕ → List Arg → Memory → Option (ℕ × Memory)
vsprintf buf fmt args mem = print_to buf 0xffff_ffff fmt args mem

-- For `n` from 1 on, and a buffer that does not reach over the end of the address space.
unfoldable pub vsnprintf : ℕ → ℕ → List ℕ → List Arg → Memory → Option (ℕ × Memory)
vsnprintf buf n fmt args mem = print_to buf (buf + n - 1) fmt args mem
