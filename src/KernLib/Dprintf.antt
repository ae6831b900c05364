-- ===== src/KernLib/Dprintf.antt =====
-- kern/lib/dprintf.c: bytes are collected in a buffer that goes to the console when it is full.
-- `console` is the list of bytes that `cons_putc` got; a byte is not 0, at which `cputs` stops.
pub mod Buffer
use cs.Prelude.{
  ℕ, zero, suc, ◌+◌, ◌-◌, ◌%◌, Bool, true, false, Option, none, some, List, [], ◌∷◌, ◌++◌, ltb, leb,
  ◌==◌, if◌then◌else◌, update, ◌>>=◌,
}
use cs.KernLib.Printfmt.Format.{Arg}
use cs.KernLib.Printfmt.Vprintfmt.{vprintfmt}

abbrev pub console_buffer_size : ℕ
console_buffer_size = 512

pub record Dprintbuf : Type 0 where
  pub idx : ℕ
  pub cnt : ℕ
  pub buf : ℕ → ℕ
  pub console : List ℕ

-- `cputs` on what stands from `i` on, in at most `n` bytes up to the first 0.
unfoldable pub cputs : ℕ → ℕ → (ℕ → ℕ) → List ℕ
cputs zero i buf = []
cputs (suc n) i buf = let rest = cputs n (i + 1) buf in if buf i == 0 then [] else buf i ∷ rest

-- The buffer to the console: a 0 is put behind its bytes, and is within its size.
unfoldable pub flush : Dprintbuf → Dprintbuf
unfolding cputs
flush b =
    let buf' = update b.buf b.idx 0 in
    record {
      idx = b.idx;
      cnt = b.cnt;
      buf = buf';
      console = b.console ++ cputs console_buffer_size 0 buf';
    }

-- `b->buf[b->idx++] = ch`.
abbrev pub store_char : ℕ → Dprintbuf → Dprintbuf
store_char ch b = record b { idx = b.idx + 1; buf = update b.buf b.idx (ch % 256) }

-- `b->cnt++`.
abbrev pub count : Dprintbuf → Dprintbuf
count b = record b { cnt = b.cnt + 1 }

-- The buffer is empty again once it has gone to the console.
abbrev pub flush_full : Dprintbuf → Dprintbuf
flush_full b = record (flush b) { idx = 0 }

unfoldable pub putch : ℕ → Dprintbuf → Dprintbuf
putch ch b =
    if b.idx + 1 == console_buffer_size - 1
    then count (flush_full (store_char ch b))
    else count (store_char ch b)

unfoldable pub putch_all : List ℕ → Dprintbuf → Dprintbuf
putch_all [] b = b
putch_all (ch ∷ out) b = putch_all out (putch ch b)

abbrev pub empty_buffer : (ℕ → ℕ) → List ℕ → Dprintbuf
empty_buffer buf console = record { idx = 0; cnt = 0; buf = buf; console = console }

-- The count of the bytes, and the console. The buffer is not initialised.
unfoldable pub vdprintf : List ℕ → List Arg → (ℕ → ℕ) → List ℕ → Option (ℕ × List ℕ)
vdprintf fmt args buf console = vprintfmt fmt args >>= λ out.
    let b = flush (putch_all out (empty_buffer buf console)) in some (b.cnt, b.console)
