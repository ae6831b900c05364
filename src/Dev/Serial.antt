-- ===== src/Dev/Serial.antt =====
-- kern/dev/serial.c, and `cons_putc` of kern/dev/console.c, which writes to both devices. What goes
-- to a port is kept as a pair of the port and the byte, the last write first; what a port gives is
-- an argument.
pub mod Output
mod Tests
use cs.Prelude.{
  ℕ, zero, suc, ◌+◌, ◌-◌, ◌%◌, Bool, true, false, not, ◌&&◌, Option, none, some, List, [], ◌∷◌, ltb,
  ◌==◌, if◌then◌else◌,
}
use cs.Dev.Console.{Cons, cons_intr}
use cs.Dev.Video.{Video, video_putc}

abbrev pub com1 : ℕ
com1 = 0x3F8

pub record Serial : Type 0 where
  pub serial_exists : Bool
  pub outs : List (ℕ × ℕ)

abbrev pub outb : ℕ → ℕ → Serial → Serial
outb port byte s = record s { outs = (port, byte % 256) ∷ s.outs }

-- The status register and the receive buffer, as they are read.
unfoldable pub serial_proc_data : ℕ → ℕ → Option ℕ
serial_proc_data lsr rx = if lsr % 2 == 0 then none else some rx

-- The bytes of the readings up to the first that has none.
unfoldable pub serial_bytes : List (ℕ × ℕ) → List ℕ
unfolding serial_proc_data
serial_bytes [] = []
serial_bytes ((lsr, rx) ∷ readings) = elim (serial_proc_data lsr rx) [
  | some c ↦ c ∷ serial_bytes readings
  | none ↦ []
]

unfoldable pub serial_intr : Serial → List (ℕ × ℕ) → Cons → Cons
unfolding serial_bytes
serial_intr s readings c = if s.serial_exists then cons_intr (serial_bytes readings) c else c

-- Whether the byte was a line feed, which goes out behind a carriage return.
unfoldable pub serial_reformatnewline : ℕ → ℕ → Serial → Bool × Serial
serial_reformatnewline c p s = if c == 10 then (true, outb p 10 (outb p 13 s)) else (false, s)

-- The rounds that `serial_putc` waits, of those left; `ready` tells in which the transmitter is
-- ready.
unfoldable pub serial_wait : (ℕ → Bool) → ℕ → ℕ → ℕ
serial_wait ready zero i = i
serial_wait ready (suc left) i =
    let rest = serial_wait ready left (i + 1) in if ready i then i else rest

-- The byte is written whether or not the wait for the transmitter was in vain.
unfoldable pub serial_putc : ℕ → Serial → Serial
unfolding serial_reformatnewline
serial_putc c s =
    if not s.serial_exists
    then s
    else (let done = (serial_reformatnewline c com1 s).0 in
        let s' = (serial_reformatnewline c com1 s).1 in if not done then outb com1 c s' else s')

-- `lsr` is the status that is read at the end.
unfoldable pub serial_init : ℕ → Serial → Serial
serial_init lsr s =
    let s' = outb (com1 + 4) 0x0b (
      outb (com1 + 2) 0xc7 (
        outb (com1 + 3) 0x03
          (outb (com1 + 1) 0 (outb com1 1 (outb (com1 + 3) 0x80 (outb (com1 + 1) 0 s)))))) in
    record s' { serial_exists = not (lsr == 0xFF) }

unfoldable pub serial_intenable : List (ℕ × ℕ) → Serial → Cons → Serial × Cons
unfolding serial_intr
serial_intenable readings s c =
    if s.serial_exists
    then (outb (com1 + 1) 1 s, serial_intr (outb (com1 + 1) 1 s) readings c)
    else (s, c)

-- A `char` as the `int` that the devices get.
abbrev pub int_of_char : ℕ → ℕ
int_of_char c = if ltb c 128 then c else 0xffff_ff00 + c

unfoldable pub cons_putc : ℕ → Serial × Video → Serial × Video
unfolding serial_putc video_putc
cons_putc c (s, v) = (serial_putc c s, video_putc (int_of_char c) v)
