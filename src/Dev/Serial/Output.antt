-- ===== src/Dev/Serial/Output.antt =====
-- What the two devices get of a text.
use cs.Prelude.{
  ℕ, zero, suc, ◌+◌, ◌%◌, ◌≤◌, ◌≡◌, ◌∙◌, refl, ap, inl, inr, Bool, true, List, [], ◌∷◌, ◌==◌,
  if◌then◌else◌, arith, Bool-cases,
}
use cs.Dev.Serial.{
  Serial, com1, serial_putc, serial_reformatnewline, serial_wait, cons_putc, int_of_char,
}
use cs.Dev.Video.{Video, video_putc}
use cs.Dev.Video.Bounds.{IsOnScreen, video_putc-IsOnScreen}

-- The calls for the bytes of a text, as `cputs` makes them.
abbrev pub cons_puts : List ℕ → Serial × Video → Serial × Video
cons_puts [] d = d
cons_puts (x ∷ xs) d = cons_puts xs (cons_putc x d)

-- The bytes on the line, the last first, in front of those before.
abbrev pub line_bytes : List ℕ → List (ℕ × ℕ) → List (ℕ × ℕ)
line_bytes [] outs = outs
line_bytes (x ∷ xs) outs =
    line_bytes xs (if x == 10 then (com1, 10) ∷ (com1, 13) ∷ outs else (com1, x % 256) ∷ outs)

serial_putc-outs :
    (c : ℕ) (s : Serial)
    → s.serial_exists ≡ true
    → ((serial_putc c s).serial_exists ≡ true)
      × ((serial_putc c s).outs
          ≡ (if c == 10 then (com1, 10) ∷ (com1, 13) ∷ s.outs else (com1, c % 256) ∷ s.outs))
unfolding serial_putc serial_reformatnewline
serial_putc-outs c s e = elim (Bool-cases (c == 10)) [
  | inl nl ↦ rw (serial_putc, e, nl) (refl, refl)
  | inr ne ↦ rw (serial_putc, e, ne) (refl, refl)
]

-- The wait ends after at most the rounds given.
serial_wait-le : (ready : ℕ → Bool) (left i : ℕ) → serial_wait ready left i ≤ i + left
unfolding serial_wait
serial_wait-le ready zero i = omega arith
serial_wait-le ready (suc left) i = ground (arith, serial_wait-le ready left (i + 1))

-- With a serial port and the cursor on the screen: of any bytes that the console is given, the
-- serial line gets each, a line feed behind a carriage return, and the cursor stays on the screen.
pub cons_puts_lem :
    (xs : List ℕ) (s : Serial) (v : Video)
    → s.serial_exists ≡ true
    → IsOnScreen v
    → ((cons_puts xs (s, v)).0.outs ≡ line_bytes xs s.outs) × IsOnScreen (cons_puts xs (s, v)).1
unfolding cons_putc
cons_puts_lem [] s v e on = (refl, on)
cons_puts_lem (x ∷ xs) s v e on =
    let (there, out) = serial_putc-outs x s e in
    let (on', _) = video_putc-IsOnScreen (int_of_char x) v on in
    let (rest, on'') =
      cons_puts_lem xs (serial_putc x s) (video_putc (int_of_char x) v) there on' in
    (rest ∙ ap (line_bytes xs) out, on'')
