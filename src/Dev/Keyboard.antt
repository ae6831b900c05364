-- ===== src/Dev/Keyboard.antt =====
-- kern/dev/keyboard.c: scan codes to characters. The bits of `shift` are fields of a record; the
-- tables are lists with their designated entries behind them. What the ports give is an argument.
pub mod Keys
pub mod Typing
pub mod Special
mod Tests
use cs.Prelude.{
  ℕ, zero, suc, ◌+◌, ◌-◌, ◌%◌, Bool, true, false, not, ◌&&◌, ◌||◌, Option, none, some, List, [],
  ◌∷◌, ltb, leb, ◌==◌, if◌then◌else◌, get_or,
}
use cs.Dev.Console.{Cons, cons_intr}

pub record Shift : Type 0 where
  pub shift : Bool
  pub ctl : Bool
  pub alt : Bool
  pub capslock : Bool
  pub numlock : Bool
  pub scrolllock : Bool
  pub e0esc : Bool

abbrev pub no_shift : Shift
no_shift = record {
  shift = false;
  ctl = false;
  alt = false;
  capslock = false;
  numlock = false;
  scrolllock = false;
  e0esc = false;
}

-- The key's bit of `shiftcode`: SHIFT, CTL, ALT.
abbrev pub is_shift : ℕ → Bool
is_shift d = (d == 0x2A) || (d == 0x36)

abbrev pub is_ctl : ℕ → Bool
is_ctl d = (d == 0x1D) || (d == 0x9D)

abbrev pub is_alt : ℕ → Bool
is_alt d = (d == 0x38) || (d == 0xB8)

-- `a && !b || !a && b`.
abbrev pub flipped : Bool → Bool → Bool
flipped true b = not b
flipped false b = b

-- `shift |= shiftcode[data]; shift ^= togglecode[data]`.
unfoldable pub pressed : ℕ → Shift → Shift
pressed d s = record s {
  shift = s.shift || is_shift d;
  ctl = s.ctl || is_ctl d;
  alt = s.alt || is_alt d;
  capslock = flipped (d == 0x3A) s.capslock;
  numlock = flipped (d == 0x45) s.numlock;
  scrolllock = flipped (d == 0x46) s.scrolllock;
}

-- `shift &= ~(shiftcode[data] | E0ESC)`.
unfoldable pub released : ℕ → Shift → Shift
released d s = record s {
  shift = s.shift && not (is_shift d);
  ctl = s.ctl && not (is_ctl d);
  alt = s.alt && not (is_alt d);
  e0esc = false;
}

-- The entries from 0xC7 on that the maps share.
abbrev pub special : ℕ → ℕ
special d =
    if d == 0xC8
    then 0xE2
    else if d == 0xC9
    then 0xE6
    else if d == 0xCB
    then 0xE4
    else if d == 0xCD
    then 0xE5
    else if d == 0xCF
    then 0xE1
    else if d == 0xD0
    then 0xE3
    else if d == 0xD1
    then 0xE7
    else if d == 0xD2
    then 0xE8
    else if d == 0xD3
    then 0xE9
    else 0

-- The designated entries of `normalmap` and `shiftmap`.
abbrev pub designated : ℕ → ℕ
designated d =
    if d == 0xC7 then 0xE0 else if d == 0x9C then 10 else if d == 0xB5 then 47 else special d

-- The keypad's part of both maps, from 0x37 on.
abbrev pub keypad : List ℕ
keypad =
    42 ∷ 0 ∷ 32 ∷ 0 ∷ 0 ∷ 0 ∷ 0 ∷ 0 ∷ 0 ∷ 0 ∷ 0 ∷ 0 ∷ 0 ∷ 0 ∷ 0 ∷ 0 ∷ 55 ∷ 56 ∷ 57 ∷ 45 ∷ 52 ∷ 53
    ∷ 54 ∷ 43 ∷ 49 ∷ 50 ∷ 51 ∷ 48 ∷ 46 ∷ 0 ∷ 0 ∷ 0 ∷ 0 ∷ []

abbrev pub normal_keys : List ℕ
normal_keys =
    0 ∷ 0x1B ∷ 49 ∷ 50 ∷ 51 ∷ 52 ∷ 53 ∷ 54 ∷ 55 ∷ 56 ∷ 57 ∷ 48 ∷ 45 ∷ 61 ∷ 8 ∷ 9 ∷ 113 ∷ 119 ∷ 101
    ∷ 114 ∷ 116 ∷ 121 ∷ 117 ∷ 105 ∷ 111 ∷ 112 ∷ 91 ∷ 93 ∷ 10 ∷ 0 ∷ 97 ∷ 115 ∷ 100 ∷ 102 ∷ 103 ∷ 104
    ∷ 106 ∷ 107 ∷ 108 ∷ 59 ∷ 39 ∷ 96 ∷ 0 ∷ 92 ∷ 122 ∷ 120 ∷ 99 ∷ 118 ∷ 98 ∷ 110 ∷ 109 ∷ 44 ∷ 46 ∷ 47
    ∷ 0 ∷ keypad

abbrev pub shift_keys : List ℕ
shift_keys =
    0 ∷ 27 ∷ 33 ∷ 64 ∷ 35 ∷ 36 ∷ 37 ∷ 94 ∷ 38 ∷ 42 ∷ 40 ∷ 41 ∷ 95 ∷ 43 ∷ 8 ∷ 9 ∷ 81 ∷ 87 ∷ 69 ∷ 82
    ∷ 84 ∷ 89 ∷ 85 ∷ 73 ∷ 79 ∷ 80 ∷ 123 ∷ 125 ∷ 10 ∷ 0 ∷ 65 ∷ 83 ∷ 68 ∷ 70 ∷ 71 ∷ 72 ∷ 74 ∷ 75 ∷ 76
    ∷ 58 ∷ 34 ∷ 126 ∷ 0 ∷ 124 ∷ 90 ∷ 88 ∷ 67 ∷ 86 ∷ 66 ∷ 78 ∷ 77 ∷ 60 ∷ 62 ∷ 63 ∷ 0 ∷ keypad

abbrev pub ctl_keys : List ℕ
ctl_keys =
    0 ∷ 0 ∷ 0 ∷ 0 ∷ 0 ∷ 0 ∷ 0 ∷ 0 ∷ 0 ∷ 0 ∷ 0 ∷ 0 ∷ 0 ∷ 0 ∷ 0 ∷ 0 ∷ 17 ∷ 23 ∷ 5 ∷ 18 ∷ 20 ∷ 25 ∷ 21
    ∷ 9 ∷ 15 ∷ 16 ∷ 0 ∷ 0 ∷ 13 ∷ 0 ∷ 1 ∷ 19 ∷ 4 ∷ 6 ∷ 7 ∷ 8 ∷ 10 ∷ 11 ∷ 12 ∷ 0 ∷ 0 ∷ 0 ∷ 0 ∷ 28 ∷ 26
    ∷ 24 ∷ 3 ∷ 22 ∷ 2 ∷ 14 ∷ 13 ∷ 0 ∷ 0 ∷ 0xEF ∷ 0 ∷ 0 ∷ []

unfoldable pub normalmap : ℕ → ℕ
normalmap d = if ltb d 0x58 then get_or normal_keys d 0 else designated d

unfoldable pub shiftmap : ℕ → ℕ
shiftmap d = if ltb d 0x58 then get_or shift_keys d 0 else designated d

-- `C('/')` is -17, which the table holds as a byte.
unfoldable pub ctlmap : ℕ → ℕ
ctlmap d =
    if ltb d 0x38
    then get_or ctl_keys d 0
    else if d == 0x97
    then 0xE0
    else if d == 0xB5
    then 0xEF
    else special d

-- `charcode[shift & (CTL | SHIFT)][data]`.
unfoldable pub charcode : Shift → ℕ → ℕ
charcode s d = if s.ctl then ctlmap d else if s.shift then shiftmap d else normalmap d

-- The case is turned under CAPSLOCK.
abbrev pub turn_case : ℕ → ℕ
turn_case c = if leb 97 c && leb c 122 then c - 32 else if leb 65 c && leb c 90 then c + 32 else c

-- What the function returns (`none` is -1), the new `shift`, and whether the machine is rebooted.
pub record Kbd : Type 0 where
  pub char : Option ℕ
  pub state : Shift
  pub reboot : Bool

-- The part behind the three early cases, for the byte that they leave.
unfoldable pub key_pressed : ℕ → Shift → Kbd
key_pressed d s =
    let s' = pressed d s in
    let c = if s'.capslock then turn_case (charcode s' d) else charcode s' d in
    record { char = some c; state = s'; reboot = s'.ctl && s'.alt && (c == 0xE9) }

-- `status` and `code` are what the two ports give.
unfoldable pub kbd_proc_data : ℕ → ℕ → Shift → Kbd
kbd_proc_data status code s =
    if status % 2 == 0
    then record { char = none; state = s; reboot = false }
    else if code == 0xE0
    then record { char = some 0; state = record s { e0esc = true }; reboot = false }
    else if leb 128 code
    then record {
      char = some 0;
      state = released (if s.e0esc then code else code - 128) s;
      reboot = false;
    }
    else if s.e0esc
    then key_pressed (code + 128) (record s { e0esc = false })
    else key_pressed code s

-- The characters of the bytes that wait at the keyboard, and the state behind them.
unfoldable pub kbd_bytes : List ℕ → Shift → List ℕ × Shift
kbd_bytes [] s = ([], s)
kbd_bytes (d ∷ ds) s =
    let k = kbd_proc_data 1 d s in
    let rest = kbd_bytes ds k.state in
    elim k.char [ some c ↦ (c ∷ rest.0, rest.1) | none ↦ ([], k.state) ]

unfoldable pub keyboard_intr : List ℕ → Shift × Cons → Shift × Cons
keyboard_intr ds (s, cons) = ((kbd_bytes ds s).1, cons_intr (kbd_bytes ds s).0 cons)
