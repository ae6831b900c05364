-- ===== src/Dev/Keyboard/Keys.antt =====
-- Modifiers and letters.
use cs.Prelude.{
  ℕ, ◌+◌, ◌-◌, ◌<◌, ◌≡◌, ◌≢◌, refl, inl, inr, Bool, true, false, not, ◌&&◌, ◌||◌, some, ltb, leb,
  ◌==◌, if◌then◌else◌, length, arith, Bool-cases, passes, passes-at,
}
use cs.Dev.Keyboard.{
  Shift, is_shift, is_ctl, is_alt, flipped, pressed, released, normal_keys, shift_keys, ctl_keys,
  normalmap, shiftmap, charcode, turn_case, key_pressed, kbd_proc_data,
}

normal_keys-length :
    (length normal_keys ≡ 0x58) × (length shift_keys ≡ 0x58) × (length ctl_keys ≡ 0x38)
normal_keys-length = (refl, refl, refl)

abbrev pub is_lower : ℕ → Bool
is_lower c = leb 97 c && leb c 122

-- What the tables hold at a letter's key.
abbrev pub is_letter_key : ℕ → Bool
is_letter_key d =
    (shiftmap d == normalmap d - 32)
    && (not (is_shift d) && (not (is_ctl d) && (not (is_alt d) && (not (d == 0x3A) && ltb d 0x45))))

letter_table : passes (λ d. not (is_lower (normalmap d)) || is_letter_key d) 128 ≡ true
unfolding passes normalmap shiftmap
letter_table = refl

pub letter_key : (d : ℕ) → d < 128 → is_lower (normalmap d) ≡ true → is_letter_key d ≡ true
letter_key d h e =
    let found =
      passes-at (λ d. not (is_lower (normalmap d)) || is_letter_key d) 128 d letter_table h in
    ground (arith, found)

or-false : (b : Bool) → (b || false) ≡ b
or-false true = refl
or-false false = refl

and-true : (b : Bool) → (b && true) ≡ b
and-true true = refl
and-true false = refl

-- A key that is no modifier.
abbrev pub IsPlainKey : ℕ → Type 0
IsPlainKey d =
    (is_shift d ≡ false)
    × (is_ctl d ≡ false)
    × (is_alt d ≡ false)
    × (d ≢ 0x3A)
    × (d ≢ 0x45)
    × (d ≢ 0x46)

pub pressed-plain : (d : ℕ) (s : Shift) → IsPlainKey d → pressed d s ≡ s
unfolding pressed
pressed-plain d s (e1, e2, e3, n1, n2, n3) =
    let f1 : (d == 0x3A) ≡ false = ground arith in
    let f2 : (d == 0x45) ≡ false = ground arith in
    let f3 : (d == 0x46) ≡ false = ground arith in
    rw (e1, e2, e3, f1, f2, f3, or-false s.shift, or-false s.ctl, or-false s.alt) refl

pub released-plain : (d : ℕ) (s : Shift) → IsPlainKey d → released d s ≡ record s { e0esc = false }
unfolding released
released-plain d s (e1, e2, e3, _, _, _) =
    rw (e1, e2, e3, and-true s.shift, and-true s.ctl, and-true s.alt) refl

pub letter-IsPlainKey : (d : ℕ) → is_letter_key d ≡ true → IsPlainKey d
letter-IsPlainKey d h =
    ((ground arith), (ground arith), (ground arith), (ground arith), (ground arith), (ground arith))

-- Neither CTL nor an escape is in force.
abbrev pub IsPlain : Shift → Type 0
IsPlain s = (s.ctl ≡ false) × (s.e0esc ≡ false)

-- The character of a letter's key: SHIFT and CAPSLOCK both turn the case.
abbrev pub letter : Shift → ℕ → ℕ
letter s d = if flipped s.shift s.capslock then normalmap d - 32 else normalmap d

letter-upper : (d : ℕ) → is_letter_key d ≡ true → shiftmap d ≡ normalmap d - 32
letter-upper d h = ground arith

turn_case-lower : (c : ℕ) → is_lower c ≡ true → turn_case c ≡ c - 32
turn_case-lower c h = rw h refl

turn_case-upper : (c : ℕ) → is_lower c ≡ true → turn_case (c - 32) ≡ c
turn_case-upper c h = ground arith

charcode-letter :
    (d : ℕ) (s : Shift)
    → s.ctl ≡ false
    → is_lower (normalmap d) ≡ true
    → shiftmap d ≡ normalmap d - 32
    → (if s.capslock then turn_case (charcode s d) else charcode s d) ≡ letter s d
unfolding charcode
charcode-letter d s no_ctl lower upper = elim (Bool-cases s.shift) [
  | inl sh ↦ elim (Bool-cases s.capslock) [
    | inl caps ↦ rw (caps, no_ctl, sh, upper) (turn_case-upper (normalmap d) lower)
    | inr low ↦ rw (low, no_ctl, sh) upper
  ]
  | inr plain ↦ elim (Bool-cases s.capslock) [
    | inl caps ↦ rw (caps, no_ctl, plain) (turn_case-lower (normalmap d) lower)
    | inr low ↦ rw (low, no_ctl, plain) refl
  ]
]

key_pressed-same :
    (d : ℕ) (s : Shift) (c : ℕ)
    → pressed d s ≡ s
    → s.ctl ≡ false
    → (if s.capslock then turn_case (charcode s d) else charcode s d) ≡ c
    → key_pressed d s ≡ record { char = some c; state = s; reboot = false }
unfolding key_pressed
key_pressed-same d s c same no_ctl char = rw (key_pressed, same, char, no_ctl) refl

pub key_pressed-letter :
    (d : ℕ) (s : Shift)
    → d < 128
    → is_lower (normalmap d) ≡ true
    → IsPlain s
    → key_pressed d s ≡ record { char = some (letter s d); state = s; reboot = false }
key_pressed-letter d s h lower (no_ctl, _) =
    let key = letter_key d h lower in
    key_pressed-same d s (letter s d) (pressed-plain d s (letter-IsPlainKey d key)) no_ctl
      (charcode-letter d s no_ctl lower (letter-upper d key))

pub kbd-press :
    (d : ℕ) (s : Shift) → d < 128 → s.e0esc ≡ false → kbd_proc_data 1 d s ≡ key_pressed d s
unfolding kbd_proc_data
kbd-press d s h e =
    let e1 : (d == 0xE0) ≡ false = ground arith in
    let e2 : leb 128 d ≡ false = ground arith in rw (kbd_proc_data, e1, e2, e) refl

pub kbd-release :
    (d : ℕ) (s : Shift)
    → d < 96
    → s.e0esc ≡ false
    → kbd_proc_data 1 (d + 128) s ≡ record { char = some 0; state = released d s; reboot = false }
unfolding kbd_proc_data
kbd-release d s h e =
    let e1 : (d + 128 == 0xE0) ≡ false = ground arith in
    let e2 : leb 128 (d + 128) ≡ true = ground arith in
    let e3 : d + 128 - 128 ≡ d = omega arith in rw (kbd_proc_data, e1, e2, e, e3) refl
