-- ===== src/Dev/Keyboard/Special.antt =====
-- The cursor keys and the line editor of the console.
use cs.Prelude.{
  ℕ, ◌+◌, ◌<◌, ◌≤◌, ◌≡◌, ◌∙◌, refl, ap, inl, inr, Bool, true, false, not, ◌&&◌, ◌||◌, none, some,
  List, [], ◌∷◌, ◌++◌, leb, ◌==◌, arith, Bool-cases, passes, passes-at,
}
use cs.Dev.Console.{Readline, readline, readline_loop}
use cs.Dev.Console.Line.{IsKeys, readline_loop-key}
use cs.Dev.Keyboard.{
  Shift, turn_case, normalmap, shiftmap, charcode, pressed, key_pressed, kbd_proc_data,
}
use cs.Dev.Keyboard.Keys.{IsPlainKey, pressed-plain}

-- The keys that send 0xE0 and then such a code: the cursor, paging, home, end, insert and delete.
abbrev pub is_cursor_key : ℕ → Bool
is_cursor_key d =
    (leb 0x47 d && leb d 0x49) || ((d == 0x4B) || ((d == 0x4D) || (leb 0x4F d && leb d 0x53)))

-- What the maps hold at such a key.
abbrev is_code : ℕ → Bool
is_code d =
    leb 128 (normalmap (d + 128))
    && ((shiftmap (d + 128) == normalmap (d + 128)) && (leb 0xC7 (d + 128) && leb (d + 128) 0xD3))

code_table : passes (λ d. not (is_cursor_key d) || is_code d) 128 ≡ true
unfolding passes normalmap shiftmap
code_table = refl

cursor_key-code : (d : ℕ) → d < 128 → is_cursor_key d ≡ true → is_code d ≡ true
cursor_key-code d h e =
    let found = passes-at (λ d. not (is_cursor_key d) || is_code d) 128 d code_table h in
    ground (arith, found)

code-IsPlainKey : (d : ℕ) → is_code d ≡ true → IsPlainKey (d + 128)
code-IsPlainKey d h =
    ((ground arith), (ground arith), (ground arith), (ground arith), (ground arith), (ground arith))

code-charcode :
    (d : ℕ) (s : Shift)
    → is_code d ≡ true
    → s.ctl ≡ false
    → charcode s (d + 128) ≡ normalmap (d + 128)
unfolding charcode
code-charcode d s h no_ctl =
    let same : shiftmap (d + 128) ≡ normalmap (d + 128) = ground arith in
    elim (Bool-cases s.shift) [
      | inl sh ↦ rw (no_ctl, sh) same
      | inr plain ↦ rw (no_ctl, plain) refl
    ]

turn_case-code : (c : ℕ) → 128 ≤ c → turn_case c ≡ c
turn_case-code c h = ground arith

key_pressed-char :
    (d c : ℕ) (s : Shift)
    → pressed d s ≡ s
    → charcode s d ≡ c
    → 128 ≤ c
    → (key_pressed d s).char ≡ some c
unfolding key_pressed
key_pressed-char d c s same char h = elim (Bool-cases s.capslock) [
  | inl caps ↦ rw (key_pressed, same, char, caps) (ap some (turn_case-code c h))
  | inr low ↦ rw (key_pressed, same, char, low) refl
]

kbd-cursor :
    (d : ℕ) (s : Shift)
    → d < 128
    → kbd_proc_data 1 d (kbd_proc_data 1 0xE0 s).state
      ≡ key_pressed (d + 128) (record s { e0esc = false })
unfolding kbd_proc_data
kbd-cursor d s h =
    let e1 : (d == 0xE0) ≡ false = ground arith in
    let e2 : leb 128 d ≡ false = ground arith in rw (kbd_proc_data, e1, e2) refl

readline_loop-negative :
    (keys rest : List ℕ) (c : ℕ) (s : Readline)
    → IsKeys keys
    → 128 ≤ c
    → readline_loop (keys ++ c ∷ rest) s ≡ some none
unfolding readline_loop
readline_loop-negative [] rest c s k h = let e : leb 128 c ≡ true = ground arith in rw e refl
readline_loop-negative (x ∷ keys) rest c s ((lt, (n10, n13)), k) h =
    readline_loop-key x (keys ++ c ∷ rest) s lt n10 n13 ∙ readline_loop-negative keys rest c _ k h

-- A cursor key, pressed without CTL while a line is edited, gives a character that is negative, so
-- that `readline` answers the null pointer and the line is lost.
pub cursor_key_aborts :
    (d : ℕ) (s : Shift) (keys rest : List ℕ) (linebuf : ℕ → ℕ)
    → d < 128
    → is_cursor_key d ≡ true
    → s.ctl ≡ false
    → IsKeys keys
    → (c : ℕ) × ((kbd_proc_data 1 d (kbd_proc_data 1 0xE0 s).state).char ≡ some c)
      × (readline (keys ++ c ∷ rest) linebuf ≡ some none)
unfolding readline
cursor_key_aborts d s keys rest linebuf h cursor no_ctl k =
    let code = cursor_key-code d h cursor in
    let s' : Shift = record s { e0esc = false } in
    let c = normalmap (d + 128) in
    let large : 128 ≤ c = ground arith in
    (
      c,
      ap (λ t. t.char) (kbd-cursor d s h)
          ∙ key_pressed-char (d + 128) c s' (pressed-plain (d + 128) s' (code-IsPlainKey d code))
              (code-charcode d s' code no_ctl) large,
      readline_loop-negative keys rest c _ k large,
    )
