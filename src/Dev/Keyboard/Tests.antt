-- ===== src/Dev/Keyboard/Tests.antt =====
-- Keys typed, and the theorems at them.
use cs.Prelude.{ℕ, ◌≡◌, refl, true, none, some, [], ◌∷◌, arith}
use cs.Dev.Console.{Cons, readline}
use cs.Dev.Console.Ring.{contents}
use cs.Dev.Keyboard.{Shift, no_shift, kbd_proc_data, keyboard_intr, normalmap, shiftmap}
use cs.Dev.Keyboard.Typing.{strokes, keyboard_intr-typing}
use cs.Dev.Keyboard.Special.{cursor_key_aborts}

-- CAPSLOCK is on.
abbrev caps : Shift
caps = record no_shift { capslock = true }

abbrev empty_console : Cons
empty_console = record { buf = λ i. 0; rpos = 0; wpos = 0 }

-- The keys A and B.
keyboard_intr-typing_example :
    ((keyboard_intr (strokes (0x1E ∷ 0x30 ∷ [])) (caps, empty_console)).0 ≡ caps)
    × (contents (keyboard_intr (strokes (0x1E ∷ 0x30 ∷ [])) (caps, empty_console)).1 ≡ 65 ∷ 66 ∷ [])
unfolding normalmap shiftmap
keyboard_intr-typing_example =
    keyboard_intr-typing (0x1E ∷ 0x30 ∷ []) caps empty_console
      (((omega arith), refl), (((omega arith), refl), tt)) (refl, refl)
      ((omega arith), (omega arith)) (omega arith)

-- "a", then the cursor key to the left.
cursor_key_aborts_example :
    (c : ℕ) × ((kbd_proc_data 1 0x4B (kbd_proc_data 1 0xE0 no_shift).state).char ≡ some c)
    × (readline (97 ∷ c ∷ []) (λ i. 0) ≡ some none)
cursor_key_aborts_example =
    cursor_key_aborts 0x4B no_shift (97 ∷ []) [] (λ i. 0) (omega arith) refl refl
      (((omega arith), ((omega arith), (omega arith))), tt)
