-- ===== src/Dev/Keyboard/Typing.antt =====
-- Words typed at the keyboard, up to the console's queue.
use cs.Prelude.{
  ℕ, suc, ◌+◌, ◌-◌, ◌<◌, ◌≡◌, ◌≢◌, ◌∙◌, refl, sym, ap, subst, Bool, true, false, none, some, List,
  [], ◌∷◌, ◌++◌, ◌==◌, if◌then◌else◌, length, arith,
}
use cs.Dev.Console.{Cons, console_buffer_size}
use cs.Dev.Console.Ring.{IsRing, contents, used, typed, cons_intr_lem}
use cs.Dev.Keyboard.{Shift, normalmap, kbd_proc_data, kbd_bytes, keyboard_intr, released, flipped}
use cs.Dev.Keyboard.Keys.{
  is_lower, is_letter_key, letter_key, letter-IsPlainKey, IsPlain, letter, key_pressed-letter,
  kbd-press, kbd-release, released-plain,
}

-- The scan codes of keys that are pressed and released one after the other.
abbrev pub strokes : List ℕ → List ℕ
strokes [] = []
strokes (d ∷ ds) = d ∷ (d + 128) ∷ strokes ds

-- Scan codes of letters.
abbrev pub IsLetters : List ℕ → Type 0
IsLetters [] = Unit
IsLetters (d ∷ ds) = ((d < 128) × (is_lower (normalmap d) ≡ true)) × IsLetters ds

abbrev pub letters : Shift → List ℕ → List ℕ
letters s [] = []
letters s (d ∷ ds) = letter s d ∷ letters s ds

kbd_bytes-some :
    (d c : ℕ) (ds : List ℕ) (s s' : Shift) (r : Bool)
    → kbd_proc_data 1 d s ≡ record { char = some c; state = s'; reboot = r }
    → kbd_bytes (d ∷ ds) s ≡ (c ∷ (kbd_bytes ds s').0, (kbd_bytes ds s').1)
unfolding kbd_bytes
kbd_bytes-some d c ds s s' r e =
    ap
      (λ k. elim k.char [
        | some x ↦ (x ∷ (kbd_bytes ds k.state).0, (kbd_bytes ds k.state).1)
        | none ↦ ([], k.state)
      ])
      e

released-letter : (d : ℕ) (s : Shift) → is_letter_key d ≡ true → IsPlain s → released d s ≡ s
released-letter d s key (_, no_esc) =
    released-plain d s (letter-IsPlainKey d key) ∙ rw (← no_esc) refl

lower-positive : (c : ℕ) (b : Bool) → is_lower c ≡ true → (if b then c - 32 else c) ≢ 0
lower-positive c true h z = ground arith
lower-positive c false h z = ground arith

kbd_bytes-stroke :
    (d : ℕ) (ds : List ℕ) (s : Shift)
    → d < 128
    → is_lower (normalmap d) ≡ true
    → IsPlain s
    → kbd_bytes (d ∷ (d + 128) ∷ ds) s ≡ (letter s d ∷ 0 ∷ (kbd_bytes ds s).0, (kbd_bytes ds s).1)
kbd_bytes-stroke d ds s h lower plain =
    let key = letter_key d h lower in
    let small : d < 96 = ground arith in
    let press = kbd-press d s h plain.1 ∙ key_pressed-letter d s h lower plain in
    let release =
      kbd-release d s small plain.1
      ∙ ap (λ t. record { char = some 0; state = t; reboot = false })
          (released-letter d s key plain) in
    kbd_bytes-some d (letter s d) ((d + 128) ∷ ds) s s false press
    ∙ ap (λ t. (letter s d ∷ t.0, t.1)) (kbd_bytes-some (d + 128) 0 ds s s false release)

typed-letter : (c : ℕ) (cs : List ℕ) → c ≢ 0 → typed (c ∷ 0 ∷ cs) ≡ c ∷ typed cs
typed-letter c cs h = let e : (c == 0) ≡ false = ground arith in rw e refl

kbd_bytes-typing :
    (ds : List ℕ) (s : Shift)
    → IsLetters ds
    → IsPlain s
    → (typed (kbd_bytes (strokes ds) s).0 ≡ letters s ds) × ((kbd_bytes (strokes ds) s).1 ≡ s)
unfolding kbd_bytes
kbd_bytes-typing [] s keys plain = (refl, refl)
kbd_bytes-typing (d ∷ ds) s ((h, lower), keys) plain =
    let stroke = kbd_bytes-stroke d (strokes ds) s h lower plain in
    let (chars, state) = kbd_bytes-typing ds s keys plain in
    let nz : letter s d ≢ 0 = lower-positive (normalmap d) (flipped s.shift s.capslock) lower in
    (
      ap (λ t. typed t.0) stroke
          ∙ typed-letter (letter s d) (kbd_bytes (strokes ds) s).0 nz
          ∙ ap (λ l. letter s d ∷ l) chars,
      ap (λ t. t.1) stroke ∙ state,
    )

length-letters : (s : Shift) (ds : List ℕ) → length (letters s ds) ≡ length ds
length-letters s [] = refl
length-letters s (d ∷ ds) = ap suc (length-letters s ds)

-- Letters typed with neither CTL nor an escape in force, each key pressed and released, reach the
-- console's queue in order, in the case that SHIFT and CAPSLOCK give, if there is room, and the
-- keyboard's state is as before.
pub keyboard_intr-typing :
    (ds : List ℕ) (s : Shift) (cons : Cons)
    → IsLetters ds
    → IsPlain s
    → IsRing cons
    → used cons + length ds < console_buffer_size
    → ((keyboard_intr (strokes ds) (s, cons)).0 ≡ s)
      × (contents (keyboard_intr (strokes ds) (s, cons)).1 ≡ contents cons ++ letters s ds)
unfolding keyboard_intr
keyboard_intr-typing ds s cons keys plain ring room =
    let (chars, state) = kbd_bytes-typing ds s keys plain in
    let fits =
      subst (λ n. used cons + n < console_buffer_size) (sym (ap length chars ∙ length-letters s ds))
        room in
    (
      state,
      (cons_intr_lem (kbd_bytes (strokes ds) s).0 cons ring fits).0
          ∙ ap (λ l. contents cons ++ l) chars,
    )
