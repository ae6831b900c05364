-- ===== src/Dev/Video/Text.antt =====
-- Text on the screen.
use cs.Prelude.{
  ℕ, suc, ◌+◌, ◌-◌, ◌%◌, ◌<◌, ◌≤◌, ◌≡◌, ◌≢◌, ◌∙◌, refl, ap, inl, inr, false, ◌&&◌, List, [], ◌∷◌,
  ltb, leb, ◌==◌, if◌then◌else◌, update, arith, Bool-cases, length, get_or,
}
use cs.Dev.Video.{
  Video, crt_size, with_attribute, video_switch, scroll, move_cursor, write_cell, putc_plain,
  video_putc,
}

-- The calls for the bytes of a text.
abbrev pub video_puts : List ℕ → Video → Video
video_puts [] v = v
video_puts (x ∷ xs) v = video_puts xs (video_putc x v)

abbrev pub IsPrintable : List ℕ → Type 0
IsPrintable [] = Unit
IsPrintable (x ∷ xs) = ((32 ≤ x) × (x < 127)) × IsPrintable xs

video_switch-write :
    (c : ℕ) (v : Video)
    → c % 256 ≢ 8
    → c % 256 ≢ 10
    → c % 256 ≢ 13
    → video_switch c v ≡ write_cell c v
unfolding video_switch
video_switch-write c v n8 n10 n13 =
    let e8 : (c % 256 == 8) ≡ false = ground arith in
    let e10 : (c % 256 == 10) ≡ false = ground arith in
    let e13 : (c % 256 == 13) ≡ false = ground arith in rw (e8, e10, e13) refl

scroll-none : (v : Video) → v.crt_pos < crt_size → scroll v ≡ v
unfolding scroll
scroll-none v h = let e : leb crt_size v.crt_pos ≡ false = ground arith in rw e refl

video_putc-plain : (c : ℕ) (v : Video) → c % 256 ≢ 9 → video_putc c v ≡ putc_plain c v
unfolding video_putc
video_putc-plain c v h = let e : (c % 256 == 9) ≡ false = ground arith in rw (e, video_putc) refl

video_putc-char :
    (x : ℕ) (v : Video)
    → 32 ≤ x
    → x < 127
    → v.crt_pos + 1 < crt_size
    → video_putc x v ≡ move_cursor (write_cell (x + 0x0700) v)
unfolding putc_plain
video_putc-char x v lo hi room =
    let attr : with_attribute x ≡ x + 0x0700 = ground arith in
    let v' = write_cell (x + 0x0700) v in
    video_putc-plain x v (omega arith)
    ∙ ap (λ c. move_cursor (scroll (video_switch c v))) attr
    ∙ ap (λ t. move_cursor (scroll t))
        (video_switch-write (x + 0x0700) v (omega arith) (omega arith) (omega arith))
    ∙ ap move_cursor (scroll-none v' (omega arith))

move_cursor-same :
    (v : Video) → ((move_cursor v).crt_pos ≡ v.crt_pos) × ((move_cursor v).crt_buf ≡ v.crt_buf)
unfolding move_cursor
move_cursor-same v = (refl, refl)

-- A cell after the text is written at a position.
abbrev pub text_cell : List ℕ → ℕ → (ℕ → ℕ) → ℕ → ℕ
text_cell xs pos buf i =
    if leb pos i && ltb i (pos + length xs) then get_or xs (i - pos) 0 + 0x0700 else buf i

get_or-behind :
    (x : ℕ) (xs : List ℕ) (pos i : ℕ)
    → pos < i
    → get_or (x ∷ xs) (i - pos) 0 ≡ get_or xs (i - (pos + 1)) 0
get_or-behind x xs pos i h =
    let e : i - pos ≡ suc (i - (pos + 1)) = omega arith in ap (λ k. get_or (x ∷ xs) k 0) e

text_cell-step :
    (x : ℕ) (xs : List ℕ) (pos : ℕ) (buf : ℕ → ℕ) (i : ℕ)
    → text_cell xs (pos + 1) (update buf pos (x + 0x0700)) i ≡ text_cell (x ∷ xs) pos buf i
text_cell-step x xs pos buf i = elim (Bool-cases (pos == i)) [
  | inl e ↦
      let here : pos ≡ i = ground arith in
      let zero_off : i - pos ≡ 0 = omega arith in
      let first = ap (λ k. get_or (x ∷ xs) k 0) zero_off in ground (arith, first)
  | inr ne ↦ elim (Bool-cases (ltb pos i)) [
    | inl lt ↦ let same = get_or-behind x xs pos i (ground arith) in ground (arith, same)
    | inr ge ↦ ground arith
  ]
]

-- Printable text that ends before the end of the screen is written from the cursor on, black on
-- white, and nothing else changes; the cursor stands behind it.
pub video_puts_lem :
    (xs : List ℕ) (v : Video)
    → IsPrintable xs
    → v.crt_pos + length xs < crt_size
    → ((video_puts xs v).crt_pos ≡ v.crt_pos + length xs)
      × ((i : ℕ) → (video_puts xs v).crt_buf i ≡ text_cell xs v.crt_pos v.crt_buf i)
video_puts_lem [] v p room = ((omega arith), λ i. ground arith)
video_puts_lem (x ∷ xs) v ((lo, hi), p) room =
    let v' = write_cell (x + 0x0700) v in
    let step = video_putc-char x v lo hi (omega arith) in
    let (pos', buf') = move_cursor-same v' in
    let at : (video_putc x v).crt_pos ≡ v.crt_pos + 1 =
      ap (λ t. t.crt_pos) step ∙ pos' ∙ omega arith in
    let byte : (x + 0x0700) % 65536 ≡ x + 0x0700 = omega arith in
    let cells : (video_putc x v).crt_buf ≡ update v.crt_buf v.crt_pos (x + 0x0700) =
      ap (λ t. t.crt_buf) step ∙ buf' ∙ ap (update v.crt_buf v.crt_pos) byte in
    let rest = video_puts_lem xs (video_putc x v) p (omega arith) in
    (
      (omega (arith, rest.0)),
      λ i.
          rest.1 i
          ∙ ap (λ k. text_cell xs k (video_putc x v).crt_buf i) at
          ∙ ap (λ b. text_cell xs (v.crt_pos + 1) b i) cells
          ∙ text_cell-step x xs v.crt_pos v.crt_buf i,
    )
