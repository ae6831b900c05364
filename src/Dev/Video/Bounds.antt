-- ===== src/Dev/Video/Bounds.antt =====
-- The cursor and the bounds of the screen.
use cs.Prelude.{ℕ, ◌+◌, ◌%◌, ◌<◌, ◌≤◌, ◌≡◌, ◌∙◌, inl, inr, ◌==◌, arith, Bool-cases}
use cs.Dev.Video.{
  Video, crt_size, crt_cols, with_attribute, video_switch, scroll, move_cursor, putc_plain,
  video_putc,
}

-- The cursor is on the screen.
abbrev pub IsOnScreen : Video → Type 0
IsOnScreen v = v.crt_pos < crt_size

-- What stands behind the screen is the same.
abbrev pub IsKept : Video → Video → Type 0
IsKept v v' = (i : ℕ) → crt_size ≤ i → v'.crt_buf i ≡ v.crt_buf i

-- On the way to the scrolling the cursor may be in the row behind the screen.
video_switch-near :
    (c : ℕ) (v : Video)
    → IsOnScreen v
    → ((video_switch c v).crt_pos < crt_size + crt_cols) × IsKept v (video_switch c v)
unfolding video_switch
video_switch-near c v h = (ground arith, λ i p. ground arith)

scroll-IsOnScreen :
    (v : Video) → v.crt_pos < crt_size + crt_cols → IsOnScreen (scroll v) × IsKept v (scroll v)
unfolding scroll
scroll-IsOnScreen v h = (ground arith, λ i p. ground arith)

putc_plain-IsOnScreen :
    (c : ℕ) (v : Video) → IsOnScreen v → IsOnScreen (putc_plain c v) × IsKept v (putc_plain c v)
unfolding putc_plain move_cursor
putc_plain-IsOnScreen c v h =
    let v' = video_switch (with_attribute c) v in
    let near = video_switch-near (with_attribute c) v h in
    let on = scroll-IsOnScreen v' near.0 in (on.0, λ i p. on.1 i p ∙ near.1 i p)

-- From a cursor on the screen, any character leaves the cursor on the screen and everything behind
-- the screen as it was.
pub video_putc-IsOnScreen :
    (c : ℕ) (v : Video) → IsOnScreen v → IsOnScreen (video_putc c v) × IsKept v (video_putc c v)
unfolding video_putc move_cursor
video_putc-IsOnScreen c v h = elim (Bool-cases (c % 256 == 9)) [
  | inl tab ↦
      let v1 = putc_plain 32 v in
      let v2 = putc_plain 32 v1 in
      let v3 = putc_plain 32 v2 in
      let v4 = putc_plain 32 v3 in
      let v5 = putc_plain 32 v4 in
      let (h1, k1) = putc_plain-IsOnScreen 32 v h in
      let (h2, k2) = putc_plain-IsOnScreen 32 v1 h1 in
      let (h3, k3) = putc_plain-IsOnScreen 32 v2 h2 in
      let (h4, k4) = putc_plain-IsOnScreen 32 v3 h3 in
      let (h5, k5) = putc_plain-IsOnScreen 32 v4 h4 in
      let (h6, k6) = scroll-IsOnScreen v5 (omega arith) in
      rw (tab, video_putc) (h6, λ i p. k6 i p ∙ k5 i p ∙ k4 i p ∙ k3 i p ∙ k2 i p ∙ k1 i p)
  | inr plain ↦ rw (plain, video_putc) (putc_plain-IsOnScreen c v h)
]
