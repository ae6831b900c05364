-- ===== src/Dev/Video.antt =====
-- kern/dev/video.c: the text display. The cells of the display buffer are 16-bit words, at an index
-- from the buffer's start; a character is the 32-bit pattern of an `int`. What goes to the ports of
-- the display controller is kept in `outs`, the last write first.
pub mod Bounds
pub mod Text
mod Tests
use cs.Prelude.{
  ℕ, zero, suc, ◌+◌, ◌-◌, ◌*◌, ◌/◌, ◌%◌, Bool, true, false, List, [], ◌∷◌, ltb, leb, ◌==◌,
  if◌then◌else◌, update,
}

abbrev pub crt_cols : ℕ
crt_cols = 80

abbrev pub crt_size : ℕ
crt_size = 2000

-- `0x0700 | ' '`.
abbrev pub blank : ℕ
blank = 0x0720

pub record Video : Type 0 where
  pub crt_buf : ℕ → ℕ
  pub crt_pos : ℕ
  pub addr_6845 : ℕ
  pub outs : List (ℕ × ℕ)

-- `color` tells whether the word written to the colour buffer reads back; `cga` and `mono` are the
-- two buffers, and `high` and `low` the bytes of the cursor that the controller gives.
unfoldable pub video_init : Bool → (ℕ → ℕ) → (ℕ → ℕ) → ℕ → ℕ → Video
video_init color cga mono high low =
    let addr = if color then 0x3D4 else 0x3B4 in
    record {
      crt_buf = if color then cga else mono;
      crt_pos = high * 256 + low;
      addr_6845 = addr;
      outs = (addr, 15) ∷ (addr, 14) ∷ [];
    }

-- Black on white, if no attribute is given.
abbrev pub with_attribute : ℕ → ℕ
with_attribute c = if c / 256 == 0 then c + 0x0700 else c

-- `case '\b'`.
abbrev pub backspace : ℕ → Video → Video
backspace c v =
    if ltb 0 v.crt_pos
    then record v {
      crt_pos = v.crt_pos - 1;
      crt_buf = update v.crt_buf (v.crt_pos - 1) ((c - c % 256 + 32) % 65536);
    }
    else v

-- `case '\r'`.
abbrev pub carriage_return : Video → Video
carriage_return v = record v { crt_pos = v.crt_pos - v.crt_pos % crt_cols }

-- `case '\n'`, which falls through.
abbrev pub line_feed : Video → Video
line_feed v = carriage_return (record v { crt_pos = (v.crt_pos + crt_cols) % 65536 })

abbrev pub write_cell : ℕ → Video → Video
write_cell c v = record v {
  crt_pos = (v.crt_pos + 1) % 65536;
  crt_buf = update v.crt_buf v.crt_pos (c % 65536);
}

-- The switch, for a character other than a tabulator.
unfoldable pub video_switch : ℕ → Video → Video
video_switch c v =
    if c % 256 == 8
    then backspace c v
    else if c % 256 == 10
    then line_feed v
    else if c % 256 == 13
    then carriage_return v
    else write_cell c v

-- `memmove` by one row, and the blanks of the last row.
abbrev pub scrolled : (ℕ → ℕ) → ℕ → ℕ
scrolled buf i =
    if ltb i (crt_size - crt_cols)
    then buf (i + crt_cols)
    else if ltb i crt_size
    then blank
    else buf i

unfoldable pub scroll : Video → Video
scroll v =
    if leb crt_size v.crt_pos
    then record v { crt_buf = scrolled v.crt_buf; crt_pos = v.crt_pos - crt_cols }
    else v

-- The cursor's two bytes.
unfoldable pub move_cursor : Video → Video
move_cursor v = record v {
  outs =
      (v.addr_6845 + 1, v.crt_pos % 256)
      ∷ (v.addr_6845, 15)
      ∷ (v.addr_6845 + 1, v.crt_pos / 256)
      ∷ (v.addr_6845, 14)
      ∷ v.outs;
}

-- `video_putc` of a character other than a tabulator.
unfoldable pub putc_plain : ℕ → Video → Video
unfolding video_switch scroll move_cursor
putc_plain c v = move_cursor (scroll (video_switch (with_attribute c) v))

unfoldable pub video_putc : ℕ → Video → Video
unfolding putc_plain
video_putc c v =
    if c % 256 == 9
    then move_cursor
        (scroll (putc_plain 32 (putc_plain 32 (putc_plain 32 (putc_plain 32 (putc_plain 32 v))))))
    else putc_plain c v

-- `x` and `y` are patterns of an `int`.
unfoldable pub video_set_cursor : ℕ → ℕ → Video → Video
video_set_cursor x y v = record v { crt_pos = (x * crt_cols + y) % 65536 }

unfoldable pub video_clear_screen : Video → Video
video_clear_screen v = record v { crt_buf = λ i. if ltb i crt_size then 32 else v.crt_buf i }
