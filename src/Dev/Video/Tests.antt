-- ===== src/Dev/Video/Tests.antt =====
-- The screen at its end, and the theorems at it.
use cs.Prelude.{[], arith}
use cs.Dev.Video.{Video, video_putc}
use cs.Dev.Video.Bounds.{IsOnScreen, IsKept, video_putc-IsOnScreen}

-- The cursor is at the last place of the screen.
abbrev last_place : Video
last_place = record { crt_pos = 1999; crt_buf = λ i. 0x0720; addr_6845 = 0x3D4; outs = [] }

video_putc-IsOnScreen_example :
    IsOnScreen (video_putc 9 last_place) × IsKept last_place (video_putc 9 last_place)
video_putc-IsOnScreen_example = video_putc-IsOnScreen 9 last_place (omega arith)
