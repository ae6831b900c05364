-- ===== src/Dev/Serial/Tests.antt =====
-- Output to both devices, and the theorem at it.
use cs.Prelude.{true, []}
use cs.Dev.Serial.{Serial}
use cs.Dev.Video.{Video}

abbrev port : Serial
port = record { serial_exists = true; outs = [] }

-- The cursor is at the last place of the screen.
abbrev screen : Video
screen = record { crt_pos = 1999; crt_buf = λ i. 0x0720; addr_6845 = 0x3D4; outs = [] }
