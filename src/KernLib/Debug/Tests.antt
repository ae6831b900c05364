-- ===== src/KernLib/Debug/Tests.antt =====
-- Two frames, at 0x1000 and 0x2000.
use cs.Prelude.{ℕ, ◌≡◌, refl, update}
use cs.KernLib.Str.{Memory}
use cs.KernLib.Debug.Trace.{frame_of, return_of}

-- The frame at 0x1000 has its caller's at 0x2000 and returns to 0x11; that one returns to 0x22.
abbrev stack : Memory
stack = update (update (update (λ a. 0) 0x1001 0x20) 0x1004 0x11) 0x2004 0x22

abbrev eips : ℕ → ℕ
eips i = 99

first_caller : return_of stack (frame_of stack 0x1000 1) ≡ 0x22
first_caller = refl

chain_ends : return_of stack (frame_of stack 0x1000 2) ≡ 0
chain_ends = refl
