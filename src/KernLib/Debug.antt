-- ===== src/KernLib/Debug.antt =====
-- kern/lib/debug.c: the trace of the stack that a panic prints.
pub mod Trace
mod Tests
use cs.Prelude.{
  ℕ, zero, suc, ◌+◌, ◌-◌, Bool, true, false, ◌&&◌, not, ltb, ◌==◌, if◌then◌else◌, update,
}
use cs.KernLib.Str.{Memory, load32}

abbrev pub debug_traceframes : ℕ
debug_traceframes = 10

-- The loop over the frames, with the rounds left: `i` and `eips` behind it.
unfoldable pub trace_frames : ℕ → Memory → ℕ → ℕ → (ℕ → ℕ) → ℕ × (ℕ → ℕ)
trace_frames zero mem i frame eips = (i, eips)
trace_frames (suc left) mem i frame eips = elim (frame == 0) [
  | true ↦ (i, eips)
  | false ↦
      trace_frames left mem (i + 1) (load32 mem frame) (update eips i (load32 mem (frame + 4)))
]

-- The loop over the entries that are left.
unfoldable pub trace_rest : ℕ → ℕ → (ℕ → ℕ) → ℕ → ℕ
trace_rest zero i eips = eips
trace_rest (suc left) i eips = trace_rest left (i + 1) (update eips i 0)

unfoldable pub debug_trace : Memory → ℕ → (ℕ → ℕ) → ℕ → ℕ
debug_trace mem ebp eips =
    let done = trace_frames debug_traceframes mem 0 ebp eips in
    trace_rest (debug_traceframes - done.0) done.0 done.1
