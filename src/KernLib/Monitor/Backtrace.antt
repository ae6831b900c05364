-- ===== src/KernLib/Monitor/Backtrace.antt =====
-- The backtrace of the monitor and the trace of a panic.
use cs.Prelude.{
  ℕ, zero, suc, ◌<◌, ◌≡◌, ◌∙◌, refl, sym, ap, inl, inr, true, false, some, List, [], ◌∷◌, map, ◌==◌,
  get_or, arith, Bool-cases,
}
use cs.KernLib.Str.{Memory, load32}
use cs.KernLib.Debug.{debug_trace}
use cs.KernLib.Debug.Trace.{frame_of, return_of, frame_of-over, debug_trace_lem}
use cs.KernLib.Monitor.{TraceLine, trace_line, mon_backtrace}

-- The lines are those of the chain's frames.
abbrev AreFrames : Memory → ℕ → List TraceLine → Type 0
AreFrames mem frame lines =
    (k : ℕ) → get_or (map (λ l. l.eip) lines) k 0 ≡ return_of mem (frame_of mem frame k)

AreFrames-over : (mem : Memory) (frame : ℕ) → (frame == 0) ≡ true → AreFrames mem frame []
AreFrames-over mem frame over k = ap (return_of mem) (sym (frame_of-over mem frame k over))

AreFrames-more :
    (mem : Memory) (frame : ℕ) (lines : List TraceLine)
    → (frame == 0) ≡ false
    → AreFrames mem (load32 mem frame) lines
    → AreFrames mem frame (trace_line mem frame ∷ lines)
AreFrames-more mem frame lines more h zero = rw more refl
AreFrames-more mem frame lines more h (suc k) = rw more (h k)

mon_backtrace-over :
    (fuel : ℕ) (mem : Memory) (frame : ℕ)
    → (frame == 0) ≡ true
    → mon_backtrace (suc fuel) mem frame ≡ some []
unfolding mon_backtrace
mon_backtrace-over fuel mem frame over = rw (mon_backtrace, over) refl

mon_backtrace-more :
    (fuel : ℕ) (mem : Memory) (frame : ℕ) (lines : List TraceLine)
    → (frame == 0) ≡ false
    → mon_backtrace fuel mem (load32 mem frame) ≡ some lines
    → mon_backtrace (suc fuel) mem frame ≡ some (trace_line mem frame ∷ lines)
unfolding mon_backtrace
mon_backtrace-more fuel mem frame lines more run = rw (mon_backtrace, more, run) refl

mon_backtrace-frames :
    (mem : Memory) (depth frame : ℕ)
    → frame_of mem frame depth ≡ 0
    → (lines : List TraceLine) × (mon_backtrace (suc depth) mem frame ≡ some lines)
      × AreFrames mem frame lines
mon_backtrace-frames mem zero frame end =
    let over : (frame == 0) ≡ true = ground arith in
    ([], mon_backtrace-over 0 mem frame over, AreFrames-over mem frame over)
mon_backtrace-frames mem (suc depth) frame end = elim (Bool-cases (frame == 0)) [
  | inl over ↦ ([], mon_backtrace-over (suc depth) mem frame over, AreFrames-over mem frame over)
  | inr more ↦
      let deeper : frame_of mem frame (suc depth) ≡ frame_of mem (load32 mem frame) depth =
        rw more refl in
      let (lines, run, are) =
        mon_backtrace-frames mem depth (load32 mem frame) (sym deeper ∙ end) in
      (
        trace_line mem frame ∷ lines,
        mon_backtrace-more (suc depth) mem frame lines more run,
        AreFrames-more mem frame lines more are,
      )
]

-- When the chain of frames ends at a depth, so does the loop of mon_backtrace, in that many rounds
-- and one more; and the first ten return addresses that it prints, with zeros behind them, are the
-- ten that debug_trace collects for a panic.
pub mon_backtrace_lem :
    (mem : Memory) (depth ebp : ℕ) (eips : ℕ → ℕ)
    → frame_of mem ebp depth ≡ 0
    → (lines : List TraceLine) × (mon_backtrace (suc depth) mem ebp ≡ some lines)
      × ((k : ℕ) → k < 10 → debug_trace mem ebp eips k ≡ get_or (map (λ l. l.eip) lines) k 0)
mon_backtrace_lem mem depth ebp eips end =
    let (lines, run, are) = mon_backtrace-frames mem depth ebp end in
    (lines, run, λ k h. (debug_trace_lem mem ebp eips).0 k h ∙ sym (are k))
