-- ===== src/KernLib/Monitor/Tests.antt =====
-- A command line, and the theorem at it.
use cs.Prelude.{
  ℕ, ◌≡◌, refl, Option, some, List, [], ◌∷◌, arith, get_or, ◌++◌, ◌<◌, map, update, inl,
}
use cs.KernLib.Str.{strchr, strchr_from}
use cs.KernLib.Str.{Memory}
use cs.KernLib.Debug.{debug_trace}
use cs.KernLib.Monitor.{is_whitespace, runcmd, monitor_round, TraceLine, mon_backtrace}
use cs.KernLib.Monitor.Typed.{monitor_round_lem}
use cs.KernLib.Monitor.Backtrace.{mon_backtrace_lem}
use cs.KernLib.Monitor.Args.{line, ArePieces, AreArgs}
use cs.KernLib.Monitor.Run.{IsFound, command_names, ran, runcmd_lem}

abbrev help : List ℕ
help = 104 ∷ 101 ∷ 108 ∷ 112 ∷ []

abbrev me : List ℕ
me = 109 ∷ 101 ∷ []

-- " help  me", with a line feed behind it.
abbrev help_line : ℕ → ℕ
help_line i = get_or (line ((32 ∷ [], help) ∷ (32 ∷ 32 ∷ [], me) ∷ []) (10 ∷ [])) i 0

help_line-ArePieces : ArePieces ((32 ∷ [], help) ∷ (32 ∷ 32 ∷ [], me) ∷ [])
unfolding is_whitespace strchr strchr_from
help_line-ArePieces = ground arith

runcmd_lem_example :
    (r : Option ℕ) × (buf' : ℕ → ℕ) × (argv : List ℕ) × IsFound help 0 command_names r
    × AreArgs buf' argv (help ∷ me ∷ [])
    × (runcmd 80 help_line ≡ some (ran r argv buf'))
unfolding is_whitespace strchr strchr_from
runcmd_lem_example =
    runcmd_lem (32 ∷ []) help ((32 ∷ 32 ∷ [], me) ∷ []) (10 ∷ []) 80 help_line help_line-ArePieces
      (refl, tt) (ground arith) refl (omega arith) (omega arith)

-- "helq" with the q rubbed out, "p", two spaces and "me".
abbrev typed_help : List ℕ
typed_help = 104 ∷ 101 ∷ 108 ∷ 113 ∷ 8 ∷ 112 ∷ 32 ∷ 32 ∷ 109 ∷ 101 ∷ []

typed_help-ArePieces : ArePieces (([], help) ∷ (32 ∷ 32 ∷ [], me) ∷ [])
unfolding is_whitespace strchr strchr_from
typed_help-ArePieces = ground arith

monitor_round_lem_example :
    (r : Option ℕ) × (buf : ℕ → ℕ) × (argv : List ℕ) × IsFound help 0 command_names r
    × AreArgs buf argv (help ∷ me ∷ [])
    × (monitor_round (typed_help ++ 10 ∷ []) (λ i. 7) ≡ some (ran r argv buf))
monitor_round_lem_example =
    monitor_round_lem typed_help [] 10 (λ i. 7) [] help ((32 ∷ 32 ∷ [], me) ∷ []) [] (ground arith)
      (inl refl) refl typed_help-ArePieces tt (omega arith)

-- Two frames, the outer one at 0x2000.
abbrev frames : Memory
frames = update (update (update (λ a. 0) 0x1001 0x20) 0x1004 0x11) 0x2004 0x22

mon_backtrace_lem_example :
    (lines : List TraceLine) × (mon_backtrace 3 frames 0x1000 ≡ some lines)
    × ((k : ℕ)
        → k < 10
        → debug_trace frames 0x1000 (λ i. 99) k ≡ get_or (map (λ l. l.eip) lines) k 0)
mon_backtrace_lem_example = mon_backtrace_lem frames 2 0x1000 (λ i. 99) refl
