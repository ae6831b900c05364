-- ===== src/KernLib/Monitor.antt =====
-- kern/lib/monitor.c: the command line of the kernel monitor. The line is an array of bytes, and
-- `argv` the list of the places that its pointers have in it. `none` is a loop that has not ended
-- within the room of the array. What the commands print is output only.
pub mod Split
pub mod Args
pub mod Run
pub mod Typed
pub mod Backtrace
mod Tests
use cs.Prelude.{
  ℕ, zero, suc, ◌+◌, Bool, true, false, ◌&&◌, not, Option, none, some, List, [], ◌∷◌, ◌++◌, ◌==◌,
  if◌then◌else◌, update, length,
}
use cs.Prelude.Int.{ℤ, pos, negsuc}
use cs.Dev.Console.{readline, buflen}
use cs.KernLib.Str.{Memory, load32, strchr, strcmp}

abbrev pub maxargs : ℕ
maxargs = 16

-- `strchr(WHITESPACE, c)` is not null: tabulator, carriage return, line feed, space.
unfoldable pub is_whitespace : ℕ → Bool
is_whitespace c = elim (strchr (9 ∷ 13 ∷ 10 ∷ 32 ∷ 0 ∷ []) c) [
  | some (some i) ↦ true
  | some none ↦ false
  | none ↦ false
]

-- The loop that gobbles whitespace.
unfoldable pub gobble : ℕ → ℕ → (ℕ → ℕ) → Option (ℕ × (ℕ → ℕ))
gobble zero i buf = none
gobble (suc room) i buf =
    let rest = gobble room (i + 1) (update buf i 0) in
    if not (buf i == 0) && is_whitespace (buf i) then rest else some (i, buf)

-- The loop that scans past an argument.
unfoldable pub scan_arg : ℕ → ℕ → (ℕ → ℕ) → Option ℕ
scan_arg zero i buf = none
scan_arg (suc room) i buf =
    let rest = scan_arg room (i + 1) buf in
    if not (buf i == 0) && not (is_whitespace (buf i)) then rest else some i

-- What parsing comes to: the arguments and the line with its ends marked, or too many arguments.
pub data Parsed : Type 0 where
  too_many : Parsed
  parsed : List ℕ → (ℕ → ℕ) → Parsed

unfoldable pub parse_args : ℕ → ℕ → ℕ → List ℕ → (ℕ → ℕ) → Option Parsed
parse_args zero room i argv buf = none
parse_args (suc rounds) room i argv buf = elim (gobble room i buf) [
  | none ↦ none
  | some (i', buf') ↦
      if buf' i' == 0
      then some (parsed argv buf')
      else if length argv + 1 == maxargs
      then some too_many
      else elim (scan_arg room i' buf') [
        | none ↦ none
        | some i'' ↦ parse_args rounds room i'' (argv ++ i' ∷ []) buf'
      ]
]

-- The bytes of the array from a place on.
unfoldable pub bytes_from : ℕ → ℕ → (ℕ → ℕ) → List ℕ
bytes_from zero i buf = []
bytes_from (suc room) i buf = buf i ∷ bytes_from room (i + 1) buf

-- The names of `commands`: help, kerninfo, backtrace.
abbrev pub commands : List (List ℕ)
commands =
    (104 ∷ 101 ∷ 108 ∷ 112 ∷ 0 ∷ [])
    ∷ (107 ∷ 101 ∷ 114 ∷ 110 ∷ 105 ∷ 110 ∷ 102 ∷ 111 ∷ 0 ∷ [])
    ∷ (98 ∷ 97 ∷ 99 ∷ 107 ∷ 116 ∷ 114 ∷ 97 ∷ 99 ∷ 101 ∷ 0 ∷ [])
    ∷ []

-- The loop over the commands: the number of the first of that name; the inner `none` is no such
-- command.
unfoldable pub find_command : ℕ → List ℕ → List (List ℕ) → Option (Option ℕ)
find_command i name [] = some none
find_command i name (command ∷ rest) = elim (strcmp name command) [
  | none ↦ none
  | some (pos zero) ↦ some (some i)
  | some (pos (suc n)) ↦ find_command (i + 1) name rest
  | some (negsuc n) ↦ find_command (i + 1) name rest
]

-- What `runcmd` does with a line; it answers 0 in every case, as the commands do. A round of parsing
-- but the last adds an argument, so that the `maxargs` rounds given are enough.
pub data Ran : Type 0 where
  nothing : Ran
  too_many_args : Ran
  unknown_command : Ran
  command : ℕ → List ℕ → (ℕ → ℕ) → Ran

unfoldable pub runcmd : ℕ → (ℕ → ℕ) → Option Ran
runcmd room buf = elim (parse_args maxargs room 0 [] buf) [
  | none ↦ none
  | some too_many ↦ some too_many_args
  | some (parsed [] buf') ↦ some nothing
  | some (parsed (arg ∷ argv) buf') ↦ elim (find_command 0 (bytes_from room arg buf') commands) [
    | none ↦ none
    | some none ↦ some unknown_command
    | some (some i) ↦ some (command i (arg ∷ argv) buf')
  ]
]

-- A round of `monitor` on the keys that come and the buffer of `readline`. `none` waits for more
-- keys; a read error is passed over.
unfoldable pub monitor_round : List ℕ → (ℕ → ℕ) → Option Ran
monitor_round keys linebuf = elim (readline keys linebuf) [
  | none ↦ none
  | some none ↦ some nothing
  | some (some s) ↦ runcmd buflen s.linebuf
]

-- A line of the backtrace.
pub record TraceLine : Type 0 where
  pub ebp : ℕ
  pub eip : ℕ
  pub args : List ℕ

abbrev pub trace_line : Memory → ℕ → TraceLine
trace_line mem frame = record {
  ebp = frame;
  eip = load32 mem (frame + 4);
  args =
      load32 mem (frame + 8)
      ∷ load32 mem (frame + 12)
      ∷ load32 mem (frame + 16)
      ∷ load32 mem (frame + 20)
      ∷ load32 mem (frame + 24)
      ∷ [];
}

-- The lines that `mon_backtrace` prints, with fuel for its loop.
unfoldable pub mon_backtrace : ℕ → Memory → ℕ → Option (List TraceLine)
mon_backtrace zero mem frame = none
mon_backtrace (suc fuel) mem frame = elim (frame == 0) [
  | true ↦ some []
  | false ↦ elim (mon_backtrace fuel mem (load32 mem frame)) [
    | none ↦ none
    | some lines ↦ some (trace_line mem frame ∷ lines)
  ]
]
