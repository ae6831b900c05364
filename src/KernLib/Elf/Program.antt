-- ===== src/KernLib/Elf/Program.antt =====
-- A whole executable: its segments and the page of the kernel's functions.
use cs.Prelude.{ℕ, ◌+◌, ◌-◌, ◌*◌, ◌≤◌, ◌≡◌, true, add32}
use cs.KernLib.Str.{Memory}
use cs.KernLib.Elf.{Proghdr, elfhdr_at, proghdr_at, is_loadable, vm_dynlink}
use cs.KernLib.Elf.Table.{AreSegments}

-- The page of the kernel's functions is absent before it is copied.
abbrev pub dynlink_byte : Memory → ℕ → ℕ → ℕ
dynlink_byte mem dll u = mem (dll + (u - vm_dynlink))

abbrev pub header_of : Memory → ℕ → ℕ → Proghdr
header_of mem exe i = proghdr_at mem (add32 exe (elfhdr_at mem exe).e_phoff + 32 * i)

-- An executable in the kernel's image that passes the assertions.
pub record IsProgram (lo hi exe : ℕ) (mem : Memory) : Type 0 where
  pub loadable : is_loadable mem exe ≡ true
  pub starts : lo ≤ exe
  pub table : lo ≤ add32 exe (elfhdr_at mem exe).e_phoff
  pub table_end : add32 exe (elfhdr_at mem exe).e_phoff + 32 * (elfhdr_at mem exe).e_phnum ≤ hi
  pub headers : AreSegments lo hi exe (elfhdr_at mem exe).e_phnum (header_of mem exe)
