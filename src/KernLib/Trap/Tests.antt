-- ===== src/KernLib/Trap/Tests.antt =====
-- A page fault that is a violation.
use cs.Prelude.{ℕ, ◌%◌, ◌≡◌, inr, refl, none}
use cs.KernLib.Elf.Sample.{raised}
use cs.KernLib.Trap.{Machine, trap}
use cs.KernLib.Trap.Fault.{trap-panics}

abbrev machine : Machine (ℕ → ℕ)
machine = record { pdir_base = 7; pages = ((λ v. 0), (λ a. a % 256)) }

violation : trap raised 7 0x4000_1234 (record { trapno = 14; err = 7 }) machine ≡ none
violation = trap-panics raised 7 0x4000_1234 (record { trapno = 14; err = 7 }) machine (inr refl)
