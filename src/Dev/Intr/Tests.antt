-- ===== src/Dev/Intr/Tests.antt =====
-- The table of gates with its entry points sixteen bytes apart.
use cs.Prelude.{ℕ, ◌≡◌, refl, false}
use cs.KernLib.Seg.{setgate}
use cs.Dev.Intr.{Entry, xsyscall, xpgflt, Intr}
use cs.Dev.Intr.Entries.{entry_of}

abbrev entry : Entry → ℕ
entry e = elim e as (λ e. ℕ) [ xsyscall ↦ 0x10_0000 | xpgflt ↦ 0x10_0010 | _ ↦ 0x10_0020 ]

abbrev intr : Intr
intr = record { intr_inited = false; idt = λ i. setgate 1 0 0 3 }

system_call : entry_of 48 ≡ xsyscall
system_call = refl

page_fault : entry_of 14 ≡ xpgflt
page_fault = refl
