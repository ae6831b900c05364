-- ===== src/KernLib/Elf/Tests.antt =====
-- A small executable of one segment. It is loaded in KernLib/Start/Tests.
use cs.Prelude.{◌≡◌, refl, some}
use cs.KernLib.Elf.{elf_entry}
use cs.KernLib.Elf.Sample.{memory}

elf_entry_sample : elf_entry memory 0x10_0000 ≡ some 0x4000_00b0
unfolding elf_entry
elf_entry_sample = refl
