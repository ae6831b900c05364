-- ===== src/KernLib/Start/Tests.antt =====
-- The sample program loaded and started on a machine with three pages to give, over pages that come from the
-- containers.
use cs.Prelude.{ℕ, ◌+◌, leb, ltb, ◌&&◌, ◌==◌, if◌then◌else◌}
use cs.KernLib.Str.{Memory}
use cs.KernLib.Elf.Sample.{memory}
use cs.KernLib.Start.{Starting}
use cs.KernLib.Start.Backed.{Mappings}
use cs.KernLib.Start.First.{after_split}
use cs.Dev.Mboot.{pmmap_zero}
use cs.Pmm.MatIntro.{Mat}
use cs.Pmm.MatOp.{vm_userlo_pi}
use cs.Pmm.Container.{Kern, container_zero}

abbrev pages_from : ℕ → ℕ → ℕ
pages_from n i = if leb 0x40001 i && ltb i (0x40001 + n) then 2 else 0

abbrev three_pages : Mat
three_pages = record {
  num_pages = 0x40005;
  at_table = λ i. record { perm = pages_from 3 i; allocated = 0 };
}

-- All of them are the root's.
abbrev three_pages_kern : Kern
three_pages_kern = record {
  pmmap = pmmap_zero;
  pmm = record { mat = three_pages; last_palloc_index = vm_userlo_pi };
  container = λ i.
      if i == 0
      then record { quota = 3; usage = 0; parent = 0; nchildren = 0; used = 1 }
      else container_zero;
}

abbrev starting : Starting Mappings
starting = record { cid = 0; pdir_base = 0; pages = ((three_pages_kern, λ pid v. 0), memory) }

abbrev before_load : (Kern × Mappings) × Memory
before_load = ((after_split three_pages_kern, λ pid v. 0), memory)
