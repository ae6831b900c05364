-- ===== src/KernLib/Start.antt =====
-- `mon_start_user` of kern/lib/monitor.c: the first process gets a container, its program and the
-- processor. The containers are part of what `alloc_page` works on; the other tables are those of
-- kern/vmm. `alloc_mem_quota` is that of kern/vmm/MPTNew/MPTNew.c.
pub mod Backed
pub mod First
mod Tests
use cs.Prelude.{ℕ, Bool, true, false, not, Option, none, some, ◌==◌, if◌then◌else◌}
use cs.KernLib.Str.{Memory}
use cs.KernLib.Pmap.{Paging}
use cs.KernLib.Elf.{elf_load, elf_entry}
use cs.Pmm.Container.{Kern, container_get_quota, container_split}

unfoldable pub alloc_mem_quota : ℕ → ℕ → Kern → ℕ × Kern
alloc_mem_quota id quota s = container_split id quota s

-- The global `CID`, the process whose page directory is in force, and the pages.
pub record Starting (T : Type 0) : Type 0 where
  pub cid : ℕ
  pub pdir_base : ℕ
  pub pages : (Kern × T) × Memory

-- The command returns, or the processor goes on at an address.
pub data Started : Type 0 where
  already_running : Started
  entered : ℕ → Started

-- What follows `alloc_mem_quota`, with the child's index and the containers. The outer `none` is a
-- loop that has not ended behind its fuel, the inner one a failed assertion.
unfoldable pub start_child :
    {T : Type 0}
    → Paging (Kern × T)
    → ℕ
    → ℕ
    → Starting T
    → ℕ × Kern
    → Option (Option (Starting T × Started))
start_child p dll exe s (child, kern) =
    elim (elf_load p dll exe child ((kern, s.pages.0.1), s.pages.1)) [
      | none ↦ none
      | some none ↦ some none
      | some (some pages) ↦ elim (elf_entry pages.1 exe) [
        | none ↦ some none
        | some entry ↦
            some (some (record { cid = child; pdir_base = child; pages = pages }, entered entry))
      ]
    ]

unfoldable pub mon_start_user :
    {T : Type 0} → Paging (Kern × T) → ℕ → ℕ → Starting T → Option (Option (Starting T × Started))
mon_start_user p dll exe s =
    if not (s.cid == 0)
    then some (some (s, already_running))
    else start_child p dll exe s (alloc_mem_quota 0 (container_get_quota 0 s.pages.0.0) s.pages.0.0)
