-- ===== src/KernLib/Trap.antt =====
-- kern/lib/trap.c: the trap of a user process. Only a page fault is handled, by a new page. The page
-- tables are those of cs.KernLib.Pmap; `rcr2` gives the address of the fault, an argument here.
pub mod Fault
mod Tests
use cs.Prelude.{ℕ, ◌%◌, Bool, true, false, Option, none, some, ◌==◌, if◌then◌else◌}
use cs.KernLib.Str.{Memory}
use cs.KernLib.Pmap.{Paging, pagesize, pte_all}
use cs.KernLib.Elf.{rounddown}

-- The fields of a trap frame that are read; the others go back to the process as they are.
pub record Tf : Type 0 where
  pub trapno : ℕ
  pub err : ℕ

abbrev pub t_pgflt : ℕ
t_pgflt = 14

-- `none` is the panic on a violation of the page's permission.
unfoldable pub pgflt_handler :
    {Tables : Type 0} → Paging Tables → ℕ → ℕ → Tf → Tables × Memory → Option (Tables × Memory)
pgflt_handler p cid fault_va tf m =
    if tf.err % 2 == 1
    then none
    else some (p.alloc_page cid (rounddown fault_va pagesize) pte_all m)

-- The process whose page directory is in force, and the pages.
pub record Machine (Tables : Type 0) : Type 0 where
  pub pdir_base : ℕ
  pub pages : Tables × Memory

-- `none` is a panic; otherwise the process goes on, by trap_return.
unfoldable pub trap :
    {Tables : Type 0} → Paging Tables → ℕ → ℕ → Tf → Machine Tables → Option (Machine Tables)
trap p cid fault_va tf s =
    if tf.trapno == t_pgflt
    then (let s1 = record s { pdir_base = 0 } in
        elim (pgflt_handler p cid fault_va tf s1.pages) [
          | none ↦ none
          | some pages ↦ some (record (record s1 { pages = pages }) { pdir_base = cid })
        ])
    else none
