-- ===== src/KernLib/Pmap/Tests.antt =====
-- A process whose pages stand near 1 GB below their addresses, and the theorems at it.
use cs.Prelude.{ℕ, ◌+◌, ◌-◌, ◌*◌, ◌/◌, ◌%◌, ◌<◌, ◌≡◌, some, arith}
use cs.KernLib.Str.{Memory}
use cs.KernLib.Pmap.{Paging, pt_copyin, pt_copyout}
use cs.KernLib.Pmap.Copy.{pt_copyin-pt_copyout}

-- The pages from 0x40000000 on stand at 0x40000 on, present and writable.
abbrev shifted : Paging Unit
shifted = record {
  get_ptbl_entry_by_va = λ pid va t. (va / 4096 - 0x3ffc0) * 4096 + 7;
  alloc_page = λ pid va perm m. m;
  entry_page = λ pid va t. omega arith;
}

pt_copyin-pt_copyout_example :
    (mem1 mem2 : Memory) × (pt_copyout shifted 0x50000 1 0x4000_0800 4096 (tt, λ a. a % 256)
      ≡ some (4096, (tt, mem1)))
    × (pt_copyin shifted 1 0x4000_0800 0x60000 4096 (tt, mem1) ≡ some (4096, (tt, mem2)))
    × ((i : ℕ) → i < 4096 → mem2 (0x60000 + i) ≡ (0x50000 + i) % 256)
pt_copyin-pt_copyout_example =
    pt_copyin-pt_copyout shifted 0x50000 0x60000 1 0x4000_0800 4096 tt (λ a. a % 256)
      ((omega arith), ((omega arith), (omega arith)))
      ((omega arith), ((omega arith), (omega arith))) (λ i p. omega arith)
      (λ i j p q e. omega arith) (λ i j p q e. omega arith) (λ i j p q e. omega arith)
