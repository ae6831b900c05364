-- ===== src/Pmm/MatInit.antt =====
-- kern/pmm/MATInit/MATInit.c: the allocation table filled in from the physical memory map.
pub mod Spec
pub mod Boot
use cs.Prelude.{
  ℕ, zero, suc, ◌+◌, ◌-◌, ◌*◌, ◌/◌, ◌%◌, Bool, true, false, ◌&&◌, ◌||◌, not, Option, none, some,
  ltb, leb, ◌==◌, if◌then◌else◌, add32, mul32,
}
use cs.Dev.Mboot.{
  PmmapState, MbootMmap, pmmap_init, get_size, get_mms, get_mml, is_usable, pagesize,
}
use cs.Pmm.MatIntro.{Mat, truthy, set_nps, at_set_perm}
use cs.Pmm.MatOp.{vm_userlo_pi, vm_userhi_pi}

-- The first loop, with the rounds left: the highest end of a region.
unfoldable pub nps_loop : PmmapState → ℕ → ℕ → ℕ → ℕ
nps_loop b zero entry_idx nps = nps
nps_loop b (suc left) entry_idx nps =
    let cur_addr = add32 (get_mms entry_idx b) (get_mml entry_idx b) in
    nps_loop b left (entry_idx + 1) (if ltb nps cur_addr then cur_addr else nps)

-- Whether row `entry_idx` holds the whole page.
unfoldable pub row_holds : PmmapState → ℕ → ℕ → Bool
row_holds b pg_idx entry_idx =
    let start = get_mms entry_idx b in
    let len = get_mml entry_idx b in
    leb start (mul32 pg_idx pagesize) && leb (mul32 (add32 pg_idx 1) pagesize) (add32 start len)

-- The loop over the rows, with the rounds left: the final `flag` and `isnorm`.
unfoldable pub row_loop : PmmapState → ℕ → ℕ → ℕ → ℕ → ℕ → ℕ × ℕ
row_loop b pg_idx zero entry_idx flag isnorm = (flag, isnorm)
row_loop b pg_idx (suc left) entry_idx flag isnorm = elim (truthy flag) [
  | true ↦ (flag, isnorm)
  | false ↦
      row_loop b pg_idx left (entry_idx + 1) (if row_holds b pg_idx entry_idx then 1 else flag)
        (is_usable entry_idx b)
]

-- One round of the loop over the pages.
unfoldable pub init_page : PmmapState → ℕ → Mat → Mat
unfolding at_set_perm
init_page b pg_idx m =
    if ltb pg_idx vm_userlo_pi || leb vm_userhi_pi pg_idx
    then at_set_perm pg_idx 1 m
    else (let (flag, isnorm) = row_loop b pg_idx (get_size b) 0 0 0 in
        if truthy flag && truthy isnorm then at_set_perm pg_idx 2 m else at_set_perm pg_idx 0 m)

-- The loop over the pages, with the rounds left.
unfoldable pub page_loop : PmmapState → ℕ → ℕ → Mat → Mat
page_loop b zero pg_idx m = m
page_loop b (suc left) pg_idx m = page_loop b left (pg_idx + 1) (init_page b pg_idx m)

-- What `pmem_init` does after `devinit`.
unfoldable pub pmem_fill : PmmapState → Mat → Mat
unfolding set_nps get_size
pmem_fill b m =
    let top = nps_loop b (get_size b) 0 0 in
    let nps = (top - top % pagesize) / pagesize in page_loop b nps 0 (set_nps nps m)

-- `pmem_init`, with the part of `devinit` that it reads, `pmmap_init`. The outer `none` means that
-- the fuel of `pmmap_init` ran out, the inner one that the kernel panicked.
unfoldable pub pmem_init :
    (ℕ → MbootMmap) → ℕ → PmmapState → Mat → Option (Option (PmmapState × Mat))
pmem_init mmap mmap_length b m = elim (pmmap_init mmap mmap_length b) [
  | none ↦ none
  | some none ↦ some none
  | some (some b') ↦ some (some (b', pmem_fill b' m))
]
