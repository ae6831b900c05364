-- ===== src/Pmm/Container.antt =====
-- kern/pmm/MContainer/MContainer.c: memory quotas, in a tree of containers over the allocator.
pub mod Sums
pub mod Inv
pub mod Consume
pub mod Split
pub mod Alloc
pub mod Init
pub mod Reach
use cs.Prelude.{
  ℕ, zero, suc, ◌+◌, ◌-◌, Bool, true, false, ◌&&◌, not, Option, none, some, ltb, leb, ◌==◌,
  if◌then◌else◌, add32, sub32, mul32, update,
}
use cs.Dev.Mboot.{PmmapState, MbootMmap, pmmap_zero}
use cs.Pmm.MatIntro.{Mat, mat_zero, truthy, get_nps, at_is_norm, at_is_allocated}
use cs.Pmm.MatOp.{Pmm, palloc, pfree, page_is_free, vm_userlo_pi}
use cs.Pmm.MatInit.{pmem_init}

abbrev pub num_ids : ℕ
num_ids = 64

abbrev pub max_children : ℕ
max_children = 3

-- `struct SContainer`. Its fields are of type `int`; each is kept as the 32-bit pattern, since the
-- getters return them as `unsigned int` and the comparisons are unsigned.
pub record SContainer : Type 0 where
  pub quota : ℕ
  pub usage : ℕ
  pub parent : ℕ
  pub nchildren : ℕ
  pub used : ℕ

-- The memory map, the allocator and the table `CONTAINER`, of 64 entries.
pub record Kern : Type 0 where
  pub pmmap : PmmapState
  pub pmm : Pmm
  pub container : ℕ → SContainer

abbrev pub container_zero : SContainer
container_zero = record { quota = 0; usage = 0; parent = 0; nchildren = 0; used = 0 }

-- The static storage before any call.
abbrev pub kern_zero : Kern
kern_zero = record {
  pmmap = pmmap_zero;
  pmm = record { mat = mat_zero; last_palloc_index = vm_userlo_pi };
  container = λ id. container_zero;
}

-- The loop of `container_init`, with the rounds left.
unfoldable pub count_loop : Mat → ℕ → ℕ → ℕ → ℕ
count_loop m zero pg_idx real_quota = real_quota
count_loop m (suc left) pg_idx real_quota =
    count_loop m left (pg_idx + 1)
      (if page_is_free pg_idx m then add32 real_quota 1 else real_quota)

-- What `container_init` does after `pmem_init`; the debug output is left out.
unfoldable pub container_root : Kern → Kern
unfolding get_nps
container_root s = record s {
  container = update s.container 0 (record {
    quota = count_loop s.pmm.mat (get_nps s.pmm.mat) 0 0;
    usage = 0;
    parent = 0;
    nchildren = 0;
    used = 1;
  });
}

-- The options are those of `pmem_init`.
unfoldable pub container_init : (ℕ → MbootMmap) → ℕ → Kern → Option (Option Kern)
container_init mmap mmap_length s = elim (pmem_init mmap mmap_length s.pmmap s.pmm.mat) [
  | none ↦ none
  | some none ↦ some none
  | some (some (b, m)) ↦
      some (some (container_root (record s { pmmap = b; pmm = record s.pmm { mat = m } })))
]

unfoldable pub container_get_parent : ℕ → Kern → ℕ
container_get_parent id s = (s.container id).parent

unfoldable pub container_get_nchildren : ℕ → Kern → ℕ
container_get_nchildren id s = (s.container id).nchildren

unfoldable pub container_get_quota : ℕ → Kern → ℕ
container_get_quota id s = (s.container id).quota

unfoldable pub container_get_usage : ℕ → Kern → ℕ
container_get_usage id s = (s.container id).usage

unfoldable pub container_can_consume : ℕ → ℕ → Kern → ℕ
container_can_consume id n s =
    if ltb (s.container id).quota (add32 (s.container id).usage n) then 0 else 1

-- The index of the next child of `id`.
unfoldable pub child_index : ℕ → Kern → ℕ
child_index id s = add32 (add32 (mul32 id max_children) 1) (s.container id).nchildren

-- The new child's entry, and then the two updates of the parent's.
unfoldable pub split_tables : ℕ → ℕ → ℕ → (ℕ → SContainer) → ℕ → SContainer
split_tables id quota child table =
    let table' =
      update table child
        (record { quota = quota; usage = 0; parent = id; nchildren = 0; used = 1 }) in
    update table' id (record (table' id) {
      usage = add32 (table' id).usage quota;
      nchildren = add32 (table' id).nchildren 1;
    })

unfoldable pub container_split : ℕ → ℕ → Kern → ℕ × Kern
unfolding split_tables child_index
container_split id quota s =
    let child = child_index id s in
    if leb num_ids child
    then (num_ids, s)
    else (child, record s { container = split_tables id quota child s.container })

-- `CONTAINER[id].usage = usage`.
abbrev pub set_usage : ℕ → ℕ → (ℕ → SContainer) → ℕ → SContainer
set_usage id usage table = update table id (record (table id) { usage = usage })

-- What follows the call of `palloc`.
unfoldable pub alloc_finish : ℕ → Kern → ℕ × Pmm → ℕ × Kern
alloc_finish id s (pg_index, p) = if pg_index == 0 then (0, record s { pmm = p }) else (
  pg_index,
  record s { pmm = p; container = set_usage id (add32 (s.container id).usage 1) s.container },
)

-- `none` means that the fuel of `palloc` ran out.
unfoldable pub container_alloc : ℕ → Kern → Option (ℕ × Kern)
container_alloc id s = elim (palloc s.pmm) [ none ↦ none | some r ↦ some (alloc_finish id s r) ]

unfoldable pub container_free : ℕ → ℕ → Kern → Kern
unfolding pfree
container_free id page_index s = record s {
  pmm = pfree page_index s.pmm;
  container = set_usage id (sub32 (s.container id).usage 1) s.container;
}
