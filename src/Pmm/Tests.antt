-- ===== src/Pmm/Tests.antt =====
-- Runs of the memory layers on a machine with one normal page, and the theorems at it.
use cs.Prelude.{
  ℕ, ◌≤◌, ◌<◌, ◌≡◌, ◌≢◌, ◌⊎◌, refl, inl, some, arith, ◌==◌, if◌then◌else◌, sum_below-change,
  sum_below-zeros, ltb, sym,
}
use cs.Dev.Mboot.{pmmap_zero}
use cs.Dev.Tests.{two_entries, two_entries-EntriesFit, two_regions, two_entries_map}
use cs.Pmm.MatIntro.{Mat, at_set_allocated, mat_zero}
use cs.Pmm.MatOp.{
  Pmm, palloc, pfree, scan_loop, scan_test, scan_body, scan_finish, next_index, page_is_free,
  vm_userlo_pi,
}
use cs.Pmm.MatOp.Palloc.{
  IsValid, IsFree, PallocSpec, palloc_first_fit, palloc-IsValid, pfree-palloc, taken,
}
use cs.Pmm.MatInit.{pmem_init, pmem_fill}
use cs.Pmm.MatInit.Spec.{pmem_fill_lem, page_count, page_entry}
use cs.Pmm.MatInit.Boot.{IsBootTable, pmem_init-IsBootTable}
use cs.Pmm.Container.{
  Kern, container_zero, kern_zero, container_root, container_init, container_alloc, alloc_finish,
  container_free, container_split, container_can_consume, num_ids,
}
use cs.Pmm.Container.Sums.{
  at_size, is_normal, is_set, normal_pages, allocated_pages, total_usage, delegated,
}
use cs.Pmm.Container.Inv.{IsSound}
use cs.Pmm.Container.Consume.{container_can_consume_wraps}
use cs.Pmm.Container.Alloc.{granted, returned, container_alloc-succeeds, container_free-IsSound}
use cs.Pmm.Container.Split.{slot, with_child, container_split-IsSound, container_split_overwrites}
use cs.Pmm.Container.Init.{container_init-IsSound}
use cs.Pmm.Container.Reach.{Reach-after_init, here}

-- Only page 0x40001 is normal.
abbrev one_page : Mat
one_page = record {
  num_pages = 0x40003;
  at_table = λ i. record { perm = if i == 0x40001 then 2 else 0; allocated = 0 };
}

abbrev one_page_pmm : Pmm
one_page_pmm = record { mat = one_page; last_palloc_index = vm_userlo_pi }

one_page-IsValid : IsValid one_page_pmm
one_page-IsValid = record { lo = omega arith; hi = omega arith; beyond = λ i h. ground arith }

palloc_runs : palloc one_page_pmm ≡ some (0x40001, taken one_page_pmm 0x40001)
unfolding palloc scan_loop scan_test scan_body scan_finish next_index page_is_free
palloc_runs = refl

palloc_first_fit_example : PallocSpec one_page_pmm
palloc_first_fit_example = palloc_first_fit one_page-IsValid

palloc-IsValid_example :
    IsValid (taken one_page_pmm 0x40001)
    × ((◌≡◌ {A = ℕ} 0x40001 0) ⊎ ((0x40000 ≤ 0x40001) × (0x40001 < 0xf0000) × (0x40001 < 0x40003)))
palloc-IsValid_example = palloc-IsValid one_page-IsValid palloc_runs

pfree-palloc_example : (pfree 0x40001 (taken one_page_pmm 0x40001)).mat ≡ one_page
pfree-palloc_example = pfree-palloc one_page-IsValid palloc_runs (omega arith)

low_memory_table :
    pmem_init two_entries 48 pmmap_zero mat_zero
    ≡ some (some (two_regions, pmem_fill two_regions mat_zero))
unfolding pmem_init
low_memory_table = rw (two_entries_map, pmem_init)

pmem_fill_lem_example :
    ((pmem_fill two_regions mat_zero).num_pages ≡ page_count two_regions refl (omega arith))
    × ((pmem_fill two_regions mat_zero).at_table 5 ≡ (
        if ltb 5 (page_count two_regions refl (omega arith))
        then page_entry 5 two_regions.pmmap_list
        else mat_zero.at_table 5))
pmem_fill_lem_example = pmem_fill_lem two_regions refl (omega arith) mat_zero 5

pmem_init-IsBootTable_example : IsBootTable two_entries 48 (pmem_fill two_regions mat_zero)
pmem_init-IsBootTable_example =
    pmem_init-IsBootTable two_entries 48 two_regions (pmem_fill two_regions mat_zero)
      two_entries-EntriesFit (omega arith) low_memory_table

abbrev low_memory_kern : Kern
low_memory_kern = container_root (record kern_zero {
  pmmap = two_regions;
  pmm = record kern_zero.pmm { mat = pmem_fill two_regions mat_zero };
})

low_memory_boot : container_init two_entries 48 kern_zero ≡ some (some low_memory_kern)
unfolding container_init
low_memory_boot = rw (low_memory_table, container_init)

container_init-IsSound_example :
    IsSound low_memory_kern
    × (allocated_pages low_memory_kern.pmm.mat ≡ 0)
    × ((id : ℕ) → id ≢ 0 → (low_memory_kern.container id).used ≡ 0)
container_init-IsSound_example =
    container_init-IsSound two_entries 48 low_memory_kern two_entries-EntriesFit (omega arith)
      low_memory_boot

Reach-after_init_example :
    IsSound low_memory_kern
    × ((low_memory_kern.container 0).quota ≡ (low_memory_kern.container 0).quota)
    × (allocated_pages low_memory_kern.pmm.mat ≤ (low_memory_kern.container 0).quota)
Reach-after_init_example =
    Reach-after_init two_entries 48 two_entries-EntriesFit (omega arith) low_memory_boot here

-- The kernel with that one page, and all of it the root's.
abbrev one_page_kern : Kern
one_page_kern = record {
  pmmap = pmmap_zero;
  pmm = one_page_pmm;
  container = λ i.
      if i == 0
      then record { quota = 1; usage = 0; parent = 0; nchildren = 0; used = 1 }
      else container_zero;
}

one_page-normal : normal_pages one_page ≡ 1
unfolding normal_pages
one_page-normal =
    let e =
      sum_below-change at_size 0x40001 (λ i. is_normal (one_page.at_table i).perm) (λ i. 0)
        (omega arith) (λ i ne. ground arith) in
    omega (arith, e, sum_below-zeros at_size (λ i. 0) (λ i. refl))

one_page-IsSound : IsSound one_page_kern
unfolding allocated_pages total_usage delegated
one_page-IsSound = record {
  pages = one_page-IsValid;
  marked = record { flags = λ i. inl refl; user = λ i h. ground arith };
  tree = record {
    root = refl;
    few = λ i. ground arith;
    unused = λ i h. ground arith;
    within = λ i. ground arith;
    small = λ i. ground arith;
    slots = λ i p q. ground arith;
  };
  balance = omega (
    arith,
    sum_below-zeros num_ids (λ i. (one_page_kern.container i).usage) (λ i. ground arith),
    sum_below-zeros at_size (λ i. is_set (one_page.at_table i).allocated) (λ i. refl),
    sum_below-zeros num_ids (λ i. if i == 0 then 0 else (one_page_kern.container i).quota)
        (λ i. ground arith),
  );
  budget = sym one_page-normal;
}

container_alloc-succeeds_example :
    (r : ℕ) × (container_alloc 0 one_page_kern ≡ some (r, granted one_page_kern 0 r))
    × (r ≢ 0)
    × IsFree one_page r
    × IsSound (granted one_page_kern 0 r)
container_alloc-succeeds_example =
    container_alloc-succeeds 0 one_page-IsSound (omega arith) (omega arith)

-- The root after it took the page.
abbrev taken_kern : Kern
taken_kern = granted one_page_kern 0 0x40001

one_page_taken : container_alloc 0 one_page_kern ≡ some (0x40001, taken_kern)
unfolding container_alloc alloc_finish
one_page_taken = rw (palloc_runs, container_alloc) refl

taken_kern-IsSound : IsSound taken_kern
taken_kern-IsSound =
    let (r, e, ne, f, v) =
      container_alloc-succeeds 0 one_page-IsSound (omega arith) (omega arith) in
    let same : r ≡ 0x40001 = cc one_page_taken in rw same at v

container_free-IsSound_example :
    (container_free 0 0x40001 taken_kern ≡ returned taken_kern 0 0x40001)
    × IsSound (container_free 0 0x40001 taken_kern)
unfolding at_set_allocated
container_free-IsSound_example =
    container_free-IsSound 0 0x40001 taken_kern-IsSound (omega arith) (omega arith) refl

container_split-IsSound_example :
    (◌≤◌ num_ids 1 × (container_split 0 1 one_page_kern ≡ (num_ids, one_page_kern)))
    ⊎ ((1 < num_ids)
        × (container_split 0 1 one_page_kern
            ≡ (1, record one_page_kern { container = with_child 0 1 1 one_page_kern.container }))
        × ((one_page_kern.container 1).used ≡ 0)
        × IsSound (record one_page_kern { container = with_child 0 1 1 one_page_kern.container }))
container_split-IsSound_example =
    container_split-IsSound 0 1 one_page-IsSound (omega arith) (omega arith) (omega arith)
      (omega arith)

container_can_consume_wraps_example : container_can_consume 0 0xffff_ffff taken_kern ≡ 1
container_can_consume_wraps_example =
    container_can_consume_wraps 0 0xffff_ffff taken_kern (omega arith)

abbrev full_kern : Kern
full_kern = record one_page_kern {
  container = λ i. record { quota = 9; usage = 5; parent = 0; nchildren = 3; used = 1 };
}

container_split_overwrites_example :
    let (child, s') = container_split 0 2 full_kern in
    (child ≡ slot 1 0)
    × (s'.container child ≡ record { quota = 2; usage = 0; parent = 0; nchildren = 0; used = 1 })
container_split_overwrites_example = container_split_overwrites full_kern 0 2 (omega arith) refl
