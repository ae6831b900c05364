-- ===== src/Pmm/Container/Init.antt =====
-- `container_init`: the accounts are sound from boot on.
use cs.Prelude.{
  ℕ, zero, suc, ◌+◌, ◌-◌, ◌≤◌, ◌≡◌, ◌≢◌, refl, ◌∙◌, sym, inl, Option, some, none, arith, ◌==◌,
  if◌then◌else◌, add32, update, sum_below, sum_below-suc, sum_below-zero, sum_below-zeros,
  sum_below-le_count, sum_below-ext, sum_below-pad,
}
use cs.Dev.Mboot.{PmmapState, MbootMmap, pmmap_zero}
use cs.Dev.Mboot.Fit.{EntriesFit}
use cs.Pmm.MatIntro.{Mat, mat_zero, get_nps}
use cs.Pmm.MatOp.{page_is_free, vm_userlo_pi}
use cs.Pmm.MatOp.Palloc.{page_is_free_iff}
use cs.Pmm.MatInit.{pmem_init}
use cs.Pmm.MatInit.Boot.{IsBootTable, pmem_init-IsBootTable, IsBootTable-IsValid}
use cs.Pmm.Container.{SContainer, Kern, kern_zero, count_loop, container_root, container_init}
use cs.Pmm.Container.Sums.{
  at_size, is_set, is_normal, allocated_pages, normal_pages, total_usage, delegated,
}
use cs.Pmm.Container.Inv.{IsTree, IsMarked, IsSound}

abbrev free_bit : Mat → ℕ → ℕ
free_bit m i = if page_is_free i m then 1 else 0

-- The loop counts the free pages.
count_loop-sum :
    (m : Mat) (left pg n acc : ℕ)
    → pg + left ≡ n
    → n ≤ at_size
    → acc ≡ sum_below pg (free_bit m)
    → count_loop m left pg acc ≡ sum_below n (free_bit m)
unfolding count_loop
count_loop-sum m zero pg n acc e h a = let e' : n ≡ pg = omega arith in rw e' a
count_loop-sum m (suc left) pg n acc e h a =
    count_loop-sum m left (pg + 1) n (if page_is_free pg m then add32 acc 1 else acc) (omega arith)
      h next
  where
    small : sum_below pg (free_bit m) ≤ pg
    small = sum_below-le_count pg (free_bit m) (λ i. ground arith)

    next : (if page_is_free pg m then add32 acc 1 else acc) ≡ sum_below (pg + 1) (free_bit m)
    next =
        let e' : pg + 1 ≡ suc pg = omega arith in
        rw (e', sum_below-suc pg (free_bit m)) (ground (arith, small))

module _ {mmap : ℕ → MbootMmap} {len : ℕ} {m : Mat} (t : IsBootTable mmap len m) where
  free-normal : (i : ℕ) → free_bit m i ≡ is_normal (m.at_table i).perm
  free-normal i = ground (arith, page_is_free_iff i m, t.unallocated i)

  -- At boot the loop finds the number of normal pages.
  count-normal : count_loop m m.num_pages 0 0 ≡ normal_pages m
  unfolding normal_pages
  count-normal =
      count_loop-sum m m.num_pages 0 m.num_pages 0 (omega arith) (omega (arith, t.in_range))
        (sym (sum_below-zero (free_bit m)))
      ∙ sum_below-ext m.num_pages (free_bit m) (λ i. is_normal (m.at_table i).perm)
          (λ i p. free-normal i)
      ∙ sym (
          sum_below-pad (at_size - m.num_pages) m.num_pages at_size
            (λ i. is_normal (m.at_table i).perm) (omega (arith, t.in_range))
            (λ i p q. ground (arith, t.absent i)))

  normal-le : normal_pages m ≤ at_size
  unfolding normal_pages
  normal-le = sum_below-le_count at_size (λ i. is_normal (m.at_table i).perm) (λ i. ground arith)

  none-allocated : allocated_pages m ≡ 0
  unfolding allocated_pages
  none-allocated =
      sum_below-zeros at_size (λ i. is_set (m.at_table i).allocated)
        (λ i. ground (arith, t.unallocated i))

  boot-IsMarked : IsMarked m
  boot-IsMarked = record {
    flags = λ i. inl (t.unallocated i);
    user = λ i h. ground (arith, t.absent i, t.kernel i);
  }

-- The table of containers that `container_init` leaves.
abbrev boot_table : ℕ → ℕ → SContainer
boot_table q =
    update kern_zero.container 0
      (record { quota = q; usage = 0; parent = 0; nchildren = 0; used = 1 })

boot_table-IsTree : (q : ℕ) → q ≤ at_size → IsTree (boot_table q)
boot_table-IsTree q h = record {
  root = refl;
  few = λ i. ground arith;
  unused = λ i z. ground arith;
  within = λ i. ground arith;
  small = λ i. ground arith;
  slots = λ i p u. ground arith;
}

boot_table-total : (q : ℕ) → total_usage (boot_table q) ≡ 0
unfolding total_usage
boot_table-total q = sum_below-zeros 64 (λ i. (boot_table q i).usage) (λ i. ground arith)

boot_table-delegated : (q : ℕ) → delegated (boot_table q) ≡ 0
unfolding delegated
boot_table-delegated q =
    sum_below-zeros 64 (λ i. if i == 0 then 0 else (boot_table q i).quota) (λ i. ground arith)

-- The state after `container_init` found the map `b` and the table `m`.
abbrev booted : PmmapState → Mat → Kern
booted b m = record {
  pmmap = b;
  pmm = record { mat = m; last_palloc_index = vm_userlo_pi };
  container = boot_table (count_loop m m.num_pages 0 0);
}

booted-IsSound :
    {mmap : ℕ → MbootMmap} {len : ℕ} {m : Mat} (b : PmmapState)
    → IsBootTable mmap len m
    → IsSound (booted b m)
booted-IsSound {m = m} b t =
    let q = count_loop m m.num_pages 0 0 in
    record {
      pages = IsBootTable-IsValid t;
      marked = boot-IsMarked t;
      tree = boot_table-IsTree q (omega (arith, count-normal t, normal-le t));
      balance = omega (arith, boot_table-total q, boot_table-delegated q, none-allocated t);
      budget = count-normal t;
    }

-- `container_init` by the result of `pmem_init`.
abbrev with_root : Kern → Option (Option (PmmapState × Mat)) → Option (Option Kern)
with_root s none = none
with_root s (some none) = some none
with_root s (some (some (b, m))) =
    some (some (container_root (record s { pmmap = b; pmm = record s.pmm { mat = m } })))

container_init-with_root :
    (mmap : ℕ → MbootMmap) (len : ℕ) (s : Kern)
    → container_init mmap len s ≡ with_root s (pmem_init mmap len s.pmmap s.pmm.mat)
unfolding container_init
container_init-with_root mmap len s = go (pmem_init mmap len s.pmmap s.pmm.mat) refl
  where
    go :
        (o : Option (Option (PmmapState × Mat)))
        → pmem_init mmap len s.pmmap s.pmm.mat ≡ o
        → container_init mmap len s ≡ with_root s (pmem_init mmap len s.pmmap s.pmm.mat)
    go none y = rw (y, container_init)
    go (some none) y = rw (y, container_init)
    go (some (some (b, m))) y = rw (y, container_init)

with_root-inv :
    (o : Option (Option (PmmapState × Mat))) (s : Kern)
    → with_root kern_zero o ≡ some (some s)
    → (b : PmmapState) × (m : Mat) × (o ≡ some (some (b, m))) × (s ≡ booted b m)
unfolding container_root get_nps
with_root-inv none s e = absurd (cc e)
with_root-inv (some none) s e = absurd (cc e)
with_root-inv (some (some (b, m))) s e = (b, m, refl, cc e)

-- When the kernel's `container_init` returns without a panic, on entries with 32-bit start addresses
-- and a memory map shorter than 4G less one entry, the accounts are sound: the root container has
-- as its quota all normal pages, none is allocated, and no other container is in use.
pub container_init-IsSound :
    (mmap : ℕ → MbootMmap) (len : ℕ) (s : Kern)
    → EntriesFit mmap
    → len + 24 ≤ 0x1_0000_0000
    → container_init mmap len kern_zero ≡ some (some s)
    → IsSound s × (allocated_pages s.pmm.mat ≡ 0) × ((id : ℕ) → id ≢ 0 → (s.container id).used ≡ 0)
container_init-IsSound mmap len s f h e =
    let (b, m, built, same) =
      with_root-inv (pmem_init mmap len pmmap_zero mat_zero) s
        (sym (container_init-with_root mmap len kern_zero) ∙ e) in
    let t = pmem_init-IsBootTable mmap len b m f h built in
    rw same (booted-IsSound b t, none-allocated t, λ id ne. ground arith)
