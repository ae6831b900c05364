-- ===== src/Pmm/Container/Sums.antt =====
-- The sums over pages and containers that the accounting speaks of.
use cs.Prelude.{
  ℕ, ◌+◌, ◌<◌, ◌≡◌, ltb, ◌==◌, if◌then◌else◌, arith, sum_below, sum_below-change, sum_below-ext,
}
use cs.Pmm.MatIntro.{Mat, at_set_allocated}
use cs.Pmm.Container.{SContainer, num_ids, set_usage}

-- The number of entries of `AT`.
abbrev pub at_size : ℕ
at_size = 0x10_0000

abbrev pub is_set : ℕ → ℕ
is_set n = if ltb 0 n then 1 else 0

abbrev pub is_normal : ℕ → ℕ
is_normal perm = if ltb 1 perm then 1 else 0

-- How many pages are allocated, and how many have the normal permission.
unfoldable pub allocated_pages : Mat → ℕ
allocated_pages m = sum_below at_size (λ i. is_set (m.at_table i).allocated)

unfoldable pub normal_pages : Mat → ℕ
normal_pages m = sum_below at_size (λ i. is_normal (m.at_table i).perm)

-- The usage of all containers, and the quotas that parents have passed on to children.
unfoldable pub total_usage : (ℕ → SContainer) → ℕ
total_usage c = sum_below num_ids (λ i. (c i).usage)

unfoldable pub delegated : (ℕ → SContainer) → ℕ
delegated c = sum_below num_ids (λ i. if i == 0 then 0 else (c i).quota)

-- Changing one page's flag changes the count by the flag.
pub allocated_pages-set :
    (m : Mat) (k v : ℕ)
    → k < at_size
    → allocated_pages (at_set_allocated k v m) + is_set (m.at_table k).allocated
      ≡ allocated_pages m + is_set v
unfolding allocated_pages at_set_allocated
allocated_pages-set m k v h =
    let e =
      sum_below-change at_size k (λ i. is_set ((at_set_allocated k v m).at_table i).allocated)
        (λ i. is_set (m.at_table i).allocated) h (λ i ne. ground arith) in
    ground (arith, e)

pub normal_pages-set : (m : Mat) (k v : ℕ) → normal_pages (at_set_allocated k v m) ≡ normal_pages m
unfolding normal_pages at_set_allocated
normal_pages-set m k v =
    sum_below-ext at_size (λ i. is_normal ((at_set_allocated k v m).at_table i).perm)
      (λ i. is_normal (m.at_table i).perm) (λ i p. ground arith)

pub total_usage-set :
    (c : ℕ → SContainer) (id u : ℕ)
    → id < num_ids
    → total_usage (set_usage id u c) + (c id).usage ≡ total_usage c + u
unfolding total_usage
total_usage-set c id u h =
    let e =
      sum_below-change num_ids id (λ i. (set_usage id u c i).usage) (λ i. (c i).usage) h
        (λ i ne. ground arith) in
    ground (arith, e)

pub delegated-set : (c : ℕ → SContainer) (id u : ℕ) → delegated (set_usage id u c) ≡ delegated c
unfolding delegated
delegated-set c id u =
    sum_below-ext num_ids (λ i. if i == 0 then 0 else (set_usage id u c i).quota)
      (λ i. if i == 0 then 0 else (c i).quota) (λ i p. ground arith)
