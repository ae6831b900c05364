-- ===== src/Pmm/Container/Inv.antt =====
-- The invariant of the container tree and of the page accounting.
use cs.Prelude.{
  ℕ, ◌+◌, ◌*◌, ◌≤◌, ◌<◌, ◌≡◌, ◌≢◌, ◌⊎◌, arith, sum_below, sum_below-change, sum_below-lt,
  sum_below-le, if◌then◌else◌, ◌==◌, smaller_entry,
}
use cs.Pmm.MatIntro.{Mat}
use cs.Pmm.MatOp.{vm_userlo_pi, vm_userhi_pi}
use cs.Pmm.MatOp.Palloc.{IsValid, IsFree}
use cs.Pmm.Container.{SContainer, Kern, num_ids}
use cs.Pmm.Container.Sums.{
  at_size, is_set, is_normal, allocated_pages, normal_pages, total_usage, delegated,
}

-- The table of containers is a tree: the children of `i` take the slots from 3 * i + 1 on, at most
-- three of them; a slot that is not used is empty; no container uses more than its quota.
pub record IsTree (c : ℕ → SContainer) : Type 0 where
  pub root : (c 0).used ≡ 1
  pub few : (i : ℕ) → (c i).nchildren ≤ 3
  pub unused :
      (i : ℕ) → (c i).used ≡ 0 → ((c i).usage ≡ 0) × ((c i).quota ≡ 0) × ((c i).nchildren ≡ 0)
  pub within : (i : ℕ) → (c i).usage ≤ (c i).quota
  pub small : (i : ℕ) → (c i).quota ≤ at_size
  pub slots :
      (i : ℕ)
      → i ≢ 0
      → (c i).used ≢ 0
      → (3 * (c i).parent + 1 ≤ i) × (i < 3 * (c i).parent + 1 + (c (c i).parent).nchildren)

-- An allocated page is normal, and a normal page is a user page.
pub record IsMarked (m : Mat) : Type 0 where
  pub flags :
      (i : ℕ)
      → ((m.at_table i).allocated ≡ 0)
        ⊎ (((m.at_table i).allocated ≡ 1) × (1 < (m.at_table i).perm))
  pub user : (i : ℕ) → 1 < (m.at_table i).perm → (vm_userlo_pi ≤ i) × (i < vm_userhi_pi)

-- The accounts: what the containers use is the pages that are allocated, and the quotas that were
-- passed on to children. The root's quota is the number of normal pages.
pub record IsSound (s : Kern) : Type 0 where
  pub pages : IsValid s.pmm
  pub marked : IsMarked s.pmm.mat
  pub tree : IsTree s.container
  pub balance : total_usage s.container ≡ allocated_pages s.pmm.mat + delegated s.container
  pub budget : (s.container 0).quota ≡ normal_pages s.pmm.mat

module _ {s : Kern} (v : IsSound s) where
  abbrev quotas : ℕ → ℕ
  quotas i = (s.container i).quota

  sum-quotas : sum_below num_ids quotas ≡ delegated s.container + (s.container 0).quota
  unfolding delegated
  sum-quotas =
      let e =
        sum_below-change num_ids 0 quotas (λ i. if i == 0 then 0 else quotas i) (omega arith)
          (λ i ne. ground arith) in
      omega (arith, e)

  -- However the root's memory is shared out, no more pages are allocated than it was given.
  pub allocated-le-budget : allocated_pages s.pmm.mat ≤ (s.container 0).quota
  unfolding total_usage
  allocated-le-budget = omega (
    arith,
    sum-quotas,
    v.balance,
    sum_below-le num_ids (λ i. (s.container i).usage) quotas (λ i p. v.tree.within i),
  )

  allocated-lt-normal :
      (id : ℕ)
      → id < num_ids
      → (s.container id).usage < (s.container id).quota
      → allocated_pages s.pmm.mat < normal_pages s.pmm.mat
  unfolding total_usage
  allocated-lt-normal id h q = omega (
    arith,
    sum-quotas,
    v.balance,
    v.budget,
    sum_below-lt num_ids id (λ i. (s.container i).usage) quotas h (λ i p. v.tree.within i) q,
  )

  -- While a container is below its quota, some user page is free.
  pub IsFree-page :
      (id : ℕ)
      → id < num_ids
      → (s.container id).usage < (s.container id).quota
      → (i : ℕ) × (vm_userlo_pi ≤ i) × (i < vm_userhi_pi) × IsFree s.pmm.mat i
  unfolding allocated_pages normal_pages
  IsFree-page id h q =
      let (i, p, lt) =
        smaller_entry at_size (λ i. is_set (s.pmm.mat.at_table i).allocated)
          (λ i. is_normal (s.pmm.mat.at_table i).perm) (allocated-lt-normal id h q) in
      let normal : 1 < (s.pmm.mat.at_table i).perm = ground arith in
      (i, (v.marked.user i normal).0, (v.marked.user i normal).1, (normal, ground arith))
