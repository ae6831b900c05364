-- ===== src/Pmm/Container/Alloc.antt =====
-- `container_alloc` and `container_free` keep the accounts.
use cs.Prelude.{ℕ, ◌+◌, ◌-◌, ◌≤◌, ◌<◌, ◌≡◌, ◌≢◌, false, some, arith, ◌==◌, add32, sub32}
use cs.Pmm.MatIntro.{Mat, at_set_allocated}
use cs.Pmm.MatOp.{palloc, pfree}
use cs.Pmm.MatOp.Scan.{cyclic}
use cs.Pmm.MatOp.Palloc.{
  IsValid, IsFree, PallocSpec, none_free, first_free, palloc_first_fit, palloc-IsValid,
  pfree-IsValid, taken,
}
use cs.Pmm.Container.{
  SContainer, Kern, num_ids, set_usage, container_alloc, alloc_finish, container_free,
}
use cs.Pmm.Container.Sums.{allocated_pages-set, normal_pages-set, total_usage-set, delegated-set}
use cs.Pmm.Container.Inv.{IsTree, IsMarked, IsSound, IsFree-page}

set_usage-IsTree :
    (c : ℕ → SContainer) (id u : ℕ)
    → IsTree c
    → (c id).used ≢ 0
    → u ≤ (c id).quota
    → IsTree (set_usage id u c)
set_usage-IsTree c id u t ne le = record {
  root = ground (arith, t.root);
  few = λ i. ground (arith, t.few i);
  unused = λ i h. ground (arith, t.unused i);
  within = λ i. ground (arith, t.within i);
  small = λ i. ground (arith, t.small i);
  slots = λ i p q. ground (arith, t.slots i);
}

-- Marking a normal page keeps the flags in order; so does freeing any page.
mark-IsMarked :
    (m : Mat) (r : ℕ) → IsMarked m → 1 < (m.at_table r).perm → IsMarked (at_set_allocated r 1 m)
unfolding at_set_allocated
mark-IsMarked m r k h = record {
  flags = λ i. ground (arith, k.flags i);
  user = λ i p. ground (arith, k.user i);
}

unmark-IsMarked : (m : Mat) (r : ℕ) → IsMarked m → IsMarked (at_set_allocated r 0 m)
unfolding at_set_allocated
unmark-IsMarked m r k = record {
  flags = λ i. ground (arith, k.flags i);
  user = λ i p. ground (arith, k.user i);
}

-- The state after a page `r` was found for `id`.
abbrev pub granted : Kern → ℕ → ℕ → Kern
granted s id r = record s {
  pmm = taken s.pmm r;
  container = set_usage id ((s.container id).usage + 1) s.container;
}

-- A page is granted: the accounts are kept.
granted-IsSound :
    (s : Kern) (id r : ℕ)
    → IsSound s
    → IsValid (taken s.pmm r)
    → id < num_ids
    → (s.container id).usage < (s.container id).quota
    → IsFree s.pmm.mat r
    → IsSound (granted s id r)
granted-IsSound s id r v p h q f =
    let user = v.marked.user r f.0 in
    let pages = allocated_pages-set s.pmm.mat r 1 (omega arith) in
    let used : (s.container id).used ≢ 0 = λ z. omega (arith, v.tree.unused id z) in
    record {
      pages = p;
      marked = mark-IsMarked s.pmm.mat r v.marked f.0;
      tree = set_usage-IsTree s.container id ((s.container id).usage + 1) v.tree used (omega arith);
      balance = ground (
        arith,
        pages,
        v.balance,
        total_usage-set s.container id ((s.container id).usage + 1) h,
        delegated-set s.container id ((s.container id).usage + 1),
      );
      budget = ground (arith, v.budget, normal_pages-set s.pmm.mat r 1);
    }

container_alloc-granted :
    (s : Kern) (id r : ℕ)
    → palloc s.pmm ≡ some (r, taken s.pmm r)
    → r ≢ 0
    → (s.container id).usage + 1 < 0x1_0000_0000
    → container_alloc id s ≡ some (r, granted s id r)
unfolding container_alloc alloc_finish
container_alloc-granted s id r e ne h =
    let found : (r == 0) ≡ false = ground arith in
    let sum : add32 (s.container id).usage 1 ≡ (s.container id).usage + 1 = omega arith in
    rw (e, container_alloc) (rw (found, sum))

-- Under sound accounts, a container below its quota always gets a page: `container_alloc` returns a
-- user page that was free, marks exactly it as allocated, adds one to the container's usage, and
-- keeps the accounts sound.
pub container_alloc-succeeds :
    {s : Kern} (id : ℕ)
    → IsSound s
    → id < num_ids
    → (s.container id).usage < (s.container id).quota
    → (r : ℕ) × (container_alloc id s ≡ some (r, granted s id r))
      × (r ≢ 0)
      × IsFree s.pmm.mat r
      × IsSound (granted s id r)
container_alloc-succeeds {s} id v h q = go (palloc_first_fit v.pages)
  where
    go :
        PallocSpec s.pmm
        → (r : ℕ) × (container_alloc id s ≡ some (r, granted s id r))
          × (r ≢ 0)
          × IsFree s.pmm.mat r
          × IsSound (granted s id r)
    go (none_free e all) = let (i, lo, hi, f) = IsFree-page v id h q in absurd (all i lo hi f)
    go (first_free j below e f earlier) =
        let r = cyclic s.pmm.last_palloc_index j in
        let ok = palloc-IsValid v.pages e in
        let user = v.marked.user r f.0 in
        (
          r,
          container_alloc-granted s id r e (omega arith) (omega (arith, v.tree.small id)),
          omega arith,
          f,
          granted-IsSound s id r v ok.0 h q f,
        )

-- The state after a page was given back by `id`.
abbrev pub returned : Kern → ℕ → ℕ → Kern
returned s id page = record s {
  pmm = pfree page s.pmm;
  container = set_usage id ((s.container id).usage - 1) s.container;
}

container_free-returned :
    (s : Kern) (id page : ℕ)
    → 0 < (s.container id).usage
    → (s.container id).usage < 0x1_0000_0000
    → container_free id page s ≡ returned s id page
unfolding container_free
container_free-returned s id page p q =
    let less : sub32 (s.container id).usage 1 ≡ (s.container id).usage - 1 = omega arith in rw less

returned-IsSound :
    (s : Kern) (id page : ℕ)
    → IsSound s
    → id < num_ids
    → 0 < (s.container id).usage
    → (s.pmm.mat.at_table page).allocated ≡ 1
    → IsSound (returned s id page)
unfolding pfree
returned-IsSound s id page v h q a =
    let normal : 1 < (s.pmm.mat.at_table page).perm = ground (arith, v.marked.flags page) in
    let user = v.marked.user page normal in
    let pages = allocated_pages-set s.pmm.mat page 0 (omega arith) in
    let used : (s.container id).used ≢ 0 = λ z. omega (arith, v.tree.unused id z) in
    let u = (s.container id).usage - 1 in
    record {
      pages = pfree-IsValid page v.pages;
      marked = unmark-IsMarked s.pmm.mat page v.marked;
      tree = set_usage-IsTree s.container id u v.tree used (omega (arith, v.tree.within id));
      balance = ground (
        arith,
        pages,
        v.balance,
        total_usage-set s.container id u h,
        delegated-set s.container id u,
      );
      budget = ground (arith, v.budget, normal_pages-set s.pmm.mat page 0);
    }

-- Freeing an allocated page on behalf of a container that uses some memory marks the page free,
-- takes one from the container's usage, and keeps the accounts sound.
pub container_free-IsSound :
    {s : Kern} (id page : ℕ)
    → IsSound s
    → id < num_ids
    → 0 < (s.container id).usage
    → (s.pmm.mat.at_table page).allocated ≡ 1
    → (container_free id page s ≡ returned s id page) × IsSound (container_free id page s)
container_free-IsSound {s} id page v h q a =
    let e =
      container_free-returned s id page q (omega (arith, v.tree.within id, v.tree.small id)) in
    (e, rw e (returned-IsSound s id page v h q a))
