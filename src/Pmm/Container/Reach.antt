-- ===== src/Pmm/Container/Reach.antt =====
-- Any sequence of guarded calls of the container layer after boot.
use cs.Prelude.{ℕ, ◌+◌, ◌≤◌, ◌<◌, ◌≡◌, ◌≢◌, ◌∙◌, inl, inr, some, arith}
use cs.Dev.Mboot.{MbootMmap}
use cs.Dev.Mboot.Fit.{EntriesFit}
use cs.Pmm.Container.{
  Kern, kern_zero, num_ids, container_init, container_can_consume, container_alloc, container_free,
  container_split,
}
use cs.Pmm.Container.Sums.{at_size, allocated_pages}
use cs.Pmm.Container.Inv.{IsSound, allocated-le-budget}
use cs.Pmm.Container.Consume.{container_can_consume_iff}
use cs.Pmm.Container.Alloc.{granted, container_alloc-succeeds, container_free-IsSound}
use cs.Pmm.Container.Split.{container_split-IsSound}
use cs.Pmm.Container.Init.{container_init-IsSound}

-- A call that its caller has guarded as the comments of the layer ask for.
pub data Step (s : Kern) : Kern → Type 0 where
  alloc :
      (id r : ℕ) {s' : Kern}
      → id < num_ids
      → container_can_consume id 1 s ≡ 1
      → container_alloc id s ≡ some (r, s')
      → Step s s'
  free :
      (id page : ℕ) {s' : Kern}
      → id < num_ids
      → 0 < (s.container id).usage
      → (s.pmm.mat.at_table page).allocated ≡ 1
      → s' ≡ container_free id page s
      → Step s s'
  split :
      (id quota : ℕ) {s' : Kern}
      → id < num_ids
      → (s.container id).used ≢ 0
      → (s.container id).nchildren < 3
      → quota ≤ at_size
      → container_can_consume id quota s ≡ 1
      → s' ≡ (container_split id quota s).1
      → Step s s'

pub data Reach (s : Kern) : Kern → Type 0 where
  here : Reach s s
  next : {t u : Kern} → Reach s t → Step t u → Reach s u

can_consume-le :
    {s : Kern} (id n : ℕ)
    → IsSound s
    → n ≤ at_size
    → container_can_consume id n s ≡ 1
    → (s.container id).usage + n ≤ (s.container id).quota
can_consume-le {s} id n v h e =
    (container_can_consume_iff id n s (omega (arith, v.tree.within id, v.tree.small id))).0.0 e

-- A step keeps the accounts, and the root's quota.
Step-IsSound :
    {s s' : Kern}
    → IsSound s
    → Step s s'
    → IsSound s' × ((s'.container 0).quota ≡ (s.container 0).quota)
Step-IsSound {s} {s'} v (alloc id r h c e) =
    let (r', e', ne, f, w) =
      container_alloc-succeeds id v h (omega (arith, can_consume-le id 1 v (omega arith) c)) in
    let same : s' ≡ granted s id r' = ground arith in rw same (w, ground arith)
Step-IsSound {s} {s'} v (free id page h u a e) =
    let (e', w) = container_free-IsSound id page v h u a in rw e (w, rw e' (ground arith))
Step-IsSound {s} {s'} v (split id quota h used room q c e) =
    elim (container_split-IsSound id quota v h used room (can_consume-le id quota v q c)) [
      | inl full ↦ rw (e, full.1) (v, ground arith)
      | inr made ↦ rw (e, made.1) (made.3, ground arith)
    ]

Reach-IsSound :
    {s t : Kern}
    → IsSound s
    → Reach s t
    → IsSound t × ((t.container 0).quota ≡ (s.container 0).quota)
Reach-IsSound v here = (v, ground arith)
Reach-IsSound v (next r st) =
    let (w, q) = Reach-IsSound v r in let (w', q') = Step-IsSound w st in (w', q' ∙ q)

-- From a `container_init` that returns without a panic, on entries with 32-bit start addresses and a
-- memory map shorter than 4G less one entry, no sequence of guarded allocations, frees and splits
-- breaks the accounts, changes the root's quota, or allocates more pages than that quota.
pub Reach-after_init :
    (mmap : ℕ → MbootMmap) (len : ℕ) {s t : Kern}
    → EntriesFit mmap
    → len + 24 ≤ 0x1_0000_0000
    → container_init mmap len kern_zero ≡ some (some s)
    → Reach s t
    → IsSound t
      × ((t.container 0).quota ≡ (s.container 0).quota)
      × (allocated_pages t.pmm.mat ≤ (s.container 0).quota)
Reach-after_init mmap len {s} {t} f h e r =
    let (w, q) = Reach-IsSound (container_init-IsSound mmap len s f h e).0 r in
    (w, q, omega (arith, allocated-le-budget w, q))
