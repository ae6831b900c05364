-- ===== src/Pmm/MatOp/Palloc.antt =====
-- What `palloc` and `pfree` do to a valid allocator.
use mathlib.Core.Path.{fun_ext}
use cs.Prelude.{
  ℕ, ◌+◌, ◌≤◌, ◌<◌, ◌≡◌, ◌≢◌, ◌⊎◌, ◌↔◌, inl, inr, true, false, some, arith, Bool-cases,
}
use cs.Pmm.MatIntro.{Mat, at_set_allocated}
use cs.Pmm.MatOp.{
  vm_userlo_pi, vm_userhi_pi, user_pages, Pmm, ScanVars, page_is_free, scan_loop, scan_finish,
  palloc, pfree,
}
use cs.Pmm.MatOp.Scan.{
  cyclic, cyclic_bounds, cyclic_onto, Scanned, exhausted, found, scan_loop-Scanned,
}

-- A page that may be handed out: of normal permission, and not allocated.
abbrev pub IsFree : Mat → ℕ → Type 0
IsFree m i = (1 < (m.at_table i).perm) × ((m.at_table i).allocated ≡ 0)

pub page_is_free_iff : (i : ℕ) (m : Mat) → (page_is_free i m ≡ true) ↔ IsFree m i
unfolding page_is_free
page_is_free_iff i m = ground arith

pub not-IsFree : (i : ℕ) (m : Mat) → page_is_free i m ≡ false → ¬ IsFree m i
not-IsFree i m e f = ground (arith, page_is_free_iff i m)

-- The scan starts in user memory, and pages that the machine does not have are not normal.
pub record IsValid (p : Pmm) : Type 0 where
  pub lo : vm_userlo_pi ≤ p.last_palloc_index
  pub hi : p.last_palloc_index < vm_userhi_pi
  pub beyond : (i : ℕ) → p.mat.num_pages ≤ i → (p.mat.at_table i).perm ≤ 1

module _ {p : Pmm} (v : IsValid p) where
  abbrev start : ScanVars
  start = record {
    palloc_index = p.last_palloc_index;
    palloc_free_index = p.mat.num_pages;
    first = true;
  }

  end_taken : page_is_free p.mat.num_pages p.mat ≡ false
  end_taken = elim (Bool-cases (page_is_free p.mat.num_pages p.mat)) [
    | inl e ↦
        absurd (ground (arith, page_is_free_iff p.mat.num_pages p.mat, v.beyond p.mat.num_pages))
    | inr e ↦ e
  ]

  pub palloc_of_scan :
      (s : ScanVars)
      → scan_loop (user_pages + 1) p.mat p.mat.num_pages p.last_palloc_index start ≡ some s
      → palloc p ≡ some (scan_finish p.mat.num_pages p s)
  unfolding palloc
  palloc_of_scan s e = rw (e, palloc)

  pub scanned :
      Scanned p.mat p.mat.num_pages p.last_palloc_index 0
        (scan_loop (user_pages + 1) p.mat p.mat.num_pages p.last_palloc_index start)
  unfolding cyclic
  scanned =
      scan_loop-Scanned p.mat p.mat.num_pages p.last_palloc_index v.lo v.hi end_taken user_pages 0
        (user_pages + 1) start (omega arith) (omega arith) (ground arith)

-- The page that the walk finds, written out.
abbrev pub taken : Pmm → ℕ → Pmm
taken p i = record { mat = at_set_allocated i 1 p.mat; last_palloc_index = i }

-- The two ways in which a call of `palloc` may end.
pub data PallocSpec (p : Pmm) : Type 0 where
  none_free :
      palloc p ≡ some (0, record p { last_palloc_index = vm_userlo_pi })
      → ((i : ℕ) → vm_userlo_pi ≤ i → i < vm_userhi_pi → ¬ IsFree p.mat i)
      → PallocSpec p
  first_free :
      (j : ℕ)
      → j < user_pages
      → palloc p ≡ some (cyclic p.last_palloc_index j, taken p (cyclic p.last_palloc_index j))
      → IsFree p.mat (cyclic p.last_palloc_index j)
      → ((i : ℕ) → i < j → ¬ IsFree p.mat (cyclic p.last_palloc_index i))
      → PallocSpec p

module _ {p : Pmm} (v : IsValid p) where
  finish_none :
      (s : ScanVars)
      → s.palloc_free_index ≡ p.mat.num_pages
      → scan_finish p.mat.num_pages p s ≡ (0, record p { last_palloc_index = vm_userlo_pi })
  unfolding scan_finish
  finish_none s e = ground arith

  finish_found :
      (s : ScanVars) (i : ℕ)
      → s.palloc_free_index ≡ i
      → IsFree p.mat i
      → scan_finish p.mat.num_pages p s ≡ (i, taken p i)
  unfolding scan_finish
  finish_found s i e f =
      let ne : i ≢ p.mat.num_pages = λ q. ground (arith, v.beyond i) in ground (arith, e, ne)

  -- On a valid allocator `palloc` returns. Either it hands out the first free page in the cyclic
  -- order of the user pages from the last allocated one, marks that page allocated, changes no other
  -- entry and remembers the page; or no user page is free, and it returns 0, leaves the table alone
  -- and goes back to the first user page.
  pub palloc_first_fit : PallocSpec p
  palloc_first_fit = from_scan (scanned v)
    where
      from_scan :
          Scanned p.mat p.mat.num_pages p.last_palloc_index 0
            (scan_loop (user_pages + 1) p.mat p.mat.num_pages p.last_palloc_index (start v))
          → PallocSpec p
      from_scan (exhausted s e n all) =
          none_free (rw (palloc_of_scan v s e, finish_none s n)) λ i lo hi.
            let (k, below, at_i) = cyclic_onto p.last_palloc_index i v.lo v.hi lo hi in
            not-IsFree i p.mat (rw (← at_i) (all k (omega arith) below))
      from_scan (found s j e n q below f all) =
          let free : IsFree p.mat (cyclic p.last_palloc_index j) = (page_is_free_iff _ p.mat).0 f in
          first_free j below (rw (palloc_of_scan v s e, finish_found s _ n free)) free
            (λ i h. not-IsFree _ p.mat (all i (omega arith) h))

taken-IsValid :
    {p : Pmm} (j : ℕ)
    → IsValid p
    → j < user_pages
    → IsValid (taken p (cyclic p.last_palloc_index j))
unfolding at_set_allocated
taken-IsValid {p} j v below =
    let bounds = cyclic_bounds p.last_palloc_index j v.lo v.hi (omega arith) in
    record { lo = bounds.0; hi = bounds.1; beyond = λ i h. ground (arith, v.beyond i h) }

-- Whatever a call of `palloc` on a valid allocator returns, the allocator is valid after it, and
-- the page is 0 or a user page that the machine has.
pub palloc-IsValid :
    {p p' : Pmm} {r : ℕ}
    → IsValid p
    → palloc p ≡ some (r, p')
    → IsValid p' × ((r ≡ 0) ⊎ ((vm_userlo_pi ≤ r) × (r < vm_userhi_pi) × (r < p.mat.num_pages)))
palloc-IsValid {p} {p'} {r} v e = go (palloc_first_fit v)
  where
    go :
        PallocSpec p
        → IsValid p' × ((r ≡ 0) ⊎ ((vm_userlo_pi ≤ r) × (r < vm_userhi_pi) × (r < p.mat.num_pages)))
    go (none_free q all) =
        let same : (r ≡ 0) × (p' ≡ record p { last_palloc_index = vm_userlo_pi }) = ground arith in
        (rw same.1 (record { lo = omega arith; hi = omega arith; beyond = v.beyond }), inl same.0)
    go (first_free j below q free earlier) =
        let i = cyclic p.last_palloc_index j in
        let same : (r ≡ i) × (p' ≡ taken p i) = ground arith in
        let bounds = cyclic_bounds p.last_palloc_index j v.lo v.hi (omega arith) in
        (
          rw same.1 (taken-IsValid j v below),
          inr (rw same.0 (bounds.0, bounds.1, ground (arith, v.beyond i))),
        )

-- `pfree` keeps the allocator valid, whatever index it is given.
pub pfree-IsValid : {p : Pmm} (i : ℕ) → IsValid p → IsValid (pfree i p)
unfolding pfree at_set_allocated
pfree-IsValid i v = record { lo = v.lo; hi = v.hi; beyond = λ j h. ground (arith, v.beyond j h) }

free_after_taken :
    (m : Mat) (i : ℕ)
    → (m.at_table i).allocated ≡ 0
    → (j : ℕ) → (at_set_allocated i 0 (at_set_allocated i 1 m)).at_table j ≡ m.at_table j
unfolding at_set_allocated
free_after_taken m i e j = ground arith

table_back :
    (m : Mat) (i : ℕ)
    → (m.at_table i).allocated ≡ 0
    → at_set_allocated i 0 (at_set_allocated i 1 m) ≡ m
unfolding at_set_allocated
table_back m i f =
    λ k. record { num_pages = m.num_pages; at_table = fun_ext (free_after_taken m i f) k }

-- Freeing the page that `palloc` handed out gives the whole allocation table back.
pub pfree-palloc :
    {p p' : Pmm} {r : ℕ} → IsValid p → palloc p ≡ some (r, p') → r ≢ 0 → (pfree r p').mat ≡ p.mat
pfree-palloc {p} {p'} {r} v e ne = go (palloc_first_fit v)
  where
    go : PallocSpec p → (pfree r p').mat ≡ p.mat
    go (none_free q all) = absurd (ne (ground arith))
    go (first_free j below q free earlier) =
        let i = cyclic p.last_palloc_index j in
        let same : (r ≡ i) × (p' ≡ taken p i) = ground arith in
        rw (same.0, same.1) (unfold pfree in table_back p.mat i free.1)
