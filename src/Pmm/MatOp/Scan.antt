-- ===== src/Pmm/MatOp/Scan.antt =====
-- The loop of `palloc`: a walk round the user pages, once, from the last allocated page.
use cs.Prelude.{
  ℕ, zero, suc, ◌+◌, ◌-◌, ◌≤◌, ◌<◌, ◌≡◌, inl, inr, true, false, Option, some, ltb, ◌==◌,
  if◌then◌else◌, arith, Bool-cases, ◌≢◌,
}
use cs.Pmm.MatIntro.{Mat}
use cs.Pmm.MatOp.{
  vm_userlo_pi, vm_userhi_pi, user_pages, ScanVars, page_is_free, scan_test, next_index, scan_body,
  scan_loop,
}

-- The page that the walk from `last` reaches after `k` steps.
unfoldable pub cyclic : ℕ → ℕ → ℕ
cyclic last k = if ltb (last + k) vm_userhi_pi then last + k else last + k - user_pages

pub cyclic_bounds :
    (last k : ℕ)
    → vm_userlo_pi ≤ last
    → last < vm_userhi_pi
    → k ≤ user_pages
    → (vm_userlo_pi ≤ cyclic last k) × (cyclic last k < vm_userhi_pi)
unfolding cyclic
cyclic_bounds last k lo hi h = ground arith

next_index-cyclic :
    (last k : ℕ)
    → vm_userlo_pi ≤ last
    → last < vm_userhi_pi
    → k < user_pages
    → next_index (cyclic last k) ≡ cyclic last (k + 1)
unfolding cyclic next_index
next_index-cyclic last k lo hi h = ground arith

cyclic_round : (last : ℕ) → vm_userlo_pi ≤ last → cyclic last user_pages ≡ last
unfolding cyclic
cyclic_round last lo = ground arith

cyclic-ne :
    (last k : ℕ)
    → vm_userlo_pi ≤ last
    → last < vm_userhi_pi
    → 0 < k
    → k < user_pages
    → cyclic last k ≢ last
unfolding cyclic
cyclic-ne last k lo hi p h = ground arith

-- Every user page is reached.
pub cyclic_onto :
    (last i : ℕ)
    → vm_userlo_pi ≤ last
    → last < vm_userhi_pi
    → vm_userlo_pi ≤ i
    → i < vm_userhi_pi
    → (k : ℕ) × (k < user_pages) × (cyclic last k ≡ i)
unfolding cyclic
cyclic_onto last i lo hi p q = elim (Bool-cases (ltb i last)) [
  | inl e ↦ (i + user_pages - last, ground arith, ground arith)
  | inr e ↦ (i - last, ground arith, ground arith)
]

-- What a walk from step `k` on ends with.
pub data Scanned (m : Mat) (nps last k : ℕ) (o : Option ScanVars) : Type 0 where
  exhausted :
      (s : ScanVars)
      → o ≡ some s
      → s.palloc_free_index ≡ nps
      → ((j : ℕ) → k ≤ j → j < user_pages → page_is_free (cyclic last j) m ≡ false)
      → Scanned m nps last k o
  found :
      (s : ScanVars) (j : ℕ)
      → o ≡ some s
      → s.palloc_free_index ≡ cyclic last j
      → k ≤ j
      → j < user_pages
      → page_is_free (cyclic last j) m ≡ true
      → ((i : ℕ) → k ≤ i → i < j → page_is_free (cyclic last i) m ≡ false)
      → Scanned m nps last k o

module _ (m : Mat) (nps last : ℕ) (lo : vm_userlo_pi ≤ last) (hi : last < vm_userhi_pi)
    (end_taken : page_is_free nps m ≡ false) where
  -- The loop variables after `k` rounds without a free page.
  abbrev pub AtStep : ℕ → ScanVars → Type 0
  AtStep k s = (s.palloc_index ≡ cyclic last k) × (s.palloc_free_index ≡ nps) × (s.first ≡ (k == 0))

  test_at_end : (s : ScanVars) → AtStep user_pages s → scan_test nps last s ≡ false
  unfolding scan_test
  test_at_end s a = ground (arith, cyclic_round last lo)

  test_on_the_way :
      (k : ℕ) (s : ScanVars) → k < user_pages → AtStep k s → scan_test nps last s ≡ true
  unfolding scan_test
  test_on_the_way k s h a = ground (arith, cyclic-ne last k lo hi)

  test_found :
      (k : ℕ) (s : ScanVars)
      → AtStep k s
      → page_is_free (cyclic last k) m ≡ true
      → (scan_test nps last (scan_body m s) ≡ false)
        × ((scan_body m s).palloc_free_index ≡ cyclic last k)
  unfolding scan_test scan_body
  test_found k s a f = ground (arith, end_taken)

  AtStep-suc :
      (k : ℕ) (s : ScanVars)
      → k < user_pages
      → AtStep k s
      → page_is_free (cyclic last k) m ≡ false
      → AtStep (k + 1) (scan_body m s)
  unfolding scan_body
  AtStep-suc k s h a f = ground (arith, next_index-cyclic last k lo hi h)

  Scanned-suc :
      (k : ℕ) (o : Option ScanVars)
      → page_is_free (cyclic last k) m ≡ false
      → Scanned m nps last (k + 1) o
      → Scanned m nps last k o
  Scanned-suc k o f (exhausted s e n all) = exhausted s e n (λ j p q. ground (arith, all j))
  Scanned-suc k o f (found s j e n p q t all) =
      found s j e n (omega arith) q t (λ i p' q'. ground (arith, all i))

  loop_next :
      (fuel : ℕ) (s : ScanVars)
      → scan_test nps last s ≡ true
      → scan_loop (suc fuel) m nps last s ≡ scan_loop fuel m nps last (scan_body m s)
  unfolding scan_loop
  loop_next fuel s e = rw (e, scan_loop)

  loop_stop :
      (fuel : ℕ) (s : ScanVars)
      → scan_test nps last s ≡ false
      → scan_loop (suc fuel) m nps last s ≡ some s
  unfolding scan_loop
  loop_stop fuel s e = rw (e, scan_loop)

  pub scan_loop-Scanned :
      (r k fuel : ℕ) (s : ScanVars)
      → k + r ≡ user_pages
      → r < fuel
      → AtStep k s
      → Scanned m nps last k (scan_loop fuel m nps last s)
  scan_loop-Scanned r k zero s e h a = absurd (omega arith)
  scan_loop-Scanned zero k (suc fuel) s e h a =
      let k_end : k ≡ user_pages = omega arith in
      exhausted s (loop_stop fuel s (test_at_end s (rw k_end at a))) a.1
        (λ j p q. absurd (omega arith))
  scan_loop-Scanned (suc r) k (suc zero) s e h a = absurd (omega arith)
  scan_loop-Scanned (suc r) k (suc (suc fuel)) s e h a =
      rw (loop_next (suc fuel) s (test_on_the_way k s (omega arith) a))
        (elim (Bool-cases (page_is_free (cyclic last k) m)) [
          | inl f ↦
              let (stops, index) = test_found k s a f in
              found (scan_body m s) k (loop_stop fuel (scan_body m s) stops) index (omega arith)
                (omega arith) f (λ i p q. absurd (omega arith))
          | inr f ↦ Scanned-suc k _ f (
              scan_loop-Scanned r (k + 1) (suc fuel) (scan_body m s) (omega arith) (omega arith)
                (AtStep-suc k s (omega arith) a f))
        ])
