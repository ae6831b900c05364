-- ===== src/Pmm/MatInit/Boot.antt =====
-- The allocation table at boot, in terms of the boot loader's entries.
use cs.Prelude.{
  ℕ, ◌+◌, ◌*◌, ◌/◌, ◌≤◌, ◌<◌, ◌≡◌, refl, ◌∙◌, sym, inl, inr, true, Option, none, some, ltb, List,
  [], ◌∷◌, ◌==◌, if◌then◌else◌, arith, Bool-cases, ◌⊎◌,
}
use cs.Dev.Mboot.{Pmmap, MbootMmap, PmmapState, pmmap_zero, pmmap_init, pagesize, mem_ram}
use cs.Dev.Mboot.Insert.{covers, in_region}
use cs.Dev.Mboot.Init.{entries_cover, entry_count}
use cs.Dev.Mboot.Finish.{IsMap}
use cs.Dev.Mboot.Map.{pmmap_init-IsMap}
use cs.Dev.Mboot.Fit.{EntriesFit, RegionsFit, pmmap_init-RegionsFit}
use cs.Pmm.MatIntro.{Mat, mat_zero}
use cs.Pmm.MatOp.{vm_userlo_pi, vm_userhi_pi}
use cs.Pmm.MatOp.Palloc.{IsValid}
use cs.Pmm.MatInit.{pmem_fill, pmem_init}
use cs.Pmm.MatInit.Spec.{highest_end, holds_page, user_perm, page_perm, pmem_fill_lem}

whole_page :
    (pg a : ℕ) (x : Pmmap)
    → holds_page pg x ≡ true
    → pg * pagesize ≤ a
    → a < (pg + 1) * pagesize
    → (x.type == mem_ram) ≡ true
    → in_region mem_ram a x ≡ true
unfolding holds_page in_region
whole_page pg a x h p q t = ground arith

-- A page that gets permission 2 lies whole in usable memory.
user_perm-covers :
    (pg a : ℕ) (l : List Pmmap)
    → user_perm pg l ≡ 2
    → pg * pagesize ≤ a
    → a < (pg + 1) * pagesize
    → covers mem_ram a l ≡ true
unfolding user_perm covers
user_perm-covers pg a [] e p q = absurd (cc e)
user_perm-covers pg a (x ∷ l) e p q = elim (Bool-cases (holds_page pg x)) [
  | inl h ↦ ground (arith, whole_page pg a x h)
  | inr h ↦ ground (arith, user_perm-covers pg a l)
]

highest_end-lt :
    (top : ℕ) (l : List Pmmap)
    → top < 0x1_0000_0000
    → RegionsFit l
    → highest_end top l < 0x1_0000_0000
unfolding highest_end
highest_end-lt top [] h f = h
highest_end-lt top (x ∷ l) h (f, fs) =
    highest_end-lt (if ltb top x.end then x.end else top) l (ground arith) fs

user_perm-cases : (pg : ℕ) (l : List Pmmap) → (user_perm pg l ≡ 0) ⊎ (user_perm pg l ≡ 2)
unfolding user_perm
user_perm-cases pg [] = inl refl
user_perm-cases pg (x ∷ l) = ground (arith, user_perm-cases pg l)

-- `pmem_init` by the result of `pmmap_init`.
abbrev with_fill : Mat → Option (Option PmmapState) → Option (Option (PmmapState × Mat))
with_fill m none = none
with_fill m (some none) = some none
with_fill m (some (some b)) = some (some (b, pmem_fill b m))

pmem_init-with_fill :
    (mmap : ℕ → MbootMmap) (len : ℕ) (s : PmmapState) (m : Mat)
    → pmem_init mmap len s m ≡ with_fill m (pmmap_init mmap len s)
unfolding pmem_init
pmem_init-with_fill mmap len s m = go (pmmap_init mmap len s) refl
  where
    go :
        (o : Option (Option PmmapState))
        → pmmap_init mmap len s ≡ o
        → pmem_init mmap len s m ≡ with_fill m (pmmap_init mmap len s)
    go none y = rw (y, pmem_init)
    go (some none) y = rw (y, pmem_init)
    go (some (some b)) y = rw (y, pmem_init)

with_fill-inv :
    (o : Option (Option PmmapState)) (b : PmmapState) (m₀ m : Mat)
    → with_fill m₀ o ≡ some (some (b, m))
    → (o ≡ some (some b)) × (m ≡ pmem_fill b m₀)
with_fill-inv none b m₀ m e = absurd (cc e)
with_fill-inv (some none) b m₀ m e = absurd (cc e)
with_fill-inv (some (some b')) b m₀ m e = ground arith

-- The allocation table that the first `pmem_init` leaves.
pub record IsBootTable (mmap : ℕ → MbootMmap) (len : ℕ) (m : Mat) : Type 0 where
  pub in_range : m.num_pages < 0x10_0000
  pub unallocated : (i : ℕ) → (m.at_table i).allocated ≡ 0
  pub absent : (i : ℕ) → m.num_pages ≤ i → (m.at_table i).perm ≡ 0
  pub kernel :
      (i : ℕ) → i < m.num_pages → (i < vm_userlo_pi) ⊎ (vm_userhi_pi ≤ i) → (m.at_table i).perm ≡ 1
  pub user :
      (i : ℕ)
      → vm_userlo_pi ≤ i
      → i < vm_userhi_pi
      → ((m.at_table i).perm ≡ 0)
        ⊎ (((m.at_table i).perm ≡ 2)
            × ((a : ℕ)
                → i * pagesize ≤ a
                → a < (i + 1) * pagesize
                → entries_cover mem_ram a mmap 0 (entry_count len) ≡ true))

filled-IsBootTable :
    (mmap : ℕ → MbootMmap) (len : ℕ) (b : PmmapState)
    → IsMap b
    → RegionsFit b.pmmap_list
    → ((t a : ℕ) → covers t a b.pmmap_list ≡ entries_cover t a mmap 0 (entry_count len))
    → IsBootTable mmap len (pmem_fill b mat_zero)
unfolding page_perm
filled-IsBootTable mmap len b v f cov =
    let at = pmem_fill_lem b v.counted f mat_zero in
    record {
      in_range = omega (arith, (at 0).0, highest_end-lt 0 b.pmmap_list (omega arith) f);
      unallocated = λ i. ground (arith, at i);
      absent = λ i h. ground (arith, at i);
      kernel = λ i h out. ground (arith, at i);
      user = λ i lo hi. elim (Bool-cases (ltb i (highest_end 0 b.pmmap_list / pagesize))) [
        | inr n ↦ inl (ground (arith, at i))
        | inl n ↦ elim (user_perm-cases i b.pmmap_list) [
          | inl z ↦ inl (ground (arith, at i))
          | inr z ↦ inr (
            ground (arith, at i),
            λ a p q. sym (cov mem_ram a) ∙ user_perm-covers i a b.pmmap_list z p q,
          )
        ]
      ];
    }

-- When the first `pmem_init` returns without a panic, on entries with 32-bit start addresses and a
-- map shorter than 4G less one entry: the number of pages is within the table; no page is
-- allocated; pages that the machine does not have keep permission 0; the kernel's have 1; a user
-- page has 0, or it has 2 and all its addresses are usable memory by the boot loader's entries.
pub pmem_init-IsBootTable :
    (mmap : ℕ → MbootMmap) (len : ℕ) (b : PmmapState) (m : Mat)
    → EntriesFit mmap
    → len + 24 ≤ 0x1_0000_0000
    → pmem_init mmap len pmmap_zero mat_zero ≡ some (some (b, m))
    → IsBootTable mmap len m
pmem_init-IsBootTable mmap len b m f h e =
    let (built, same) =
      with_fill-inv (pmmap_init mmap len pmmap_zero) b mat_zero m
        (sym (pmem_init-with_fill mmap len pmmap_zero mat_zero) ∙ e) in
    let (v, cov) = pmmap_init-IsMap mmap len b h built in
    rw same (filled-IsBootTable mmap len b v (pmmap_init-RegionsFit mmap len b f h built) cov)

-- After it the page allocator is valid, with its first scan from the first user page.
pub IsBootTable-IsValid :
    {mmap : ℕ → MbootMmap} {len : ℕ} {m : Mat}
    → IsBootTable mmap len m
    → IsValid (record { mat = m; last_palloc_index = vm_userlo_pi })
IsBootTable-IsValid t = record {
  lo = omega arith;
  hi = omega arith;
  beyond = λ i h. omega (arith, t.absent i h);
}
