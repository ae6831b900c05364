-- ===== src/Pmm/MatInit/Spec.antt =====
-- `pmem_init` against a description of the allocation table by the list of regions.
use cs.Prelude.{
  ℕ, zero, suc, ◌+◌, ◌-◌, ◌*◌, ◌/◌, ◌%◌, ◌≤◌, ◌<◌, ◌≡◌, refl, ◌∙◌, ap, inl, inr, Bool, true, false,
  ◌&&◌, ◌||◌, some, ltb, leb, List, [], ◌∷◌, ◌==◌, if◌then◌else◌, add32, sub32, arith, length,
  get_elem?, Bool-cases,
}
use cs.Dev.Mboot.{Pmmap, PmmapState, get_size, get_mms, get_mml, is_usable, pagesize, mem_ram}
use cs.Dev.Mboot.Getters.{field_of, getters_lem}
use cs.Dev.Mboot.Fit.{RegionsFit}
use cs.Pmm.MatIntro.{Mat, AtStruct, truthy, set_nps, at_set_perm}
use cs.Pmm.MatOp.{vm_userlo_pi, vm_userhi_pi}
use cs.Pmm.MatInit.{nps_loop, row_holds, row_loop, init_page, page_loop, pmem_fill}

-- The highest end of a region, from `top` on.
unfoldable pub highest_end : ℕ → List Pmmap → ℕ
highest_end top [] = top
highest_end top (x ∷ l) = highest_end (if ltb top x.end then x.end else top) l

-- Whether the whole page lies in the region.
unfoldable pub holds_page : ℕ → Pmmap → Bool
holds_page pg x = leb x.start (pg * pagesize) && leb ((pg + 1) * pagesize) x.end

-- 2 if the first region that holds the whole page is usable, and otherwise 0.
unfoldable pub user_perm : ℕ → List Pmmap → ℕ
user_perm pg [] = 0
user_perm pg (x ∷ l) =
    let further = user_perm pg l in
    if holds_page pg x then (if x.type == mem_ram then 2 else 0) else further

unfoldable pub page_perm : ℕ → List Pmmap → ℕ
page_perm pg l = if ltb pg vm_userlo_pi || leb vm_userhi_pi pg then 1 else user_perm pg l

-- `l` is what is left of the map at index `i`.
abbrev From : PmmapState → ℕ → List Pmmap → Type 0
From b i l = (k : ℕ) → get_elem? b.pmmap_list (i + k) ≡ get_elem? l k

-- The permission that the two results of the loop over the rows call for.
abbrev perm_of : ℕ × ℕ → ℕ
perm_of (flag, isnorm) = if truthy flag && truthy isnorm then 2 else 0

set_perm_of :
    (pg : ℕ) (m : Mat) (r : ℕ × ℕ)
    → (if truthy r.0 && truthy r.1 then at_set_perm pg 2 m else at_set_perm pg 0 m)
      ≡ at_set_perm pg (perm_of r) m
set_perm_of pg m r = ground arith

module _ (b : PmmapState) (counted : b.pmmap_nentries ≡ length b.pmmap_list) where
  From-tail : (i : ℕ) (x : Pmmap) (l : List Pmmap) → From b i (x ∷ l) → From b (i + 1) l
  From-tail i x l h k = let e : i + 1 + k ≡ i + suc k = omega arith in rw e (h (suc k))

  From-head :
      (i : ℕ) (x : Pmmap) (l : List Pmmap) → From b i (x ∷ l) → get_elem? b.pmmap_list i ≡ some x
  From-head i x l h = let e : i + 0 ≡ i = omega arith in rw e at (h 0)

  -- The getters at the head of what is left.
  row :
      (i : ℕ) (x : Pmmap) (l : List Pmmap)
      → From b i (x ∷ l)
      → (get_mms i b ≡ x.start)
        × (get_mml i b ≡ sub32 x.end x.start)
        × (is_usable i b ≡ (if x.type == mem_ram then 1 else 0))
  row i x l h =
      let at_i = From-head i x l h in
      let g = getters_lem i b counted in
      (
        g.0 ∙ ap (field_of (λ x. x.start)) at_i,
        g.1 ∙ ap (field_of (λ x. sub32 x.end x.start)) at_i,
        g.2 ∙ ap (field_of (λ x. if x.type == mem_ram then 1 else 0)) at_i,
      )

  nps_step :
      (left i top : ℕ)
      → nps_loop b (suc left) i top
        ≡ nps_loop b left (i + 1) (
            if ltb top (add32 (get_mms i b) (get_mml i b))
            then add32 (get_mms i b) (get_mml i b)
            else top)
  unfolding nps_loop
  nps_step left i top = refl

  highest_step :
      (top : ℕ) (x : Pmmap) (l : List Pmmap)
      → highest_end top (x ∷ l) ≡ highest_end (if ltb top x.end then x.end else top) l
  unfolding highest_end
  highest_step top x l = refl

  nps_loop-highest :
      (l : List Pmmap) (i top : ℕ)
      → RegionsFit l
      → From b i l
      → nps_loop b (length l) i top ≡ highest_end top l
  nps_loop-highest [] i top fit h = unfold nps_loop highest_end in refl
  nps_loop-highest (x ∷ l) i top (fit, fits) h =
      let r = row i x l h in
      let cur : add32 x.start (sub32 x.end x.start) ≡ x.end = omega arith in
      rw (nps_step (length l) i top, r.0, r.1, cur, highest_step top x l)
        (nps_loop-highest l (i + 1) (if ltb top x.end then x.end else top) fits (From-tail i x l h))

  row_holds-page :
      (pg i : ℕ) (x : Pmmap) (l : List Pmmap)
      → pg < vm_userhi_pi
      → (x.start ≤ x.end) × (x.end < 0x1_0000_0000)
      → From b i (x ∷ l)
      → row_holds b pg i ≡ holds_page pg x
  unfolding row_holds holds_page
  row_holds-page pg i x l hi fit h =
      let r = row i x l h in
      let cur : add32 x.start (sub32 x.end x.start) ≡ x.end = omega arith in
      rw (r.0, r.1, cur) (ground arith)

  row_loop_stop : (pg left i isnorm : ℕ) → row_loop b pg left i 1 isnorm ≡ (1, isnorm)
  unfolding row_loop
  row_loop_stop pg zero i isnorm = refl
  row_loop_stop pg (suc left) i isnorm = refl

  row_step :
      (pg left i isnorm : ℕ)
      → row_loop b pg (suc left) i 0 isnorm
        ≡ row_loop b pg left (i + 1) (if row_holds b pg i then 1 else 0) (is_usable i b)
  unfolding row_loop
  row_step pg left i isnorm = refl

  user_here :
      (pg : ℕ) (x : Pmmap) (l : List Pmmap)
      → holds_page pg x ≡ true
      → user_perm pg (x ∷ l) ≡ (if x.type == mem_ram then 2 else 0)
  unfolding user_perm
  user_here pg x l e = rw e

  user_further :
      (pg : ℕ) (x : Pmmap) (l : List Pmmap)
      → holds_page pg x ≡ false
      → user_perm pg (x ∷ l) ≡ user_perm pg l
  unfolding user_perm
  user_further pg x l e = rw e

  row_loop-user_perm :
      (pg : ℕ) (l : List Pmmap) (i isnorm : ℕ)
      → pg < vm_userhi_pi
      → RegionsFit l
      → From b i l
      → perm_of (row_loop b pg (length l) i 0 isnorm) ≡ user_perm pg l
  row_loop-user_perm pg [] i isnorm hi fit h = unfold row_loop user_perm in refl
  row_loop-user_perm pg (x ∷ l) i isnorm hi (fit, fits) h = elim (Bool-cases (holds_page pg x)) [
    | inl e ↦
        rw
          (
            row_step pg (length l) i isnorm,
            row_holds-page pg i x l hi fit h,
            e,
            row_loop_stop pg (length l) (i + 1) (is_usable i b),
            (row i x l h).2,
            user_here pg x l e,
          )
          (ground arith)
    | inr e ↦
        rw
          (
            row_step pg (length l) i isnorm,
            row_holds-page pg i x l hi fit h,
            e,
            user_further pg x l e,
          )
          (row_loop-user_perm pg l (i + 1) (is_usable i b) hi fits (From-tail i x l h))
  ]

-- Page `pg` with the permission that the map gives it.
abbrev pub page_entry : ℕ → List Pmmap → AtStruct
page_entry pg l = record { perm = page_perm pg l; allocated = 0 }

module _ (b : PmmapState) (counted : b.pmmap_nentries ≡ length b.pmmap_list)
    (fit : RegionsFit b.pmmap_list) where
  whole : From b 0 b.pmmap_list
  whole k = let e : 0 + k ≡ k = omega arith in rw e refl

  init_user :
      (pg : ℕ) (m : Mat)
      → (ltb pg vm_userlo_pi || leb vm_userhi_pi pg) ≡ false
      → init_page b pg m ≡ at_set_perm pg (perm_of (row_loop b pg (length b.pmmap_list) 0 0 0)) m
  unfolding init_page get_size
  init_user pg m e = rw (← counted, e) (set_perm_of pg m (row_loop b pg b.pmmap_nentries 0 0 0))

  init_page_lem :
      (pg : ℕ) (m : Mat) → init_page b pg m ≡ at_set_perm pg (page_perm pg b.pmmap_list) m
  init_page_lem pg m = elim (Bool-cases (ltb pg vm_userlo_pi || leb vm_userhi_pi pg)) [
    | inl e ↦ unfold init_page page_perm in rw e refl
    | inr e ↦
        init_user pg m e
        ∙ ap (λ p. at_set_perm pg p m)
            (row_loop-user_perm b counted pg b.pmmap_list 0 0 (ground arith) fit whole
              ∙ unfold page_perm in rw e refl)
  ]

  page_loop_lem :
      (left pg i : ℕ) (m : Mat)
      → (page_loop b left pg m).at_table i
        ≡ (if leb pg i && ltb i (pg + left) then page_entry i b.pmmap_list else m.at_table i)
  unfolding page_loop at_set_perm
  page_loop_lem zero pg i m = ground arith
  page_loop_lem (suc left) pg i m =
      page_loop_lem left (pg + 1) i (init_page b pg m) ∙ rw init_page_lem (ground arith)

  num_pages-page_loop : (left pg : ℕ) (m : Mat) → (page_loop b left pg m).num_pages ≡ m.num_pages
  unfolding page_loop at_set_perm
  num_pages-page_loop zero pg m = refl
  num_pages-page_loop (suc left) pg m =
      num_pages-page_loop left (pg + 1) (init_page b pg m) ∙ rw (init_page_lem pg m)

  top-highest : nps_loop b (get_size b) 0 0 ≡ highest_end 0 b.pmmap_list
  unfolding get_size
  top-highest =
      ap (λ n. nps_loop b n 0 0) counted ∙ nps_loop-highest b counted b.pmmap_list 0 0 fit whole

  -- The number of pages that `pmem_init` finds.
  abbrev pub page_count : ℕ
  page_count = highest_end 0 b.pmmap_list / pagesize

  fill_eq : (m : Mat) → pmem_fill b m ≡ page_loop b page_count 0 (set_nps page_count m)
  unfolding pmem_fill
  fill_eq m =
      let e : (highest_end 0 b.pmmap_list - highest_end 0 b.pmmap_list % pagesize) / pagesize
          ≡ page_count =
        omega arith in
      rw (top-highest, e, pmem_fill)

  -- On a counted map whose regions fit in 4G, `pmem_init` takes the number of pages from the highest
  -- end of a region, gives each page below it the permission that the map calls for, marks it
  -- unallocated, and leaves every other entry alone.
  pub pmem_fill_lem :
      (m : Mat) (i : ℕ)
      → ((pmem_fill b m).num_pages ≡ page_count)
        × ((pmem_fill b m).at_table i
            ≡ (if ltb i page_count then page_entry i b.pmmap_list else m.at_table i))
  unfolding set_nps
  pmem_fill_lem m i = (
    rw (fill_eq m) (num_pages-page_loop page_count 0 (set_nps page_count m)),
    rw (fill_eq m) (page_loop_lem page_count 0 i (set_nps page_count m) ∙ ground arith),
  )
