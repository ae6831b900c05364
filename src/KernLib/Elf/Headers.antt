-- ===== src/KernLib/Elf/Headers.antt =====
-- The loop over the program headers.
use cs.Prelude.{
  ℕ, zero, suc, ◌+◌, ◌-◌, ◌*◌, ◌%◌, ◌<◌, ◌≤◌, ◌≡◌, ◌≢◌, ◌∙◌, ◌⊎◌, inl, inr, some, ◌==◌, refl, ap,
  subst, arith, Bool-cases,
}
use cs.KernLib.Str.{Memory}
use cs.KernLib.Pmap.{Paging, vm_userhi}
use cs.KernLib.Elf.{Proghdr, proghdr_at, eva_of, perm_of, load_segment, load_headers}
use cs.KernLib.Elf.View.{entry, Shows, Kept, IsAllocator, Kept-trans, Shows-Kept}
use cs.KernLib.Elf.Segment.{perm_of-odd}
use cs.KernLib.Elf.Load.{start_of, page_count, segment_byte, load_segment-skip, load_segment_lem}
use cs.KernLib.Elf.Table.{
  AreSegments, pages_needed, AreAbsent, AreLoaded, MapsSegments, SameImage, AreSegments-rest,
  proghdr_at-SameImage, segment_byte-SameImage,
}

load_headers-step :
    {Tables : Type 0} (left : ℕ) (p : Paging Tables) (pid exe ph : ℕ) (s s' : Tables × Memory)
    → load_segment p pid exe (proghdr_at s.1 ph) s ≡ some s'
    → load_headers (suc left) p pid exe ph s ≡ load_headers left p pid exe (ph + 32) s'
unfolding load_headers
load_headers-step left p pid exe ph s s' run = rw (load_headers, run) refl

module _ {Tables : Type 0} (p : Paging Tables) (pid lo hi : ℕ) (Ready : ℕ → Tables → Type 0)
    (a : IsAllocator p pid lo hi Ready) (exe : ℕ) (range : hi ≤ vm_userhi) (from : lo ≤ exe)
    (mem0 : Memory) where
  -- One header, be it one to load or not.
  header_lem :
      (left r : ℕ) (hdr : ℕ → Proghdr) (s : Tables × Memory)
      → SameImage lo hi mem0 s.1
      → AreSegments lo hi exe (suc left) hdr
      → Ready (pages_needed (suc left) hdr + r) s.0
      → AreAbsent p pid (suc left) hdr s
      → (s' : Tables × Memory) × (load_segment p pid exe (hdr 0) s ≡ some s')
        × Ready (pages_needed left (λ i. hdr (i + 1)) + r) s'.0
        × Kept p pid lo hi s s'
        × ((u : ℕ)
            → ((hdr 0).p_type ≡ 1 → (u < start_of (hdr 0)) ⊎ (eva_of (hdr 0) ≤ u))
            → entry p pid s' u ≡ entry p pid s u)
        × ((hdr 0).p_type ≡ 1
            → Shows p pid
                (start_of (hdr 0))
                (eva_of (hdr 0))
                (perm_of (hdr 0))
                (segment_byte mem0 exe (hdr 0))
                s')
  header_lem left r hdr s same are ready absent =
      let rest = pages_needed left (λ i. hdr (i + 1)) in
      elim (Bool-cases ((hdr 0).p_type == 1)) [
        | inl load ↦
            let is : (hdr 0).p_type ≡ 1 = ground arith in
            let all : pages_needed (suc left) hdr + r ≡ page_count (hdr 0) + (rest + r) =
              rw load (omega arith) in
            let h = are.segments 0 (omega arith) is in
            let (s', run, ready', kept, only, shows) =
              load_segment_lem p pid lo hi Ready a exe (rest + r) (hdr 0) s range from is h
                (subst (λ n. Ready n s.0) all ready) (absent 0 (omega arith) is) in
            (
              s',
              run,
              ready',
              kept,
              λ u out. only u (out is),
              λ _ u l k.
                  let (e, b) = shows u l k in
                  (e, b ∙ segment_byte-SameImage lo hi exe (hdr 0) mem0 s.1 u h from same l),
            )
        | inr skip ↦
            let is : (hdr 0).p_type ≢ 1 = ground arith in
            let all : pages_needed (suc left) hdr + r ≡ rest + r = rw skip refl in
            (
              s,
              load_segment-skip p pid exe (hdr 0) s is,
              subst (λ n. Ready n s.0) all ready,
              ((λ x l h. refl), (λ u here. (refl, refl))),
              λ u out. refl,
              λ e. absurd (is e),
            )
      ]

  -- The pages of the later segments are none of the first one's.
  AreAbsent-rest :
      (left : ℕ) (hdr : ℕ → Proghdr) (s s' : Tables × Memory)
      → AreSegments lo hi exe (suc left) hdr
      → AreAbsent p pid (suc left) hdr s
      → ((u : ℕ)
          → ((hdr 0).p_type ≡ 1 → (u < start_of (hdr 0)) ⊎ (eva_of (hdr 0) ≤ u))
          → entry p pid s' u ≡ entry p pid s u)
      → AreAbsent p pid left (λ i. hdr (i + 1)) s'
  AreAbsent-rest left hdr s s' are absent only i k load u l h =
      let out : (hdr 0).p_type ≡ 1 → (u < start_of (hdr 0)) ⊎ (eva_of (hdr 0) ≤ u) = λ first.
        elim (are.disjoint 0 (i + 1) (omega arith) (omega arith) first load) [
          | inl before ↦ inr (omega arith)
          | inr behind ↦ inl (omega arith)
        ] in
      ap (λ x. x % 2) (only u out) ∙ absent (i + 1) (omega arith) load u l h

  pub load_headers_lem :
      (left ph r : ℕ) (hdr : ℕ → Proghdr) (s : Tables × Memory)
      → lo ≤ ph
      → ph + 32 * left ≤ hi
      → ((i : ℕ) → i < left → proghdr_at s.1 (ph + 32 * i) ≡ hdr i)
      → SameImage lo hi mem0 s.1
      → AreSegments lo hi exe left hdr
      → Ready (pages_needed left hdr + r) s.0
      → AreAbsent p pid left hdr s
      → (s' : Tables × Memory) × (load_headers left p pid exe ph s ≡ some s')
        × Ready r s'.0
        × Kept p pid lo hi s s'
        × MapsSegments p pid left hdr s s'
        × AreLoaded p pid mem0 exe left hdr s'
  unfolding load_headers
  load_headers_lem zero ph r hdr s first table reads same are ready absent =
      let no_more : 0 + r ≡ r = omega arith in
      (
        s,
        refl,
        subst (λ n. Ready n s.0) no_more ready,
        ((λ x l h. refl), (λ u here. (refl, refl))),
        λ u out. refl,
        λ i k. absurd (omega arith),
      )
  load_headers_lem (suc left) ph r hdr s first table reads same are ready absent =
      let start : ph ≡ ph + 32 * 0 = omega arith in
      let at : proghdr_at s.1 ph ≡ hdr 0 = ap (proghdr_at s.1) start ∙ reads 0 (omega arith) in
      let (s1, run, ready1, kept1, only1, shows1) = header_lem left r hdr s same are ready absent in
      let (s2, run2, ready2, kept2, only2, shows2) =
        load_headers_lem left (ph + 32) r (λ i. hdr (i + 1)) s1 (omega arith) (omega arith)
          (λ i k.
            let next : ph + 32 + 32 * i ≡ ph + 32 * (i + 1) = omega arith in
            proghdr_at-SameImage lo hi (ph + 32 + 32 * i) s.1 s1.1 kept1.0 (omega arith)
              (omega arith)
            ∙ ap (proghdr_at s.1) next
            ∙ reads (i + 1) (omega arith))
          (λ x l h. kept1.0 x l h ∙ same x l h) (AreSegments-rest lo hi exe left hdr are) ready1
          (AreAbsent-rest left hdr s s1 are absent only1) in
      (
        s2,
        load_headers-step left p pid exe ph s s1 (ap (λ h. load_segment p pid exe h s) at ∙ run)
            ∙ run2,
        ready2,
        Kept-trans p pid lo hi s s1 s2 kept1 kept2,
        λ u out.
            only2 u (λ i k load. out (i + 1) (omega arith) load)
            ∙ only1 u (λ load. out 0 (omega arith) load),
        λ i k load. elim (Bool-cases (i == 0)) [
          | inl z ↦
              let zero_th : 0 ≡ i = ground arith in
              subst
                (λ j.
                  (hdr j).p_type ≡ 1
                  → Shows p pid (start_of (hdr j)) (eva_of (hdr j)) (perm_of (hdr j))
                      (segment_byte mem0 exe (hdr j)) s2)
                zero_th
                (λ load'.
                  Shows-Kept p pid lo hi (start_of (hdr 0)) (eva_of (hdr 0)) (perm_of (hdr 0))
                    (segment_byte mem0 exe (hdr 0)) s1 s2 (perm_of-odd (hdr 0)).0 kept2
                    (shows1 load'))
                load
          | inr nz ↦
              let later : i - 1 + 1 ≡ i = ground arith in
              subst
                (λ j.
                  (hdr j).p_type ≡ 1
                  → Shows p pid (start_of (hdr j)) (eva_of (hdr j)) (perm_of (hdr j))
                      (segment_byte mem0 exe (hdr j)) s2)
                later (shows2 (i - 1) (ground arith)) load
        ],
      )
