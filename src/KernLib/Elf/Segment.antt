-- ===== src/KernLib/Elf/Segment.antt =====
-- The pages of a segment, one after the other.
use cs.Prelude.{
  ℕ, zero, suc, ◌+◌, ◌-◌, ◌*◌, ◌%◌, ◌<◌, ◌≤◌, ◌≡◌, ◌∙◌, inl, inr, true, false, not, ◌&&◌, some, ltb,
  ◌==◌, refl, ap, subst, arith, Bool-cases, add32,
}
use cs.KernLib.Str.{Memory}
use cs.KernLib.Pmap.{Paging, pagesize, vm_userlo, vm_userhi}
use cs.KernLib.Elf.{Proghdr, eva_of, zva_of, perm_of, fill_page, load_pages}
use cs.KernLib.Elf.View.{Shows, Absent, Kept, MapsOnly, IsAllocator, Kept-trans, Shows-Kept}
use cs.KernLib.Elf.Page.{file_byte}
use cs.KernLib.Elf.Fresh.{TakesFrom, fresh_page_lem}

load_pages-end :
    {Tables : Type 0} (fuel : ℕ) (p : Paging Tables) (pid : ℕ) (ph : Proghdr) (va fa : ℕ)
    (s : Tables × Memory)
    → eva_of ph ≤ va
    → load_pages (suc fuel) p pid ph va fa s ≡ some s
unfolding load_pages
load_pages-end fuel p pid ph va fa s over =
    let e : ltb va (eva_of ph) ≡ false = ground arith in rw (load_pages, e) refl

load_pages-step :
    {Tables : Type 0} (fuel : ℕ) (p : Paging Tables) (pid : ℕ) (ph : Proghdr) (va fa : ℕ)
    (s s' : Tables × Memory)
    → va < eva_of ph
    → fill_page p pid ph.p_filesz (zva_of ph) va fa (p.alloc_page pid va (perm_of ph) s) ≡ some s'
    → load_pages (suc fuel) p pid ph va fa s
      ≡ load_pages fuel p pid ph (add32 va pagesize) (add32 fa pagesize) s'
unfolding load_pages
load_pages-step fuel p pid ph va fa s s' more fill =
    let e : ltb va (eva_of ph) ≡ true = ground arith in rw (load_pages, e, fill) refl

-- Behind a page the file's bytes are those that they were.
file_byte-next :
    (mem mem' : Memory) (lo hi filesz zva va fa u : ℕ)
    → ((a : ℕ) → lo ≤ a → a < hi → mem' a ≡ mem a)
    → TakesFrom lo hi filesz zva va fa
    → va + 4096 ≤ u
    → file_byte mem' filesz zva (va + 4096) (fa + 4096) u ≡ file_byte mem filesz zva va fa u
file_byte-next mem mem' lo hi filesz zva va fa u image takes on =
    elim (Bool-cases (ltb u zva && not (filesz == 0))) [
      | inl file ↦
          let at : fa + 4096 + (u - (va + 4096)) ≡ fa + (u - va) = omega arith in
          let (l, h) = takes (u - va) (ground arith) (ground arith) in
          rw (file, at) (image (fa + (u - va)) l h)
      | inr none_left ↦ rw none_left refl
    ]

pub perm_of-odd : (ph : Proghdr) → (perm_of ph % 2 ≡ 1) × (perm_of ph < 4096)
perm_of-odd ph = ((ground arith), (ground arith))

module _ {Tables : Type 0} (p : Paging Tables) (pid lo hi : ℕ) where
  Shows-join :
      (from mid to perm : ℕ) (f : ℕ → ℕ) (s : Tables × Memory)
      → Shows p pid from mid perm f s
      → Shows p pid mid to perm f s
      → Shows p pid from to perm f s
  Shows-join from mid to perm f s left right u l h = elim (Bool-cases (ltb u mid)) [
    | inl below ↦ left u l (ground arith)
    | inr above ↦ right u (ground arith) h
  ]

  MapsOnly-join :
      (from mid to : ℕ) (s1 s2 s3 : Tables × Memory)
      → from ≤ mid
      → mid ≤ to
      → MapsOnly p pid from mid s1 s2
      → MapsOnly p pid mid to s2 s3
      → MapsOnly p pid from to s1 s3
  MapsOnly-join from mid to s1 s2 s3 a b left right u out = elim out [
    | inl below ↦ right u (inl (omega arith)) ∙ left u (inl below)
    | inr above ↦ right u (inr above) ∙ left u (inr (omega arith))
  ]

  module _ (Ready : ℕ → Tables → Type 0) (a : IsAllocator p pid lo hi Ready) (ph : Proghdr)
      (f : ℕ → ℕ) (r : ℕ) (range : hi ≤ vm_userhi) where
    -- What the loop over `k` pages does.
    abbrev pub Loaded : ℕ → ℕ → ℕ → Tables × Memory → Type 0
    Loaded fuel va fa s =
        (s' : Tables × Memory) × (load_pages fuel p pid ph va fa s ≡ some s')
        × Ready r s'.0
        × Kept p pid lo hi s s'
        × MapsOnly p pid va (eva_of ph) s s'
        × Shows p pid va (eva_of ph) (perm_of ph) f s'

    pub load_pages_lem :
        (fuel k va fa : ℕ) (s : Tables × Memory)
        → k < fuel
        → va + 4096 * k ≡ eva_of ph
        → va % 4096 ≡ 0
        → vm_userlo ≤ va
        → eva_of ph ≤ vm_userhi
        → fa + 4096 * k < 0x1_0000_0000
        → (ph.p_filesz ≡ 0 → zva_of ph < va + 4096)
        → TakesFrom lo hi ph.p_filesz (zva_of ph) va fa
        → Ready (k + r) s.0
        → Absent p pid va (eva_of ph) s
        → ((u : ℕ) → va ≤ u → u < eva_of ph → file_byte s.1 ph.p_filesz (zva_of ph) va fa u ≡ f u)
        → Loaded fuel va fa s
    load_pages_lem zero k va fa s more end start low top wrap short takes ready absent content =
        absurd (omega arith)
    load_pages_lem (suc fuel) zero va fa s more end start low top wrap short takes ready absent
          content =
        (
          s,
          load_pages-end fuel p pid ph va fa s (omega arith),
          (let none_left : 0 + r ≡ r = omega arith in subst (λ n. Ready n s.0) none_left ready),
          ((λ x l h. refl), (λ u here. (refl, refl))),
          λ u out. refl,
          λ u l h. absurd (omega arith),
        )
    load_pages_lem (suc fuel) (suc k) va fa s more end start low top wrap short takes ready absent
          content =
        let (odd, small) = perm_of-odd ph in
        let one_more : suc k + r ≡ suc (k + r) = omega arith in
        let (s1, fill, ready1, kept1, only1, shows1) =
          fresh_page_lem p pid lo hi Ready a (k + r) va (perm_of ph) s
            (subst (λ n. Ready n s.0) one_more ready) start (absent va (omega arith) (omega arith))
            odd small ph.p_filesz (zva_of ph) fa low (omega arith) range short takes in
        let (s2, run, ready2, kept2, only2, shows2) =
          load_pages_lem fuel k (va + 4096) (fa + 4096) s1 (omega arith) (omega arith) (omega arith)
            (omega arith) top (omega arith) (λ z. let q = short z in omega arith)
            (λ j h nz.
              let (x, y) = takes (4096 + j) (omega arith) nz in ((omega arith), (omega arith)))
            ready1 (λ u l h. ap (λ x. x % 2) (only1 u (inr l)) ∙ absent u (omega arith) h)
            (λ u l h.
              file_byte-next s.1 s1.1 lo hi ph.p_filesz (zva_of ph) va fa u kept1.0 takes l
              ∙ content u (omega arith) h) in
        let next_va : add32 va pagesize ≡ va + 4096 = omega arith in
        let next_fa : add32 fa pagesize ≡ fa + 4096 = omega arith in
        (
          s2,
          load_pages-step fuel p pid ph va fa s s1 (omega arith) fill
              ∙ ap (λ v. load_pages fuel p pid ph v (add32 fa pagesize) s1) next_va
              ∙ ap (λ v. load_pages fuel p pid ph (va + 4096) v s1) next_fa
              ∙ run,
          ready2,
          Kept-trans p pid lo hi s s1 s2 kept1 kept2,
          MapsOnly-join va (va + 4096) (eva_of ph) s s1 s2 (omega arith) (omega arith) only1 only2,
          Shows-join va (va + 4096) (eva_of ph) (perm_of ph) f s2
              (Shows-Kept p pid lo hi va (va + 4096) (perm_of ph) f s1 s2 odd kept2
                (λ u l h. let (e, b) = shows1 u l h in (e, b ∙ content u l (omega arith))))
              shows2,
        )
