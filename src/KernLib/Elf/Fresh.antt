-- ===== src/KernLib/Elf/Fresh.antt =====
-- A page that is new to the process: what its allocation and its filling do together.
use cs.Prelude.{
  ℕ, suc, ◌+◌, ◌-◌, ◌/◌, ◌%◌, ◌<◌, ◌≤◌, ◌≡◌, ◌≢◌, ◌∙◌, ◌⊎◌, inl, inr, not, ◌&&◌, ◌||◌, some, ltb,
  leb, ◌==◌, refl, ap, subst, arith, Bool-cases,
}
use cs.KernLib.Str.{Memory}
use cs.KernLib.Pmap.{Paging, vm_userlo, vm_userhi}
use cs.KernLib.Pmap.Pages.{phys}
use cs.KernLib.Elf.{fill_page}
use cs.KernLib.Elf.View.{entry, Shows, Kept, MapsOnly, IsAllocator, entry-page}
use cs.KernLib.Elf.Page.{file_byte, InPage, Filled, fill_page-whole, fill_page-part, fill_page-zero}

-- The bytes that a page takes from the file lie in the kernel's image.
abbrev pub TakesFrom : ℕ → ℕ → ℕ → ℕ → ℕ → ℕ → Type 0
TakesFrom lo hi filesz zva va fa =
    (j : ℕ) → va + j < zva → filesz ≢ 0 → (lo ≤ fa + j) × (fa + j < hi)

module _ {Tables : Type 0} (p : Paging Tables) (pid lo hi : ℕ) where
  fill_page_lem :
      (t : Tables) (mem : Memory) (filesz zva va fa : ℕ)
      → va % 4096 ≡ 0
      → vm_userlo ≤ va
      → va + 4096 ≤ vm_userhi
      → hi ≤ vm_userhi
      → (filesz ≡ 0 → zva < va + 4096)
      → TakesFrom lo hi filesz zva va fa
      → p.get_ptbl_entry_by_va pid va t % 2 ≡ 1
      → ((i : ℕ) → i < 4096 → (phys p pid t (va + i) < lo) ⊎ (hi ≤ phys p pid t (va + i)))
      → Filled p pid t va mem fa filesz zva
  fill_page_lem t mem filesz zva va fa start low top range short takes here apart =
      elim (Bool-cases (leb zva va || (filesz == 0))) [
        | inl no_file ↦ elim (Bool-cases (filesz == 0)) [
          | inl z ↦
              fill_page-zero p pid t va mem fa filesz zva start top (short (ground arith))
                (inr (ground arith)) here
          | inr nz ↦
              fill_page-zero p pid t va mem fa filesz zva start top (ground arith)
                (inl (ground arith)) here
        ]
        | inr some_file ↦
            let nz : filesz ≢ 0 = ground arith in
            let before : va < zva = ground arith in
            let off : (i j : ℕ) → i < 4096 → va + j < zva → phys p pid t (va + i) ≢ fa + j =
              λ i j h k e.
                let (l, m) = takes j k nz in
                elim (apart i h) [ inl u ↦ absurd (omega arith) | inr v ↦ absurd (omega arith) ] in
            elim (Bool-cases (leb (va + 4096) zva)) [
              | inl whole ↦
                  let (l, m) = takes 4095 (ground arith) nz in
                  fill_page-whole p pid t va mem fa filesz zva start low top (ground arith) nz
                    (omega arith) here (λ i j h k. off i j h (ground arith))
              | inr part ↦
                  let (l, m) = takes (zva - va - 1) (omega arith) nz in
                  fill_page-part p pid t va mem fa filesz zva start low top before (ground arith) nz
                    (omega arith) here (λ i j h k. off i j h (omega arith))
            ]
      ]

  module _ (Ready : ℕ → Tables → Type 0) (a : IsAllocator p pid lo hi Ready) (n va perm : ℕ)
      (s : Tables × Memory) (ready : Ready (suc n) s.0) (start : va % 4096 ≡ 0)
      (absent : entry p pid s va % 2 ≡ 0) (odd : perm % 2 ≡ 1) (small : perm < 4096) where
    pub fresh-present :
        (i : ℕ) → i < 4096 → entry p pid (p.alloc_page pid va perm s) (va + i) % 4096 ≡ perm
    fresh-present i h =
        let same : (va + i) / 4096 ≡ va / 4096 = omega arith in
        ap (λ x. x % 4096) (entry-page p pid (p.alloc_page pid va perm s) (va + i) va same)
        ∙ a.maps n va perm s ready absent small

    -- A page that the process had is another one.
    pub elsewhere : (u : ℕ) → entry p pid s u % 2 ≡ 1 → u / 4096 ≢ va / 4096
    elsewhere u here same =
        let e : entry p pid s u ≡ entry p pid s va = entry-page p pid s u va same in omega arith

    pub fresh-Kept :
        (mem' : Memory)
        → InPage p pid (p.alloc_page pid va perm s).0 va (p.alloc_page pid va perm s).1 mem'
        → Kept p pid lo hi s ((p.alloc_page pid va perm s).0, mem')
    fresh-Kept mem' inside =
        let t1 = (p.alloc_page pid va perm s).0 in
        let ready1 = a.ready n va perm s ready absent in
        let on : (i : ℕ) → i < 4096 → p.get_ptbl_entry_by_va pid (va + i) t1 % 2 ≡ 1 =
          λ i h. let e = fresh-present i h in omega arith in
        (
          λ x l h.
              inside x (λ i k e. elim (a.apart n t1 ready1 (va + i) (on i k)) [
                | inl u ↦ absurd (omega arith)
                | inr v ↦ absurd (omega arith)
              ])
              ∙ a.image n va perm s ready absent x l h,
          λ u here.
              let away = elsewhere u here in
              let same : p.get_ptbl_entry_by_va pid u t1 ≡ entry p pid s u =
                a.others n va perm s ready absent u away in
              let still : p.get_ptbl_entry_by_va pid u t1 % 2 ≡ 1 = ap (λ x. x % 2) same ∙ here in
              let place : phys p pid t1 u ≡ phys p pid s.0 u = omega arith in
              (
                same,
                inside (phys p pid t1 u) (λ i k e.
                      away (a.distinct n t1 ready1 u (va + i) still (on i k) e ∙ omega arith))
                    ∙ ap (p.alloc_page pid va perm s).1 place
                    ∙ a.bytes n va perm s ready absent u here,
              ),
        )

    pub fresh_page_lem :
        (filesz zva fa : ℕ)
        → vm_userlo ≤ va
        → va + 4096 ≤ vm_userhi
        → hi ≤ vm_userhi
        → (filesz ≡ 0 → zva < va + 4096)
        → TakesFrom lo hi filesz zva va fa
        → (s' : Tables × Memory) × (fill_page p pid filesz zva va fa (p.alloc_page pid va perm s)
            ≡ some s')
          × Ready n s'.0
          × Kept p pid lo hi s s'
          × MapsOnly p pid va (va + 4096) s s'
          × Shows p pid va (va + 4096) perm (file_byte s.1 filesz zva va fa) s'
    fresh_page_lem filesz zva fa low top range short takes =
        let t1 = (p.alloc_page pid va perm s).0 in
        let mem1 = (p.alloc_page pid va perm s).1 in
        let ready1 = a.ready n va perm s ready absent in
        let on : (i : ℕ) → i < 4096 → p.get_ptbl_entry_by_va pid (va + i) t1 % 2 ≡ 1 =
          λ i h. let e = fresh-present i h in omega arith in
        let here : p.get_ptbl_entry_by_va pid va t1 % 2 ≡ 1 =
          let e = a.maps n va perm s ready absent small in omega arith in
        let (mem', run, filled, inside) =
          fill_page_lem t1 mem1 filesz zva va fa start low top range short takes here
            (λ i h. a.apart n t1 ready1 (va + i) (on i h)) in
        (
          (t1, mem'),
          run,
          ready1,
          fresh-Kept mem' inside,
          λ u out.
              a.others n va perm s ready absent u
                (elim out [ inl below ↦ (λ e. omega arith) | inr above ↦ (λ e. omega arith) ]),
          λ u l h.
              let at : va + (u - va) ≡ u = omega arith in
              (
                subst (λ v. p.get_ptbl_entry_by_va pid v t1 % 4096 ≡ perm) at
                    (fresh-present (u - va) (omega arith)),
                subst (λ v. mem' (phys p pid t1 v) ≡ file_byte mem1 filesz zva va fa v) at
                      (filled (u - va) (omega arith))
                    ∙ elim (Bool-cases (ltb u zva && not (filesz == 0))) [
                      | inl file ↦
                          let (l', h') = takes (u - va) (ground arith) (ground arith) in
                          rw file (a.image n va perm s ready absent (fa + (u - va)) l' h')
                      | inr none_left ↦ rw none_left refl
                    ],
              ),
        )
