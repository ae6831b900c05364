-- ===== src/KernLib/Elf/Page.antt =====
-- One page of a segment: it is allocated, and filled from the file and with zeros.
use cs.Prelude.{
  ℕ, ◌+◌, ◌-◌, ◌/◌, ◌%◌, ◌<◌, ◌≤◌, ◌≡◌, ◌≢◌, ◌∙◌, ◌⊎◌, inl, inr, true, false, not, ◌&&◌, some, ltb,
  ◌==◌, if◌then◌else◌, refl, sym, ap, arith, Bool-cases,
}
use cs.KernLib.Str.{Memory}
use cs.KernLib.Pmap.{Paging, pt_copyout, pt_memset, pagesize, vm_userlo, vm_userhi}
use cs.KernLib.Pmap.Pages.{phys, phys-page, IsPresent, IsInjective}
use cs.KernLib.Pmap.Copy.{pt_copyout_lem, pt_memset_lem}
use cs.KernLib.Elf.{rounddown, fill_page}
use cs.KernLib.Elf.View.{entry-page}

-- What a segment shows at `u`: the bytes of the file below `zva`, and zeros from there on.
abbrev pub file_byte : Memory → ℕ → ℕ → ℕ → ℕ → ℕ → ℕ
file_byte mem filesz zva va fa u = if ltb u zva && not (filesz == 0) then mem (fa + (u - va)) else 0

-- Memory has changed in the page at most.
abbrev pub InPage : {Tables : Type 0} → Paging Tables → ℕ → Tables → ℕ → Memory → Memory → Type 0
InPage p pid t va mem mem' =
    (a : ℕ) → ((i : ℕ) → i < 4096 → a ≢ phys p pid t (va + i)) → mem' a ≡ mem a

module _ {Tables : Type 0} (p : Paging Tables) (pid : ℕ) (t : Tables) (va : ℕ) where
  page-IsPresent :
      (len : ℕ)
      → va % 4096 ≡ 0
      → len ≤ 4096
      → p.get_ptbl_entry_by_va pid va t % 2 ≡ 1
      → IsPresent p pid t va len
  page-IsPresent len start short here i h =
      let same : (va + i) / 4096 ≡ va / 4096 = omega arith in
      ap (λ x. x % 2) (entry-page p pid (t, (λ a. 0)) (va + i) va same) ∙ here

  page-IsInjective :
      (len : ℕ) → va % 4096 ≡ 0 → len ≤ 4096 → IsInjective (λ i. phys p pid t (va + i)) len
  page-IsInjective len start short i j h k e =
      let a = phys-page p pid t va i (omega arith) in
      let b = phys-page p pid t va j (omega arith) in let c = sym a ∙ e ∙ b in omega arith

  page_zero :
      (mem : Memory)
      → va % 4096 ≡ 0
      → va + 4096 ≤ vm_userhi
      → p.get_ptbl_entry_by_va pid va t % 2 ≡ 1
      → (mem' : Memory) × (pt_memset p pid va 0 pagesize (t, mem) ≡ some (pagesize, (t, mem')))
        × ((i : ℕ) → i < 4096 → mem' (phys p pid t (va + i)) ≡ 0)
        × InPage p pid t va mem mem'
  page_zero mem start top here =
      pt_memset_lem p pid va 0 pagesize t mem top (page-IsPresent 4096 start (omega arith) here)
        (page-IsInjective 4096 start (omega arith))

  pub page_copy :
      (mem : Memory) (fa len : ℕ)
      → va % 4096 ≡ 0
      → vm_userlo ≤ va
      → va + 4096 ≤ vm_userhi
      → len ≤ 4096
      → fa + len ≤ vm_userhi
      → p.get_ptbl_entry_by_va pid va t % 2 ≡ 1
      → ((i j : ℕ) → i < 4096 → j < len → phys p pid t (va + i) ≢ fa + j)
      → (mem' : Memory) × (pt_copyout p fa pid va len (t, mem) ≡ some (len, (t, mem')))
        × ((i : ℕ) → i < len → mem' (phys p pid t (va + i)) ≡ mem (fa + i))
        × ((i : ℕ)
            → len ≤ i
            → i < 4096
            → mem' (phys p pid t (va + i)) ≡ mem (phys p pid t (va + i)))
        × InPage p pid t va mem mem'
  page_copy mem fa len start low top short range here apart =
      let (mem', run, written, outside) =
        pt_copyout_lem p fa pid va len t mem ((omega arith), ((omega arith), (omega arith)))
          (page-IsPresent len start short here) (page-IsInjective len start short)
          (λ i j h k. apart i j (omega arith) k) in
      (
        mem',
        run,
        written,
        λ i least most. outside (phys p pid t (va + i)) (λ j h e.
            let same = page-IsInjective 4096 start (omega arith) i j most (omega arith) e in
            omega arith),
        λ a free. outside a (λ i h. free i (omega arith)),
      )

  -- What `fill_page` does on the page.
  abbrev pub Filled : Memory → ℕ → ℕ → ℕ → Type 0
  Filled mem fa filesz zva =
      (mem' : Memory) × (fill_page p pid filesz zva va fa (t, mem) ≡ some (t, mem'))
      × ((i : ℕ)
          → i < 4096
          → mem' (phys p pid t (va + i)) ≡ file_byte mem filesz zva va fa (va + i))
      × InPage p pid t va mem mem'

  pub fill_page-whole :
      (mem : Memory) (fa filesz zva : ℕ)
      → va % 4096 ≡ 0
      → vm_userlo ≤ va
      → va + 4096 ≤ vm_userhi
      → va + 4096 ≤ zva
      → filesz ≢ 0
      → fa + 4096 ≤ vm_userhi
      → p.get_ptbl_entry_by_va pid va t % 2 ≡ 1
      → ((i j : ℕ) → i < 4096 → j < 4096 → phys p pid t (va + i) ≢ fa + j)
      → Filled mem fa filesz zva
  unfolding fill_page
  fill_page-whole mem fa filesz zva start low top whole some_file range here apart =
      let (mem', run, copied, rest, inside) =
        page_copy mem fa 4096 start low top (omega arith) range here apart in
      let test : ltb va (rounddown zva pagesize) ≡ true = ground arith in
      (
        mem',
        rw (fill_page, test, run) refl,
        λ i h.
            let file : ltb (va + i) zva && not (filesz == 0) ≡ true = ground arith in
            let at : fa + (va + i - va) ≡ fa + i = omega arith in copied i h ∙ rw (file, at) refl,
        inside,
      )

  pub fill_page-part :
      (mem : Memory) (fa filesz zva : ℕ)
      → va % 4096 ≡ 0
      → vm_userlo ≤ va
      → va + 4096 ≤ vm_userhi
      → va < zva
      → zva < va + 4096
      → filesz ≢ 0
      → fa + (zva - va) ≤ vm_userhi
      → p.get_ptbl_entry_by_va pid va t % 2 ≡ 1
      → ((i j : ℕ) → i < 4096 → j < zva - va → phys p pid t (va + i) ≢ fa + j)
      → Filled mem fa filesz zva
  unfolding fill_page
  fill_page-part mem fa filesz zva start low top before behind some_file range here apart =
      let (mem1, run, zeros, inside) = page_zero mem start top here in
      let (mem2, run', copied, rest, inside') =
        page_copy mem1 fa (zva - va) start low top (omega arith) range here apart in
      let test : ltb va (rounddown zva pagesize) ≡ false = ground arith in
      let part : ltb va zva && not (filesz == 0) ≡ true = ground arith in
      (
        mem2,
        rw (fill_page, test, part, run, run') refl,
        λ i h. elim (Bool-cases (ltb i (zva - va))) [
          | inl file ↦
              let in_file : ltb (va + i) zva && not (filesz == 0) ≡ true = ground arith in
              let at : fa + (va + i - va) ≡ fa + i = omega arith in
              copied i (ground arith)
              ∙ inside (fa + i) (λ k m e. apart k i m (ground arith) (sym e))
              ∙ rw (in_file, at) refl
          | inr zero_part ↦
              let in_file : ltb (va + i) zva && not (filesz == 0) ≡ false = ground arith in
              rest i (ground arith) h ∙ zeros i h ∙ rw in_file refl
        ],
        λ a free. inside' a free ∙ inside a free,
      )

  pub fill_page-zero :
      (mem : Memory) (fa filesz zva : ℕ)
      → va % 4096 ≡ 0
      → va + 4096 ≤ vm_userhi
      → zva < va + 4096
      → (zva ≤ va) ⊎ (filesz ≡ 0)
      → p.get_ptbl_entry_by_va pid va t % 2 ≡ 1
      → Filled mem fa filesz zva
  unfolding fill_page
  fill_page-zero mem fa filesz zva start top behind no_file here =
      let (mem', run, zeros, inside) = page_zero mem start top here in
      let test : ltb va (rounddown zva pagesize) ≡ false = ground arith in
      let part : ltb va zva && not (filesz == 0) ≡ false = ground arith in
      (
        mem',
        rw (fill_page, test, part, run) refl,
        λ i h.
            let in_file : ltb (va + i) zva && not (filesz == 0) ≡ false = ground arith in
            zeros i h ∙ rw in_file refl,
        inside,
      )
