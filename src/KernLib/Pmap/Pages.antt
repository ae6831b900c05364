-- ===== src/KernLib/Pmap/Pages.antt =====
-- The loop over pages that are present.
use cs.Prelude.{
  ℕ, zero, suc, ◌+◌, ◌-◌, ◌*◌, ◌/◌, ◌%◌, ◌<◌, ◌≤◌, ◌≡◌, ◌≢◌, ◌∙◌, refl, sym, ap, subst, inl, inr,
  true, false, some, ltb, ◌==◌, add32, arith, Bool-cases,
}
use cs.KernLib.Str.{Memory}
use cs.KernLib.Pmap.{Paging, frame_place, with_page, chunk_size, pages_loop}

-- The physical place of a user address.
abbrev pub phys : {Tables : Type 0} → Paging Tables → ℕ → Tables → ℕ → ℕ
phys p pid t va = frame_place (p.get_ptbl_entry_by_va pid va t) va

abbrev pub IsPresent : {Tables : Type 0} → Paging Tables → ℕ → Tables → ℕ → ℕ → Type 0
IsPresent p pid t uva len = (i : ℕ) → i < len → p.get_ptbl_entry_by_va pid (uva + i) t % 2 ≡ 1

-- Within a page physical places go along.
pub phys-page :
    {Tables : Type 0} (p : Paging Tables) (pid : ℕ) (t : Tables) (va k : ℕ)
    → va % 4096 + k < 4096
    → phys p pid t (va + k) ≡ phys p pid t va + k
phys-page p pid t va k h =
    let page : (va + k) / 4096 * 4096 ≡ va / 4096 * 4096 = omega arith in
    let same : p.get_ptbl_entry_by_va pid (va + k) t ≡ p.get_ptbl_entry_by_va pid va t =
      p.entry_page pid (va + k) t
      ∙ ap (λ a. p.get_ptbl_entry_by_va pid a t) page
      ∙ sym (p.entry_page pid va t) in
    ap (λ e. frame_place e (va + k)) same ∙ omega arith

with_page-present :
    {Tables : Type 0} (p : Paging Tables) (pid uva : ℕ) (t : Tables) (mem : Memory)
    → p.get_ptbl_entry_by_va pid uva t % 2 ≡ 1
    → with_page p pid uva (t, mem) ≡ (t, mem)
unfolding with_page
with_page-present p pid uva t mem here =
    let q : (p.get_ptbl_entry_by_va pid uva t % 2 == 0) ≡ false = ground arith in rw q refl

-- A round over a page that is present.
pub pages_loop-step :
    {Tables : Type 0} (fuel : ℕ) (p : Paging Tables) (chunk : ℕ → ℕ → ℕ → Memory → Memory)
    (pid uva len done : ℕ) (t : Tables) (mem : Memory)
    → len ≢ 0
    → p.get_ptbl_entry_by_va pid uva t % 2 ≡ 1
    → pages_loop (suc fuel) p chunk pid uva len done (t, mem)
      ≡ pages_loop fuel p chunk pid
          (add32 uva (chunk_size (phys p pid t uva) len))
          (len - chunk_size (phys p pid t uva) len)
          (add32 done (chunk_size (phys p pid t uva) len))
          (t, chunk (phys p pid t uva) done (chunk_size (phys p pid t uva) len) mem)
unfolding pages_loop
pages_loop-step fuel p chunk pid uva len done t mem nz here =
    let e : (len == 0) ≡ false = ground arith in
    rw (pages_loop, e, with_page-present p pid uva t mem here) refl

pages_loop-done :
    {Tables : Type 0} (fuel : ℕ) (p : Paging Tables) (chunk : ℕ → ℕ → ℕ → Memory → Memory)
    (pid uva len done : ℕ) (m : Tables × Memory)
    → len ≡ 0
    → pages_loop (suc fuel) p chunk pid uva len done m ≡ some (done, m)
unfolding pages_loop
pages_loop-done fuel p chunk pid uva len done m z =
    let e : (len == 0) ≡ true = ground arith in rw (pages_loop, e) refl

chunk_size_lem :
    (entry va len : ℕ)
    → len ≢ 0
    → (1 ≤ chunk_size (frame_place entry va) len)
      × ((chunk_size (frame_place entry va) len ≤ len)
          × (va % 4096 + chunk_size (frame_place entry va) len ≤ 4096))
chunk_size_lem entry va len nz =
    let place : frame_place entry va % 4096 ≡ va % 4096 = omega arith in
    ((ground arith), ((ground arith), (ground arith)))

-- Outside of the `total` places `dst` memory is as it was.
abbrev pub IsOutside : (ℕ → ℕ) → ℕ → Memory → Memory → Type 0
IsOutside dst total mem0 mem = (a : ℕ) → ((i : ℕ) → i < total → a ≢ dst i) → mem a ≡ mem0 a

-- The first `n` places hold what they should.
abbrev pub IsWritten : (ℕ → ℕ) → (ℕ → ℕ) → ℕ → Memory → Type 0
IsWritten dst val n mem = (i : ℕ) → i < n → mem (dst i) ≡ val i

abbrev pub IsInjective : (ℕ → ℕ) → ℕ → Type 0
IsInjective dst total = (i j : ℕ) → i < total → j < total → dst i ≡ dst j → i ≡ j

-- A chunk at physical places in a row writes its part, and nothing else.
abbrev pub Writes :
    (ℕ → ℕ → ℕ → Memory → Memory) → (ℕ → ℕ) → (ℕ → ℕ) → (ℕ → ℕ) → ℕ → Memory → Type 0
Writes chunk place dst val total mem0 =
    (done size : ℕ) (mem : Memory)
    → done + size ≤ total
    → ((k : ℕ) → k < size → place (done + k) ≡ place done + k)
    → IsOutside dst total mem0 mem
    → ((k : ℕ) → k < size → chunk (place done) done size mem (dst (done + k)) ≡ val (done + k))
      × ((a : ℕ)
          → ((k : ℕ) → k < size → a ≢ dst (done + k))
          → chunk (place done) done size mem a ≡ mem a)

-- What the chunk at `done` adds to what was written before it.
chunk-adds :
    (chunk : ℕ → ℕ → ℕ → Memory → Memory) (place dst val : ℕ → ℕ) (total done size : ℕ)
    (mem mem0 : Memory)
    → Writes chunk place dst val total mem0
    → IsInjective dst total
    → done + size ≤ total
    → ((k : ℕ) → k < size → place (done + k) ≡ place done + k)
    → IsOutside dst total mem0 mem
    → IsWritten dst val done mem
    → IsOutside dst total mem0 (chunk (place done) done size mem)
      × IsWritten dst val (done + size) (chunk (place done) done size mem)
chunk-adds chunk place dst val total done size mem mem0 writes inj fits row outside written =
    let (now, kept) = writes done size mem fits row outside in
    (
      λ a p. kept a (λ k q. p (done + k) (omega arith)) ∙ outside a p,
      λ i p. elim (Bool-cases (ltb i done)) [
        | inl before ↦
            kept (dst i)
              (λ k q e. let same = inj i (done + k) (ground arith) (omega arith) e in ground arith)
            ∙ written i (ground arith)
        | inr here ↦
            let at : done + (i - done) ≡ i = ground arith in
            subst (λ j. chunk (place done) done size mem (dst j) ≡ val j) at
              (now (i - done) (ground arith))
      ],
    )

pages_loop_lem :
    {Tables : Type 0} (fuel : ℕ) (p : Paging Tables) (chunk : ℕ → ℕ → ℕ → Memory → Memory)
    (pid uva len done total : ℕ) (t : Tables) (mem mem0 : Memory) (dst val : ℕ → ℕ)
    → IsPresent p pid t uva total
    → uva + total ≤ 0xf000_0000
    → Writes chunk (λ i. phys p pid t (uva + i)) dst val total mem0
    → IsInjective dst total
    → done + len ≡ total
    → len < fuel
    → IsOutside dst total mem0 mem
    → IsWritten dst val done mem
    → (mem' : Memory) × (pages_loop fuel p chunk pid (uva + done) len done (t, mem)
        ≡ some (total, (t, mem')))
      × IsWritten dst val total mem'
      × IsOutside dst total mem0 mem'
pages_loop_lem zero p chunk pid uva len done total t mem mem0 dst val present top writes inj sum
      enough outside written =
    absurd (omega arith)
pages_loop_lem (suc fuel) p chunk pid uva len done total t mem mem0 dst val present top writes inj
      sum enough outside written =
    elim (Bool-cases (len == 0)) [
      | inl z ↦
          let all : done ≡ total = ground arith in
          (
            mem,
            pages_loop-done fuel p chunk pid (uva + done) len done (t, mem) (ground arith)
                ∙ ap (λ n. some (n, (t, mem))) all,
            subst (λ n. IsWritten dst val n mem) all written,
            outside,
          )
      | inr nz ↦
          let place = λ (i : ℕ). phys p pid t (uva + i) in
          let size = chunk_size (place done) len in
          let (least, (most, page)) =
            chunk_size_lem (p.get_ptbl_entry_by_va pid (uva + done) t) (uva + done) len
              (ground arith) in
          let row : (k : ℕ) → k < size → place (done + k) ≡ place done + k = λ k q.
            let assoc : uva + (done + k) ≡ uva + done + k = omega arith in
            ap (phys p pid t) assoc ∙ phys-page p pid t (uva + done) k (omega arith) in
          let mem1 = chunk (place done) done size mem in
          let (outside1, written1) =
            chunk-adds chunk place dst val total done size mem mem0 writes inj (omega arith) row
              outside written in
          let (mem', run, all, kept) =
            pages_loop_lem fuel p chunk pid uva (len - size) (done + size) total t mem1 mem0 dst val
              present top writes inj (omega arith) (omega arith) outside1 written1 in
          let next_uva : add32 (uva + done) size ≡ uva + (done + size) = omega arith in
          let next_done : add32 done size ≡ done + size = omega arith in
          (
            mem',
            pages_loop-step fuel p chunk pid (uva + done) len done t mem (ground arith)
                  (present done (ground arith))
                ∙ ap (λ u. pages_loop fuel p chunk pid u (len - size) (add32 done size) (t, mem1))
                    next_uva
                ∙ ap
                    (λ d.
                      pages_loop fuel p chunk pid (uva + (done + size)) (len - size) d (t, mem1))
                    next_done
                ∙ run,
            all,
            kept,
          )
    ]

-- The whole loop.
pub pages_loop_all :
    {Tables : Type 0} (p : Paging Tables) (chunk : ℕ → ℕ → ℕ → Memory → Memory) (pid uva len : ℕ)
    (t : Tables) (mem : Memory) (dst val : ℕ → ℕ)
    → IsPresent p pid t uva len
    → uva + len ≤ 0xf000_0000
    → Writes chunk (λ i. phys p pid t (uva + i)) dst val len mem
    → IsInjective dst len
    → (mem' : Memory) × (pages_loop (len + 1) p chunk pid uva len 0 (t, mem)
        ≡ some (len, (t, mem')))
      × IsWritten dst val len mem'
      × IsOutside dst len mem mem'
pages_loop_all p chunk pid uva len t mem dst val present top writes inj =
    let start : uva ≡ uva + 0 = omega arith in
    let (mem', run, all, kept) =
      pages_loop_lem (len + 1) p chunk pid uva len 0 len t mem mem dst val present top writes inj
        (omega arith) (omega arith) (λ a h. refl) (λ i h. absurd (omega arith)) in
    (mem', ap (λ u. pages_loop (len + 1) p chunk pid u len 0 (t, mem)) start ∙ run, all, kept)
