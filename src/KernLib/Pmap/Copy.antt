-- ===== src/KernLib/Pmap/Copy.antt =====
-- Copying to and from user memory, and filling it.
use cs.Prelude.{
  ℕ, ◌+◌, ◌-◌, ◌%◌, ◌<◌, ◌≤◌, ◌≡◌, ◌≢◌, ◌∙◌, refl, sym, ap, inl, inr, true, false, ◌&&◌, not, some,
  ltb, leb, add32, arith, Bool-cases,
}
use cs.KernLib.Str.{Memory, memcpy, memset}
use cs.KernLib.Str.Memory.{memmove_lem, memset_lem}
use cs.KernLib.Pmap.{Paging, user_range, pt_copyin, pt_copyout, pt_memset, vm_userlo, vm_userhi}
use cs.KernLib.Pmap.Pages.{
  phys, IsPresent, IsOutside, IsWritten, IsInjective, Writes, pages_loop_all,
}

memcpy-inside : (d s n k : ℕ) (mem : Memory) → k < n → memcpy d s n mem (d + k) ≡ mem (s + k)
unfolding memcpy
memcpy-inside d s n k mem h =
    let inside : leb d (d + k) && ltb (d + k) (d + n) ≡ true = ground arith in
    let at : s + (d + k - d) ≡ s + k = omega arith in
    memmove_lem d s n mem (d + k) ∙ rw inside (ap mem at)

memcpy-outside :
    (d s n a : ℕ) (mem : Memory) → ((k : ℕ) → k < n → a ≢ d + k) → memcpy d s n mem a ≡ mem a
unfolding memcpy
memcpy-outside d s n a mem h = elim (Bool-cases (leb d a && ltb a (d + n))) [
  | inl inside ↦ absurd (h (a - d) (ground arith) (ground arith))
  | inr outside ↦ memmove_lem d s n mem a ∙ rw outside refl
]

memset-inside : (v c n k : ℕ) (mem : Memory) → k < n → memset v c n mem (v + k) ≡ c % 256
memset-inside v c n k mem h =
    let inside : leb v (v + k) && ltb (v + k) (v + n) ≡ true = ground arith in
    memset_lem v c n mem (v + k) ∙ rw inside refl

memset-outside :
    (v c n a : ℕ) (mem : Memory) → ((k : ℕ) → k < n → a ≢ v + k) → memset v c n mem a ≡ mem a
memset-outside v c n a mem h = elim (Bool-cases (leb v a && ltb a (v + n))) [
  | inl inside ↦ absurd (h (a - v) (ground arith) (ground arith))
  | inr outside ↦ memset_lem v c n mem a ∙ rw outside refl
]

-- No byte of the kernel's buffer is a byte of the user's.
abbrev pub IsApart : {Tables : Type 0} → Paging Tables → ℕ → Tables → ℕ → ℕ → ℕ → Type 0
IsApart p pid t uva kva len = (i j : ℕ) → i < len → j < len → phys p pid t (uva + i) ≢ kva + j

copyout-Writes :
    {Tables : Type 0} (p : Paging Tables) (pid : ℕ) (t : Tables) (uva kva len : ℕ) (mem0 : Memory)
    → kva + len ≤ vm_userhi
    → IsApart p pid t uva kva len
    → Writes
        (λ pa done size. memcpy pa (add32 kva done) size)
        (λ i. phys p pid t (uva + i))
        (λ i. phys p pid t (uva + i))
        (λ i. mem0 (kva + i))
        len
        mem0
copyout-Writes p pid t uva kva len mem0 top apart done size mem fits row outside =
    let place = λ (i : ℕ). phys p pid t (uva + i) in
    let start : add32 kva done ≡ kva + done = omega arith in
    (
      λ k q.
          let src : add32 kva done + k ≡ kva + (done + k) = omega arith in
          ap (memcpy (place done) (add32 kva done) size mem) (row k q)
          ∙ memcpy-inside (place done) (add32 kva done) size k mem q
          ∙ ap mem src
          ∙ outside (kva + (done + k)) (λ i r e. apart i (done + k) r (omega arith) (sym e)),
      λ a free.
          memcpy-outside (place done) (add32 kva done) size a mem
            (λ k q e. free k q (e ∙ sym (row k q))),
    )

copyin-Writes :
    {Tables : Type 0} (p : Paging Tables) (pid : ℕ) (t : Tables) (uva kva len : ℕ) (mem0 : Memory)
    → kva + len ≤ vm_userhi
    → IsApart p pid t uva kva len
    → Writes
        (λ pa done size. memcpy (add32 kva done) pa size)
        (λ i. phys p pid t (uva + i))
        (λ i. kva + i)
        (λ i. mem0 (phys p pid t (uva + i)))
        len
        mem0
copyin-Writes p pid t uva kva len mem0 top apart done size mem fits row outside =
    let place = λ (i : ℕ). phys p pid t (uva + i) in
    (
      λ k q.
          let at : kva + (done + k) ≡ add32 kva done + k = omega arith in
          ap (memcpy (add32 kva done) (place done) size mem) at
          ∙ memcpy-inside (add32 kva done) (place done) size k mem q
          ∙ ap mem (sym (row k q))
          ∙ outside (place (done + k)) (λ i r. apart (done + k) i (omega arith) r),
      λ a free. memcpy-outside (add32 kva done) (place done) size a mem (λ k q e.
          let at : add32 kva done + k ≡ kva + (done + k) = omega arith in free k q (e ∙ at)),
    )

memset-Writes :
    {Tables : Type 0} (p : Paging Tables) (pid : ℕ) (t : Tables) (va c len : ℕ) (mem0 : Memory)
    → Writes
        (λ pa done size. memset pa c size)
        (λ i. phys p pid t (va + i))
        (λ i. phys p pid t (va + i))
        (λ i. c % 256)
        len
        mem0
memset-Writes p pid t va c len mem0 done size mem fits row outside =
    let place = λ (i : ℕ). phys p pid t (va + i) in
    (
      λ k q.
          ap (memset (place done) c size mem) (row k q) ∙ memset-inside (place done) c size k mem q,
      λ a free. memset-outside (place done) c size a mem (λ k q e. free k q (e ∙ sym (row k q))),
    )

-- The ranges that the copying functions let pass.
abbrev pub IsUserRange : ℕ → ℕ → ℕ → Type 0
IsUserRange uva kva len = (vm_userlo ≤ uva) × ((uva + len ≤ vm_userhi) × (kva + len ≤ vm_userhi))

pub passes_range :
    (uva kva len : ℕ) → IsUserRange uva kva len → not (user_range uva kva len) ≡ false
unfolding user_range
passes_range uva kva len (lo, (hi, khi)) =
    let a : add32 uva len ≡ uva + len = omega arith in
    let b : add32 kva len ≡ kva + len = omega arith in ground arith

-- In range, on pages that are present and in frames of their own, apart from the kernel's buffer:
-- `pt_copyout` copies all `len` bytes of the buffer to their places, changes no other byte of memory
-- and no page table, and returns `len`.
pub pt_copyout_lem :
    {Tables : Type 0} (p : Paging Tables) (kva pid uva len : ℕ) (t : Tables) (mem : Memory)
    → IsUserRange uva kva len
    → IsPresent p pid t uva len
    → IsInjective (λ i. phys p pid t (uva + i)) len
    → IsApart p pid t uva kva len
    → (mem' : Memory) × (pt_copyout p kva pid uva len (t, mem) ≡ some (len, (t, mem')))
      × IsWritten (λ i. phys p pid t (uva + i)) (λ i. mem (kva + i)) len mem'
      × IsOutside (λ i. phys p pid t (uva + i)) len mem mem'
unfolding pt_copyout
pt_copyout_lem p kva pid uva len t mem range present inj apart =
    let (mem', run, all, kept) =
      pages_loop_all p (λ pa done size. memcpy pa (add32 kva done) size) pid uva len t mem
        (λ i. phys p pid t (uva + i)) (λ i. mem (kva + i)) present range.1.0
        (copyout-Writes p pid t uva kva len mem range.1.1 apart) inj in
    (mem', rw (pt_copyout, passes_range uva kva len range) run, all, kept)

-- Under the same conditions `pt_copyin` copies all `len` bytes from their places to the buffer.
pub pt_copyin_lem :
    {Tables : Type 0} (p : Paging Tables) (kva pid uva len : ℕ) (t : Tables) (mem : Memory)
    → IsUserRange uva kva len
    → IsPresent p pid t uva len
    → IsApart p pid t uva kva len
    → (mem' : Memory) × (pt_copyin p pid uva kva len (t, mem) ≡ some (len, (t, mem')))
      × IsWritten (λ i. kva + i) (λ i. mem (phys p pid t (uva + i))) len mem'
      × IsOutside (λ i. kva + i) len mem mem'
unfolding pt_copyin
pt_copyin_lem p kva pid uva len t mem range present apart =
    let (mem', run, all, kept) =
      pages_loop_all p (λ pa done size. memcpy (add32 kva done) pa size) pid uva len t mem
        (λ i. kva + i) (λ i. mem (phys p pid t (uva + i))) present range.1.0
        (copyin-Writes p pid t uva kva len mem range.1.1 apart) (λ i j x y e. omega arith) in
    (mem', rw (pt_copyin, passes_range uva kva len range) run, all, kept)

-- What `pt_copyout` has written to a range of user memory, on pages that are present and in frames
-- of their own, `pt_copyin` brings to another buffer of the kernel, when neither buffer meets the
-- frames.
pub pt_copyin-pt_copyout :
    {Tables : Type 0} (p : Paging Tables) (kva kvb pid uva len : ℕ) (t : Tables) (mem : Memory)
    → IsUserRange uva kva len
    → IsUserRange uva kvb len
    → IsPresent p pid t uva len
    → IsInjective (λ i. phys p pid t (uva + i)) len
    → IsApart p pid t uva kva len
    → IsApart p pid t uva kvb len
    → (mem1 mem2 : Memory) × (pt_copyout p kva pid uva len (t, mem) ≡ some (len, (t, mem1)))
      × (pt_copyin p pid uva kvb len (t, mem1) ≡ some (len, (t, mem2)))
      × ((i : ℕ) → i < len → mem2 (kvb + i) ≡ mem (kva + i))
pt_copyin-pt_copyout p kva kvb pid uva len t mem range range' present inj apart apart' =
    let (mem1, out, written, _) = pt_copyout_lem p kva pid uva len t mem range present inj apart in
    let (mem2, back, read, _) = pt_copyin_lem p kvb pid uva len t mem1 range' present apart' in
    (mem1, mem2, out, back, λ i h. read i h ∙ written i h)

-- On a range below 0xf0000000, on pages that are present and in frames of their own, `pt_memset`
-- stores the low byte of the value in all `len` bytes, changes no other byte of memory and no page
-- table, and returns `len`.
pub pt_memset_lem :
    {Tables : Type 0} (p : Paging Tables) (pid va c len : ℕ) (t : Tables) (mem : Memory)
    → va + len ≤ vm_userhi
    → IsPresent p pid t va len
    → IsInjective (λ i. phys p pid t (va + i)) len
    → (mem' : Memory) × (pt_memset p pid va c len (t, mem) ≡ some (len, (t, mem')))
      × IsWritten (λ i. phys p pid t (va + i)) (λ i. c % 256) len mem'
      × IsOutside (λ i. phys p pid t (va + i)) len mem mem'
unfolding pt_memset
pt_memset_lem p pid va c len t mem top present inj =
    pages_loop_all p (λ pa done size. memset pa c size) pid va len t mem
      (λ i. phys p pid t (va + i)) (λ i. c % 256) present top (memset-Writes p pid t va c len mem)
      inj
