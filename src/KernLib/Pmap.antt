-- ===== src/KernLib/Pmap.antt =====
-- kern/lib/pmap.c: the kernel's access to user memory, page by page. The page tables belong to
-- kern/vmm, whose functions are stubs in this tree: they are an interface here, with the laws that
-- their comments state.
pub mod Pages
pub mod Copy
mod Tests
use cs.Prelude.{
  ℕ, zero, suc, ◌+◌, ◌-◌, ◌*◌, ◌/◌, ◌%◌, ◌≡◌, Bool, true, false, ◌&&◌, not, Option, none, some, ltb,
  leb, ◌==◌, if◌then◌else◌, add32, sub32,
}
use cs.KernLib.Str.{Memory, memcpy, memset}

-- The page tables as their clients see them. Memory is passed through `alloc_page`, which may clear
-- a page for a table.
pub record Paging (Tables : Type 0) : Type 0 where
  pub get_ptbl_entry_by_va : ℕ → ℕ → Tables → ℕ
  pub alloc_page : ℕ → ℕ → ℕ → Tables × Memory → Tables × Memory
  -- The entry is that of the page of the address.
  pub entry_page :
      (pid vaddr : ℕ) (t : Tables)
      → get_ptbl_entry_by_va pid vaddr t ≡ get_ptbl_entry_by_va pid (vaddr / 4096 * 4096) t

abbrev pub pagesize : ℕ
pagesize = 4096

abbrev pub vm_userhi : ℕ
vm_userhi = 0xf000_0000

abbrev pub vm_userlo : ℕ
vm_userlo = 0x4000_0000

-- `PTE_P | PTE_U | PTE_W`.
abbrev pub pte_all : ℕ
pte_all = 7

-- The frame of an entry, and the place in it; an entry has 32 bits, so that the sum does not wrap.
abbrev pub frame_place : ℕ → ℕ → ℕ
frame_place entry uva = entry - entry % pagesize + uva % pagesize

-- The page of the address, allocated if it is not present.
unfoldable pub with_page :
    {Tables : Type 0} → Paging Tables → ℕ → ℕ → Tables × Memory → Tables × Memory
with_page p pmap_id uva m =
    if p.get_ptbl_entry_by_va pmap_id uva m.0 % 2 == 0
    then p.alloc_page pmap_id uva pte_all m
    else m

abbrev pub chunk_size : ℕ → ℕ → ℕ
chunk_size pa len = if ltb len (pagesize - pa % pagesize) then len else pagesize - pa % pagesize

-- The loop that the three functions share: `chunk pa done size` is what they do at the physical
-- address `pa` behind `done` bytes. `none` is a loop that has not ended behind the fuel given.
unfoldable pub pages_loop :
    {Tables : Type 0}
    → ℕ
    → Paging Tables
    → (ℕ → ℕ → ℕ → Memory → Memory)
    → ℕ
    → ℕ
    → ℕ
    → ℕ
    → Tables × Memory
    → Option (ℕ × (Tables × Memory))
pages_loop zero p chunk pmap_id uva len done m = none
pages_loop (suc fuel) p chunk pmap_id uva len done m =
    let m' = with_page p pmap_id uva m in
    let pa = frame_place (p.get_ptbl_entry_by_va pmap_id uva m'.0) uva in
    let size = chunk_size pa len in
    elim (len == 0) [
      | true ↦ some (done, m)
      | false ↦
          pages_loop fuel p chunk pmap_id (add32 uva size) (len - size) (add32 done size)
            (m'.0, chunk pa done size m'.1)
    ]

-- The two tests of the copying functions.
unfoldable pub user_range : ℕ → ℕ → ℕ → Bool
user_range uva kva len =
    leb vm_userlo uva && leb (add32 uva len) vm_userhi && leb (add32 kva len) vm_userhi

-- A round takes at least one byte.
unfoldable pub pt_copyin :
    {Tables : Type 0}
    → Paging Tables
    → ℕ
    → ℕ
    → ℕ
    → ℕ
    → Tables × Memory
    → Option (ℕ × (Tables × Memory))
pt_copyin p pmap_id uva kva len m =
    if not (user_range uva kva len)
    then some (0, m)
    else pages_loop (len + 1) p (λ pa done size. memcpy (add32 kva done) pa size) pmap_id uva len 0
        m

unfoldable pub pt_copyout :
    {Tables : Type 0}
    → Paging Tables
    → ℕ
    → ℕ
    → ℕ
    → ℕ
    → Tables × Memory
    → Option (ℕ × (Tables × Memory))
pt_copyout p kva pmap_id uva len m =
    if not (user_range uva kva len)
    then some (0, m)
    else pages_loop (len + 1) p (λ pa done size. memcpy pa (add32 kva done) size) pmap_id uva len 0
        m

unfoldable pub pt_memset :
    {Tables : Type 0}
    → Paging Tables
    → ℕ
    → ℕ
    → ℕ
    → ℕ
    → Tables × Memory
    → Option (ℕ × (Tables × Memory))
pt_memset p pmap_id va c len m =
    pages_loop (len + 1) p (λ pa done size. memset pa c size) pmap_id va len 0 m
