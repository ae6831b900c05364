-- ===== src/Pmm/MatOp.antt =====
-- kern/pmm/MATOp/MATOp.c: the page allocator over the allocation table.
pub mod Scan
pub mod Palloc
use cs.Prelude.{
  ℕ, zero, suc, ◌+◌, ◌-◌, Bool, true, false, not, ◌&&◌, ◌||◌, Option, none, some, ltb, leb, ◌==◌,
  if◌then◌else◌, add32,
}
use cs.Pmm.MatIntro.{Mat, truthy, get_nps, at_is_norm, at_is_allocated, at_set_allocated}

-- `VM_USERLO / PAGESIZE` and `VM_USERHI / PAGESIZE`.
abbrev pub vm_userlo_pi : ℕ
vm_userlo_pi = 0x40000

abbrev pub vm_userhi_pi : ℕ
vm_userhi_pi = 0xf0000

-- The number of pages of user memory, which bounds the rounds of the scan.
abbrev pub user_pages : ℕ
user_pages = 0xb0000

-- The allocation table and the static `last_palloc_index`.
pub record Pmm : Type 0 where
  pub mat : Mat
  pub last_palloc_index : ℕ

-- The variables that the loop of `palloc` changes.
pub record ScanVars : Type 0 where
  pub palloc_index : ℕ
  pub palloc_free_index : ℕ
  pub first : Bool

-- The test of the `if` in the loop.
unfoldable pub page_is_free : ℕ → Mat → Bool
unfolding at_is_norm at_is_allocated
page_is_free i m = truthy (at_is_norm i m) && not (truthy (at_is_allocated i m))

unfoldable pub scan_test : ℕ → ℕ → ScanVars → Bool
scan_test nps last s = (not (s.palloc_index == last) || s.first) && (s.palloc_free_index == nps)

-- The index after `i`: `palloc_index++` and the wrap at the end of user memory.
unfoldable pub next_index : ℕ → ℕ
next_index i = if leb vm_userhi_pi (add32 i 1) then vm_userlo_pi else add32 i 1

unfoldable pub scan_body : Mat → ScanVars → ScanVars
scan_body m s = record {
  palloc_index = next_index s.palloc_index;
  palloc_free_index = if page_is_free s.palloc_index m then s.palloc_index else s.palloc_free_index;
  first = false;
}

-- `none` means that the fuel ran out.
unfoldable pub scan_loop : ℕ → Mat → ℕ → ℕ → ScanVars → Option ScanVars
scan_loop zero m nps last s = none
scan_loop (suc fuel) m nps last s = elim (scan_test nps last s) [
  | true ↦ scan_loop fuel m nps last (scan_body m s)
  | false ↦ some s
]

-- What follows the loop.
unfoldable pub scan_finish : ℕ → Pmm → ScanVars → ℕ × Pmm
scan_finish nps p s =
    if s.palloc_free_index == nps then (0, record p { last_palloc_index = vm_userlo_pi }) else (
      s.palloc_free_index,
      record {
        mat = at_set_allocated s.palloc_free_index 1 p.mat;
        last_palloc_index = s.palloc_free_index;
      },
    )

unfoldable pub palloc : Pmm → Option (ℕ × Pmm)
unfolding get_nps
palloc p =
    let nps = get_nps p.mat in
    let last = p.last_palloc_index in
    elim (scan_loop (user_pages + 1) p.mat nps last
      (record { palloc_index = last; palloc_free_index = nps; first = true })) [
        | none ↦ none
        | some s ↦ some (scan_finish nps p s)
      ]

unfoldable pub pfree : ℕ → Pmm → Pmm
pfree pfree_index p = record p { mat = at_set_allocated pfree_index 0 p.mat }
