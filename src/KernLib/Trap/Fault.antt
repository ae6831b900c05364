-- ===== src/KernLib/Trap/Fault.antt =====
-- What a trap does to the process.
use cs.Prelude.{
  ℕ, ◌%◌, ◌≡◌, ◌≢◌, ◌⊎◌, inl, inr, refl, true, false, none, some, ◌==◌, arith, Bool-cases,
}
use cs.KernLib.Pmap.{Paging, pagesize, pte_all}
use cs.KernLib.Elf.{rounddown}
use cs.KernLib.Trap.{Tf, t_pgflt, pgflt_handler, Machine, trap}

-- A page fault that is no violation asks for the page of its address, and the process goes on with its
-- own page directory.
trap-handles :
    {Tables : Type 0} (p : Paging Tables) (cid fault_va : ℕ) (tf : Tf) (s : Machine Tables)
    → tf.trapno ≡ t_pgflt
    → tf.err % 2 ≡ 0
    → trap p cid fault_va tf s
      ≡ some (record {
        pdir_base = cid;
        pages = p.alloc_page cid (rounddown fault_va pagesize) pte_all s.pages;
      })
unfolding trap pgflt_handler
trap-handles p cid fault_va tf s is allowed =
    let e : (tf.trapno == t_pgflt) ≡ true = ground arith in
    let v : (tf.err % 2 == 1) ≡ false = ground arith in rw (trap, e, pgflt_handler, v) refl

-- Every other trap, and every violation of a page's permission, is a panic.
pub trap-panics :
    {Tables : Type 0} (p : Paging Tables) (cid fault_va : ℕ) (tf : Tf) (s : Machine Tables)
    → (tf.trapno ≢ t_pgflt) ⊎ (tf.err % 2 ≡ 1)
    → trap p cid fault_va tf s ≡ none
unfolding trap pgflt_handler
trap-panics p cid fault_va tf s (inl other) =
    let e : (tf.trapno == t_pgflt) ≡ false = ground arith in rw (trap, e) refl
trap-panics p cid fault_va tf s (inr violation) = elim (Bool-cases (tf.trapno == t_pgflt)) [
  | inl is ↦ let v : (tf.err % 2 == 1) ≡ true = ground arith in rw (trap, is, pgflt_handler, v) refl
  | inr other ↦ rw (trap, other) refl
]
