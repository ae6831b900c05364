-- ===== src/KernLib/Elf/Sample.antt =====
-- For the tests: a small executable of one segment, and page tables whose frames stand 2 MB above
-- their pages.
use cs.Prelude.{
  ℕ, ◌+◌, ◌-◌, ◌*◌, ◌/◌, ◌%◌, ◌≡◌, refl, ap, subst, update, arith, List, [], ◌∷◌, get_or,
}
use cs.KernLib.Str.{Memory}
use cs.KernLib.Elf.Load.{IsSegment}
use cs.KernLib.Elf.Program.{IsProgram, header_of}
use cs.KernLib.Pmap.{Paging}

abbrev pub raised : Paging (ℕ → ℕ)
raised = record {
  get_ptbl_entry_by_va = λ pid va t. t (va / 4096);
  alloc_page =
      λ pid va perm s. (update s.0 (va / 4096) ((va / 4096 + 0x200) * 4096 + perm % 4096), s.1);
  entry_page = λ pid va t. ap t (omega arith);
}

-- The header; at 52 the program header: 16 bytes of the file and 6000 of memory for 0x400000b0, which
-- may be written; at 84 the section headers; at 176 the bytes of the segment.
abbrev pub sample : List ℕ
sample =
    127 ∷ 69 ∷ 76 ∷ 70 ∷ 1 ∷ 1 ∷ 1 ∷ 0 ∷ 0 ∷ 0 ∷ 0 ∷ 0 ∷ 0 ∷ 0 ∷ 0 ∷ 0 ∷ 2 ∷ 0 ∷ 3 ∷ 0 ∷ 1 ∷ 0 ∷ 0
    ∷ 0 ∷ 176 ∷ 0 ∷ 0 ∷ 64 ∷ 52 ∷ 0 ∷ 0 ∷ 0 ∷ 84 ∷ 0 ∷ 0 ∷ 0 ∷ 0 ∷ 0 ∷ 0 ∷ 0 ∷ 52 ∷ 0 ∷ 32 ∷ 0 ∷ 1
    ∷ 0 ∷ 40 ∷ 0 ∷ 2 ∷ 0 ∷ 1 ∷ 0 ∷ 1 ∷ 0 ∷ 0 ∷ 0 ∷ 176 ∷ 0 ∷ 0 ∷ 0 ∷ 176 ∷ 0 ∷ 0 ∷ 64 ∷ 176 ∷ 0 ∷ 0
    ∷ 64 ∷ 16 ∷ 0 ∷ 0 ∷ 0 ∷ 112 ∷ 23 ∷ 0 ∷ 0 ∷ 6 ∷ 0 ∷ 0 ∷ 0 ∷ 0 ∷ 16 ∷ 0 ∷ 0 ∷ 0 ∷ 0 ∷ 0 ∷ 0 ∷ 0
    ∷ 0 ∷ 0 ∷ 0 ∷ 0 ∷ 0 ∷ 0 ∷ 0 ∷ 0 ∷ 0 ∷ 0 ∷ 0 ∷ 0 ∷ 0 ∷ 0 ∷ 0 ∷ 0 ∷ 0 ∷ 0 ∷ 0 ∷ 0 ∷ 0 ∷ 0 ∷ 0 ∷ 0
    ∷ 0 ∷ 0 ∷ 0 ∷ 0 ∷ 0 ∷ 0 ∷ 0 ∷ 0 ∷ 0 ∷ 0 ∷ 0 ∷ 0 ∷ 0 ∷ 0 ∷ 0 ∷ 3 ∷ 0 ∷ 0 ∷ 0 ∷ 0 ∷ 0 ∷ 0 ∷ 0 ∷ 0
    ∷ 0 ∷ 0 ∷ 0 ∷ 0 ∷ 0 ∷ 0 ∷ 0 ∷ 0 ∷ 0 ∷ 0 ∷ 0 ∷ 0 ∷ 0 ∷ 0 ∷ 0 ∷ 0 ∷ 0 ∷ 0 ∷ 0 ∷ 0 ∷ 0 ∷ 0 ∷ 0 ∷ 0
    ∷ 0 ∷ 0 ∷ 0 ∷ 0 ∷ 0 ∷ 0 ∷ 0 ∷ 0 ∷ 0 ∷ 0 ∷ 0 ∷ 0 ∷ 0 ∷ 0 ∷ 0 ∷ 11 ∷ 12 ∷ 13 ∷ 14 ∷ 15 ∷ 16 ∷ 17
    ∷ 18 ∷ 19 ∷ 20 ∷ 21 ∷ 22 ∷ 23 ∷ 24 ∷ 25 ∷ 26 ∷ []

abbrev pub memory : Memory
memory a = get_or sample (a - 0x10_0000) 0

sample-IsSegment : IsSegment 0x10_0000 0x20_0000 0x10_0000 (header_of memory 0x10_0000 0)
sample-IsSegment = record {
  low = omega arith;
  top = omega arith;
  sizes = omega arith;
  congruent = refl;
  file = omega arith;
  no_wrap = omega arith;
}

pub sample-IsProgram : IsProgram 0x10_0000 0x20_0000 0x10_0000 memory
sample-IsProgram = record {
  loadable = refl;
  starts = omega arith;
  table = omega arith;
  table_end = omega arith;
  headers = record {
    segments = λ i h load.
        let first : 0 ≡ i = omega arith in
        subst (λ j. IsSegment 0x10_0000 0x20_0000 0x10_0000 (header_of memory 0x10_0000 j)) first
          sample-IsSegment;
    disjoint = λ i j less h load load'. absurd (omega arith);
  };
}
