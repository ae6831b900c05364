-- ===== src/KernLib/Elf/Table.antt =====
-- What a table of program headers asks for, and that it stays as it is while the image does.
use cs.Prelude.{
  ℕ, zero, suc, ◌+◌, ◌-◌, ◌<◌, ◌≤◌, ◌≡◌, ◌⊎◌, inl, inr, not, ◌&&◌, ltb, ◌==◌, if◌then◌else◌, refl,
  arith, Bool-cases,
}
use cs.KernLib.Str.{Memory, load32}
use cs.KernLib.Pmap.{Paging}
use cs.KernLib.Elf.{Proghdr, proghdr_at, eva_of, perm_of}
use cs.KernLib.Elf.View.{entry, Shows, Absent}
use cs.KernLib.Elf.Load.{start_of, page_count, IsSegment, segment_byte}

-- The segments that are to be loaded are such as an executable may have, and no two share a page.
pub record AreSegments (lo hi exe left : ℕ) (hdr : ℕ → Proghdr) : Type 0 where
  pub segments : (i : ℕ) → i < left → (hdr i).p_type ≡ 1 → IsSegment lo hi exe (hdr i)
  pub disjoint :
      (i j : ℕ)
      → i < j
      → j < left
      → (hdr i).p_type ≡ 1
      → (hdr j).p_type ≡ 1
      → (eva_of (hdr i) ≤ start_of (hdr j)) ⊎ (eva_of (hdr j) ≤ start_of (hdr i))

abbrev pub pages_needed : ℕ → (ℕ → Proghdr) → ℕ
pages_needed zero hdr = 0
pages_needed (suc left) hdr =
    let rest = pages_needed left (λ i. hdr (i + 1)) in
    if (hdr 0).p_type == 1 then page_count (hdr 0) + rest else rest

abbrev pub AreAbsent :
    {Tables : Type 0} → Paging Tables → ℕ → ℕ → (ℕ → Proghdr) → Tables × Memory → Type 0
AreAbsent p pid left hdr s =
    (i : ℕ) → i < left → (hdr i).p_type ≡ 1 → Absent p pid (start_of (hdr i)) (eva_of (hdr i)) s

-- Every segment shows what the executable says.
abbrev pub AreLoaded :
    {Tables : Type 0}
    → Paging Tables
    → ℕ
    → Memory
    → ℕ
    → ℕ
    → (ℕ → Proghdr)
    → Tables × Memory
    → Type 0
AreLoaded p pid mem exe left hdr s =
    (i : ℕ)
    → i < left
    → (hdr i).p_type ≡ 1
    → Shows p pid (start_of (hdr i)) (eva_of (hdr i)) (perm_of (hdr i))
        (segment_byte mem exe (hdr i)) s

-- The entries of all pages that are of no segment are what they were.
abbrev pub MapsSegments :
    {Tables : Type 0}
    → Paging Tables
    → ℕ
    → ℕ
    → (ℕ → Proghdr)
    → Tables × Memory
    → Tables × Memory
    → Type 0
MapsSegments p pid left hdr s s' =
    (u : ℕ)
    → ((i : ℕ) → i < left → (hdr i).p_type ≡ 1 → (u < start_of (hdr i)) ⊎ (eva_of (hdr i) ≤ u))
    → entry p pid s' u ≡ entry p pid s u

pub AreSegments-rest :
    (lo hi exe left : ℕ) (hdr : ℕ → Proghdr)
    → AreSegments lo hi exe (suc left) hdr
    → AreSegments lo hi exe left (λ i. hdr (i + 1))
AreSegments-rest lo hi exe left hdr h = record {
  segments = λ i k load. h.segments (i + 1) (omega arith) load;
  disjoint =
      λ i j less k load load'. h.disjoint (i + 1) (j + 1) (omega arith) (omega arith) load load';
}

abbrev pub SameImage : ℕ → ℕ → Memory → Memory → Type 0
SameImage lo hi mem mem' = (a : ℕ) → lo ≤ a → a < hi → mem' a ≡ mem a

pub load32-SameImage :
    (lo hi a : ℕ) (mem mem' : Memory)
    → SameImage lo hi mem mem'
    → lo ≤ a
    → a + 4 ≤ hi
    → load32 mem' a ≡ load32 mem a
load32-SameImage lo hi a mem mem' same l h =
    let e0 = same a l (omega arith) in
    let e1 = same (a + 1) (omega arith) (omega arith) in
    let e2 = same (a + 2) (omega arith) (omega arith) in
    let e3 = same (a + 3) (omega arith) (omega arith) in omega arith

pub proghdr_at-SameImage :
    (lo hi ph : ℕ) (mem mem' : Memory)
    → SameImage lo hi mem mem'
    → lo ≤ ph
    → ph + 32 ≤ hi
    → proghdr_at mem' ph ≡ proghdr_at mem ph
proghdr_at-SameImage lo hi ph mem mem' same l h =
    let word : (c : ℕ) → c ≤ 28 → load32 mem' (ph + c) ≡ load32 mem (ph + c) =
      λ c k. load32-SameImage lo hi (ph + c) mem mem' same (omega arith) (omega arith) in
    let e0 = load32-SameImage lo hi ph mem mem' same l (omega arith) in
    let e1 = word 4 (omega arith) in
    let e2 = word 8 (omega arith) in
    let e3 = word 16 (omega arith) in
    let e4 = word 20 (omega arith) in
    let e5 = word 24 (omega arith) in rw (e0, e1, e2, e3, e4, e5) refl

pub segment_byte-SameImage :
    (lo hi exe : ℕ) (ph : Proghdr) (mem mem' : Memory) (u : ℕ)
    → IsSegment lo hi exe ph
    → lo ≤ exe
    → SameImage lo hi mem mem'
    → start_of ph ≤ u
    → segment_byte mem' exe ph u ≡ segment_byte mem exe ph u
segment_byte-SameImage lo hi exe ph mem mem' u h from same l =
    let congruent = h.congruent in
    let file = h.file in
    elim (Bool-cases (ltb u (ph.p_va + ph.p_filesz) && not (ph.p_filesz == 0))) [
      | inl inside ↦ rw inside (same (exe + ph.p_offset + u - ph.p_va) (omega arith) (ground arith))
      | inr outside ↦ rw outside refl
    ]
