-- ===== src/Boot/Main/Load.antt =====
-- `load_kernel`: the kernel's segments on the disk and in memory.
use cs.Prelude.{
  ℕ, zero, suc, ◌+◌, ◌-◌, ◌*◌, ◌/◌, ◌%◌, ◌<◌, ◌≤◌, ◌≡◌, ◌≢◌, ◌∙◌, refl, sym, ap, subst, inl, inr,
  true, false, not, some, ◌==◌, add32, arith, Bool-cases,
}
use cs.KernLib.Str.{Memory, load32}
use cs.Boot.Disk.{Disk, sector_size, readsection}
use cs.Boot.Disk.Section.{partition_byte, readsection_lem}
use cs.Boot.Main.{
  elfhdr, elf_magic, e_magic, e_entry, e_phoff, e_phnum, p_offset, p_va, p_memsz, load_segments,
  load_kernel, loaded, panic,
}

-- The kernel's file as it stands at `ELFHDR`.
abbrev pub image : Disk → ℕ → Memory
image disk lba a = partition_byte disk lba (a - elfhdr)

-- The two memories hold the same eight sectors at `ELFHDR`.
abbrev SameHeaders : Memory → Memory → Type 0
SameHeaders mem hdr = (a : ℕ) → elfhdr ≤ a → a < elfhdr + 4096 → mem a ≡ hdr a

load32-same :
    (mem hdr : Memory) (a : ℕ)
    → SameHeaders mem hdr
    → elfhdr ≤ a
    → a + 4 ≤ elfhdr + 4096
    → load32 mem a ≡ load32 hdr a
load32-same mem hdr a same lo hi =
    let b0 = same a lo (omega arith) in
    let b1 = same (a + 1) (omega arith) (omega arith) in
    let b2 = same (a + 2) (omega arith) (omega arith) in
    let b3 = same (a + 3) (omega arith) (omega arith) in omega (arith, b0, b1, b2, b3)

-- Where a header's segment goes, and the start of its first sector.
abbrev pub segment_start : Memory → ℕ → ℕ
segment_start hdr ph = p_va hdr ph % 0x100_0000

abbrev pub sector_start : Memory → ℕ → ℕ
sector_start hdr ph = segment_start hdr ph - segment_start hdr ph % sector_size

-- A segment above the eight sectors, ending below 4G and on the disk, and aligned to its sectors.
abbrev pub IsSegment : Memory → ℕ → ℕ → Type 0
IsSegment hdr lba ph =
    (elfhdr + 4096 ≤ sector_start hdr ph)
    × ((segment_start hdr ph + p_memsz hdr ph ≤ 0xffff_fe00)
        × ((p_offset hdr ph / sector_size + lba < 0xf00_0000)
            × (p_offset hdr ph % sector_size ≡ p_va hdr ph % sector_size)))

-- The `n` headers from `ph` on are among the eight sectors; each segment is one as above, and its
-- first sector starts behind the segments before it.
abbrev pub AreSegments : Memory → ℕ → ℕ → ℕ → Type 0
AreSegments hdr lba ph n =
    (elfhdr ≤ ph)
    × ((ph + 32 * n ≤ elfhdr + 4096)
        × (((i : ℕ) → i < n → IsSegment hdr lba (ph + 32 * i))
            × ((i j : ℕ)
                → i < j
                → j < n
                → segment_start hdr (ph + 32 * i) + p_memsz hdr (ph + 32 * i)
                  ≤ sector_start hdr (ph + 32 * j))))

-- The bytes of a segment stand where they belong.
abbrev pub IsLoaded : Memory → Disk → ℕ → ℕ → Memory → Type 0
IsLoaded hdr disk lba ph mem =
    (k : ℕ)
    → k < p_memsz hdr ph
    → mem (segment_start hdr ph + k) ≡ partition_byte disk lba (p_offset hdr ph + k)

-- One round, with the header read from memory.
load_segment :
    (disk : Disk) (lba ph : ℕ) (mem hdr : Memory)
    → SameHeaders mem hdr
    → elfhdr ≤ ph
    → ph + 32 ≤ elfhdr + 4096
    → IsSegment hdr lba ph
    → (mem' : Memory) × (readsection disk (p_va mem ph) (p_memsz mem ph) (p_offset mem ph) lba mem
        ≡ some mem')
      × IsLoaded hdr disk lba ph mem'
      × ((a : ℕ) → a < sector_start hdr ph → mem' a ≡ mem a)
load_segment disk lba ph mem hdr same lo hi (_, (top, (sectors, aligned))) =
    let va = load32-same mem hdr (ph + 8) same (omega arith) (omega arith) in
    let memsz = load32-same mem hdr (ph + 20) same (omega arith) (omega arith) in
    let offset = load32-same mem hdr (ph + 4) same (omega arith) (omega arith) in
    let (mem', run, inside, outside) =
      readsection_lem disk (p_va hdr ph) (p_memsz hdr ph) (p_offset hdr ph) lba mem top sectors
        aligned in
    (
      mem',
      ap (λ v. readsection disk v (p_memsz mem ph) (p_offset mem ph) lba mem) va
          ∙ ap (λ m. readsection disk (p_va hdr ph) m (p_offset mem ph) lba mem) memsz
          ∙ ap (λ o. readsection disk (p_va hdr ph) (p_memsz hdr ph) o lba mem) offset
          ∙ run,
      inside,
      λ a p. outside a (inl p),
    )

load_segments-step :
    (left : ℕ) (disk : Disk) (lba ph : ℕ) (mem mem' : Memory)
    → readsection disk (p_va mem ph) (p_memsz mem ph) (p_offset mem ph) lba mem ≡ some mem'
    → load_segments (suc left) disk lba ph mem ≡ load_segments left disk lba (ph + 32) mem'
unfolding load_segments
load_segments-step left disk lba ph mem mem' e = rw (load_segments, e) refl

load_segments_lem :
    (left i n : ℕ) (disk : Disk) (lba ph : ℕ) (mem hdr : Memory)
    → AreSegments hdr lba ph n
    → SameHeaders mem hdr
    → i + left ≡ n
    → (mem' : Memory) × (load_segments left disk lba (ph + 32 * i) mem ≡ some mem')
      × ((j : ℕ) → i ≤ j → j < n → IsLoaded hdr disk lba (ph + 32 * j) mem')
      × ((a : ℕ) → ((j : ℕ) → i ≤ j → j < n → a < sector_start hdr (ph + 32 * j)) → mem' a ≡ mem a)
unfolding load_segments
load_segments_lem zero i n disk lba ph mem hdr good same at =
    (mem, refl, (λ j p q. absurd (omega arith)), λ a p. refl)
load_segments_lem (suc left) i n disk lba ph mem hdr (lo, (hi, (each, order))) same at =
    let here = each i (omega arith) in
    let (mem1, run, now, below) =
      load_segment disk lba (ph + 32 * i) mem hdr same (omega arith) (omega arith) here in
    let same1 : SameHeaders mem1 hdr = λ a p q. below a (omega (arith, here.0)) ∙ same a p q in
    let (mem', rest, later, kept) =
      load_segments_lem left (i + 1) n disk lba ph mem1 hdr (lo, (hi, (each, order))) same1
        (omega arith) in
    let next : ph + 32 * i + 32 ≡ ph + 32 * (i + 1) = omega arith in
    (
      mem',
      load_segments-step left disk lba (ph + 32 * i) mem mem1 run
          ∙ ap (λ p. load_segments left disk lba p mem1) next
          ∙ rest,
      (λ j p q. elim (Bool-cases (j == i)) [
        | inl e ↦
            let this : i ≡ j = ground arith in
            subst (λ j. IsLoaded hdr disk lba (ph + 32 * j) mem') this
              (λ k s.
                kept (segment_start hdr (ph + 32 * i) + k)
                  (λ j' p' q'. let o = order i j' (omega arith) q' in omega arith)
                ∙ now k s)
        | inr e ↦ later j (ground arith) q
      ]),
      λ a p. kept a (λ j p' q'. p j (omega arith) q') ∙ below a (p i (omega arith) (omega arith)),
    )

load_kernel-panic :
    (disk : Disk) (dkernel : ℕ) (mem mem1 : Memory)
    → readsection disk elfhdr (sector_size * 8) 0 dkernel mem ≡ some mem1
    → e_magic mem1 ≢ elf_magic
    → load_kernel disk dkernel mem ≡ some panic
unfolding load_kernel
load_kernel-panic disk dkernel mem mem1 run bad =
    let e : not (e_magic mem1 == elf_magic) ≡ true = ground arith in rw (load_kernel, run, e) refl

load_kernel-loaded :
    (disk : Disk) (dkernel : ℕ) (mem mem1 mem2 : Memory)
    → readsection disk elfhdr (sector_size * 8) 0 dkernel mem ≡ some mem1
    → e_magic mem1 ≡ elf_magic
    → load_segments (e_phnum mem1) disk dkernel (add32 elfhdr (e_phoff mem1)) mem1 ≡ some mem2
    → load_kernel disk dkernel mem ≡ some (loaded mem2 (e_entry mem2 % 0x100_0000))
unfolding load_kernel
load_kernel-loaded disk dkernel mem mem1 mem2 run good rest =
    let e : not (e_magic mem1 == elf_magic) ≡ false = ground arith in
    rw (load_kernel, run, e, rest) refl

-- The eight sectors come to `ELFHDR`.
headers_lem :
    (disk : Disk) (dkernel : ℕ) (mem : Memory)
    → dkernel < 0xf00_0000
    → (mem1 : Memory) × (readsection disk elfhdr (sector_size * 8) 0 dkernel mem ≡ some mem1)
      × SameHeaders mem1 (image disk dkernel)
headers_lem disk dkernel mem small =
    let (mem1, run, inside, _) =
      readsection_lem disk elfhdr 4096 0 dkernel mem (omega arith) (omega arith) (omega arith) in
    (
      mem1,
      run,
      λ a p q.
          let place : a ≡ elfhdr + (a - elfhdr) = omega arith in
          let at : 0 + (a - elfhdr) ≡ a - elfhdr = omega arith in
          ap mem1 place ∙ inside (a - elfhdr) (omega arith) ∙ ap (partition_byte disk dkernel) at,
    )

load_kernel-good :
    (disk : Disk) (dkernel : ℕ) (mem mem1 : Memory)
    → SameHeaders mem1 (image disk dkernel)
    → readsection disk elfhdr (sector_size * 8) 0 dkernel mem ≡ some mem1
    → e_magic mem1 ≡ elf_magic
    → AreSegments
        (image disk dkernel)
        dkernel
        (elfhdr + e_phoff (image disk dkernel))
        (e_phnum (image disk dkernel))
    → (mem' : Memory) × (load_kernel disk dkernel mem
        ≡ some (loaded mem' (e_entry (image disk dkernel) % 0x100_0000)))
      × ((j : ℕ)
          → j < e_phnum (image disk dkernel)
          → IsLoaded
              (image disk dkernel)
              disk
              dkernel
              (elfhdr + e_phoff (image disk dkernel) + 32 * j)
              mem')
load_kernel-good disk dkernel mem mem1 same run good segments =
    let hdr = image disk dkernel in
    let n = e_phnum hdr in
    let phoff : e_phoff mem1 ≡ e_phoff hdr =
      load32-same mem1 hdr (elfhdr + 28) same (omega arith) (omega arith) in
    let phnum : e_phnum mem1 ≡ n = omega (
      arith,
      same (elfhdr + 44) (omega arith) (omega arith),
      same (elfhdr + 45) (omega arith) (omega arith),
    ) in
    let (lo, (hi, (each, order))) = segments in
    let start : add32 elfhdr (e_phoff mem1) ≡ elfhdr + e_phoff hdr + 32 * 0 = omega arith in
    let (mem2, rest, all, kept) =
      load_segments_lem n 0 n disk dkernel (elfhdr + e_phoff hdr) mem1 hdr segments same
        (omega arith) in
    let same2 : SameHeaders mem2 hdr =
      λ a p q. kept a (λ j p' q'. omega (arith, (each j q').0)) ∙ same a p q in
    let entry : e_entry mem2 ≡ e_entry hdr =
      load32-same mem2 hdr (elfhdr + 24) same2 (omega arith) (omega arith) in
    (
      mem2,
      load_kernel-loaded disk dkernel mem mem1 mem2 run good (
            ap (λ m. load_segments m disk dkernel (add32 elfhdr (e_phoff mem1)) mem1) phnum
            ∙ ap (λ p. load_segments n disk dkernel p mem1) start
            ∙ rest)
          ∙ ap (λ e. some (loaded mem2 (e % 0x100_0000))) entry,
      λ j p. all j (omega arith) p,
    )

-- From a partition below sector 0xf000000 whose image does not start with the magic number,
-- `load_kernel` panics.
pub load_kernel_panics :
    (disk : Disk) (dkernel : ℕ) (mem : Memory)
    → dkernel < 0xf00_0000
    → e_magic (image disk dkernel) ≢ elf_magic
    → load_kernel disk dkernel mem ≡ some panic
load_kernel_panics disk dkernel mem small bad =
    let (mem1, run, same) = headers_lem disk dkernel mem small in
    let magic = load32-same mem1 (image disk dkernel) elfhdr same (omega arith) (omega arith) in
    load_kernel-panic disk dkernel mem mem1 run (λ e. bad (sym magic ∙ e))

-- From a partition below sector 0xf000000 with the magic number, whose headers are among the first
-- eight sectors and whose segments lie above those, below 4G, on the disk and aligned to its
-- sectors, each with its first sector behind the segments before it, `load_kernel` returns: every
-- segment stands in memory as on the disk, and the entry point is the image's within 16M.
pub load_kernel_lem :
    (disk : Disk) (dkernel : ℕ) (mem : Memory)
    → dkernel < 0xf00_0000
    → e_magic (image disk dkernel) ≡ elf_magic
    → AreSegments
        (image disk dkernel)
        dkernel
        (elfhdr + e_phoff (image disk dkernel))
        (e_phnum (image disk dkernel))
    → (mem' : Memory) × (load_kernel disk dkernel mem
        ≡ some (loaded mem' (e_entry (image disk dkernel) % 0x100_0000)))
      × ((j : ℕ)
          → j < e_phnum (image disk dkernel)
          → IsLoaded
              (image disk dkernel)
              disk
              dkernel
              (elfhdr + e_phoff (image disk dkernel) + 32 * j)
              mem')
load_kernel_lem disk dkernel mem small good segments =
    let (mem1, run, same) = headers_lem disk dkernel mem small in
    let magic = load32-same mem1 (image disk dkernel) elfhdr same (omega arith) (omega arith) in
    load_kernel-good disk dkernel mem mem1 same run (magic ∙ good) segments
