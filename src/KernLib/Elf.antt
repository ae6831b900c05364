-- ===== src/KernLib/Elf.antt =====
-- kern/lib/elf.c: a program's segments come to the pages of a process. The page tables are those of
-- cs.KernLib.Pmap. The outer `none` is a loop that has not ended behind its fuel, the inner one a
-- failed assertion, which halts the machine.
pub mod View
pub mod Sample
pub mod Page
pub mod Fresh
pub mod Segment
pub mod Load
pub mod Table
pub mod Headers
pub mod Program
mod Tests
use cs.Prelude.{
  ℕ, zero, suc, ◌+◌, ◌-◌, ◌*◌, ◌/◌, ◌%◌, Bool, true, false, ◌&&◌, ◌||◌, not, Option, none, some,
  ltb, ◌==◌, if◌then◌else◌, add32, ◌>>=◌,
}
use cs.KernLib.Str.{Memory, load16, load32}
use cs.KernLib.Pmap.{Paging, pagesize, pt_copyout, pt_memset}

-- `rounddown` and `roundup` of kern/lib/types.c.
abbrev pub rounddown : ℕ → ℕ → ℕ
rounddown a n = a - a % n

abbrev pub roundup : ℕ → ℕ → ℕ
roundup a n = rounddown ((a + n - 1) % 0x1_0000_0000) n

abbrev pub elf_magic : ℕ
elf_magic = 0x464C457F

abbrev pub vm_dynlink : ℕ
vm_dynlink = 0xe000_0000

-- The fields of `elfhdr` and of `proghdr` that are read.
pub record Elfhdr : Type 0 where
  pub e_magic : ℕ
  pub e_entry : ℕ
  pub e_phoff : ℕ
  pub e_shoff : ℕ
  pub e_phnum : ℕ
  pub e_shstrndx : ℕ

abbrev pub elfhdr_at : Memory → ℕ → Elfhdr
elfhdr_at mem exe = record {
  e_magic = load32 mem exe;
  e_entry = load32 mem (exe + 24);
  e_phoff = load32 mem (exe + 28);
  e_shoff = load32 mem (exe + 32);
  e_phnum = load16 mem (exe + 44);
  e_shstrndx = load16 mem (exe + 50);
}

pub record Proghdr : Type 0 where
  pub p_type : ℕ
  pub p_offset : ℕ
  pub p_va : ℕ
  pub p_filesz : ℕ
  pub p_memsz : ℕ
  pub p_flags : ℕ

abbrev pub proghdr_at : Memory → ℕ → Proghdr
proghdr_at mem ph = record {
  p_type = load32 mem ph;
  p_offset = load32 mem (ph + 4);
  p_va = load32 mem (ph + 8);
  p_filesz = load32 mem (ph + 16);
  p_memsz = load32 mem (ph + 20);
  p_flags = load32 mem (ph + 24);
}

-- The type of the section header at an index: the headers have 40 bytes.
abbrev pub sh_type_at : Memory → ℕ → ℕ → ℕ
sh_type_at mem sh i = load32 mem (sh + 40 * i + 4)

-- `zva`, `eva` and `perm` of a program header.
abbrev pub zva_of : Proghdr → ℕ
zva_of ph = add32 ph.p_va ph.p_filesz

abbrev pub eva_of : Proghdr → ℕ
eva_of ph = roundup (add32 ph.p_va ph.p_memsz) pagesize

abbrev pub perm_of : Proghdr → ℕ
perm_of ph = if ph.p_flags / 2 % 2 == 1 then 7 else 5

-- The body of the loop over the pages of a segment behind `alloc_page`.
unfoldable pub fill_page :
    {Tables : Type 0}
    → Paging Tables
    → ℕ
    → ℕ
    → ℕ
    → ℕ
    → ℕ
    → Tables × Memory
    → Option (Tables × Memory)
fill_page p pid filesz zva va fa m =
    if ltb va (rounddown zva pagesize)
    then (pt_copyout p fa pid va pagesize m >>= λ (n, m'). some m')
    else if ltb va zva && not (filesz == 0)
    then (pt_memset p pid va 0 pagesize m >>= λ (n, m').
        pt_copyout p fa pid va (zva - va) m' >>= λ (n', m''). some m'')
    else (pt_memset p pid va 0 pagesize m >>= λ (n, m'). some m')

-- The loop over the pages. `p_filesz`, which the loop reads anew, is that of the header as it was read
-- before it.
unfoldable pub load_pages :
    {Tables : Type 0}
    → ℕ
    → Paging Tables
    → ℕ
    → Proghdr
    → ℕ
    → ℕ
    → Tables × Memory
    → Option (Tables × Memory)
load_pages zero p pid ph va fa m = none
load_pages (suc fuel) p pid ph va fa m = elim (ltb va (eva_of ph)) [
  | false ↦ some m
  | true ↦
      elim (fill_page p pid ph.p_filesz (zva_of ph) va fa (p.alloc_page pid va (perm_of ph) m)) [
        | none ↦ none
        | some m' ↦ load_pages fuel p pid ph (add32 va pagesize) (add32 fa pagesize) m'
      ]
]

-- A program header; one that is not to be loaded is passed over. The fuel is a round for each page
-- below `eva`.
unfoldable pub load_segment :
    {Tables : Type 0} → Paging Tables → ℕ → ℕ → Proghdr → Tables × Memory → Option (Tables × Memory)
load_segment p pid exe ph m =
    if not (ph.p_type == 1)
    then some m
    else load_pages (eva_of ph / pagesize + 1) p pid ph (rounddown ph.p_va pagesize)
        (add32 exe (rounddown ph.p_offset pagesize)) m

-- The loop over `left` program headers of 32 bytes; each is read as memory is then.
unfoldable pub load_headers :
    {Tables : Type 0} → ℕ → Paging Tables → ℕ → ℕ → ℕ → Tables × Memory → Option (Tables × Memory)
load_headers zero p pid exe ph m = some m
load_headers (suc left) p pid exe ph m = elim (load_segment p pid exe (proghdr_at m.1 ph) m) [
  | none ↦ none
  | some m' ↦ load_headers left p pid exe (ph + 32) m'
]

-- The three assertions.
abbrev pub is_loadable : Memory → ℕ → Bool
is_loadable mem exe =
    let eh = elfhdr_at mem exe in
    (eh.e_magic == elf_magic)
    && (not (eh.e_shstrndx == 0) && (sh_type_at mem (add32 exe eh.e_shoff) eh.e_shstrndx == 3))

-- `dll` is the address of the table of kernel functions, a page long.
unfoldable pub elf_load :
    {Tables : Type 0}
    → Paging Tables
    → ℕ
    → ℕ
    → ℕ
    → Tables × Memory
    → Option (Option (Tables × Memory))
elf_load p dll exe pid m =
    let eh = elfhdr_at m.1 exe in
    if not (is_loadable m.1 exe)
    then some none
    else elim (load_headers eh.e_phnum p pid exe (add32 exe eh.e_phoff) m) [
      | none ↦ none
      | some m' ↦ elim (pt_copyout p dll pid vm_dynlink pagesize m') [
        | none ↦ none
        | some (n, m'') ↦ some (some m'')
      ]
    ]

unfoldable pub elf_entry : Memory → ℕ → Option ℕ
elf_entry mem exe =
    if (elfhdr_at mem exe).e_magic == elf_magic then some (elfhdr_at mem exe).e_entry else none
