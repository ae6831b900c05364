-- ===== src/Boot/Main.antt =====
-- boot/boot1/boot1main.c: the partition, the memory map of the BIOS and the kernel's segments. The
-- progress lines are output only, and `exec_kernel`, which is assembly, is left aside.
pub mod Map
pub mod Load
use cs.Prelude.{
  ℕ, zero, suc, ◌+◌, ◌-◌, ◌*◌, ◌%◌, Bool, true, false, ◌||◌, not, Option, none, some, ltb, ◌==◌,
  if◌then◌else◌, add32,
}
use cs.KernLib.Str.{Memory, load16, load32}
use cs.Dev.Mboot.{MbootMmap}
use cs.Boot.Disk.{Disk, sector_size, readsection}

-- The fields of a partition that are read.
pub record Partition : Type 0 where
  pub bootable : ℕ
  pub first_lba : ℕ

-- The search of `boot1main` through the table of four; `none` is its panic.
unfoldable pub find_bootable : ℕ → ℕ → (ℕ → Partition) → Option ℕ
find_bootable zero i partition = none
find_bootable (suc left) i partition =
    let rest = find_bootable left (i + 1) partition in
    if (partition i).bootable == 0x80 then some (partition i).first_lba else rest

-- An entry of the BIOS, `bios_smap_t`, takes the 24 bytes of an `mboot_mmap_t`, its two 64-bit
-- numbers being two words each.
abbrev pub base_addr : MbootMmap → ℕ
base_addr p = p.base_addr_low + 0x1_0000_0000 * p.base_addr_high

abbrev pub smap_length : MbootMmap → ℕ
smap_length p = p.length_low + 0x1_0000_0000 * p.length_high

-- The test of the loop.
unfoldable pub is_entry : MbootMmap → Bool
is_entry p = not (base_addr p == 0) || not (smap_length p == 0) || not (p.type == 0)

-- The answer is `mmap_length`; `none` is a loop that has not ended behind the rounds given.
unfoldable pub parse_e820_loop : ℕ → (ℕ → MbootMmap) → ℕ → ℕ → Option ℕ
parse_e820_loop zero smap i mmap_len = none
parse_e820_loop (suc rounds) smap i mmap_len =
    let rest = parse_e820_loop rounds smap (i + 1) (add32 mmap_len 24) in
    if is_entry (smap i) then rest else some mmap_len

unfoldable pub parse_e820 : ℕ → (ℕ → MbootMmap) → Option ℕ
parse_e820 rounds smap = parse_e820_loop rounds smap 0 0

-- `ELFHDR`, and the places of the fields that are read.
abbrev pub elfhdr : ℕ
elfhdr = 0x20000

abbrev pub elf_magic : ℕ
elf_magic = 0x464C457F

abbrev pub e_magic : Memory → ℕ
e_magic mem = load32 mem elfhdr

abbrev pub e_entry : Memory → ℕ
e_entry mem = load32 mem (elfhdr + 24)

abbrev pub e_phoff : Memory → ℕ
e_phoff mem = load32 mem (elfhdr + 28)

abbrev pub e_phnum : Memory → ℕ
e_phnum mem = load16 mem (elfhdr + 44)

abbrev pub p_offset : Memory → ℕ → ℕ
p_offset mem ph = load32 mem (ph + 4)

abbrev pub p_va : Memory → ℕ → ℕ
p_va mem ph = load32 mem (ph + 8)

abbrev pub p_memsz : Memory → ℕ → ℕ
p_memsz mem ph = load32 mem (ph + 20)

-- The loop over `left` program headers of 32 bytes from `ph` on, in the memory that the rounds
-- before have written to; their end does not wrap. `none` is a read that does not end.
unfoldable pub load_segments : ℕ → Disk → ℕ → ℕ → Memory → Option Memory
load_segments zero disk dkernel ph mem = some mem
load_segments (suc left) disk dkernel ph mem =
    elim (readsection disk (p_va mem ph) (p_memsz mem ph) (p_offset mem ph) dkernel mem) [
      | none ↦ none
      | some mem' ↦ load_segments left disk dkernel (ph + 32) mem'
    ]

-- What becomes of loading: a panic, or memory and the entry point.
pub data Loaded : Type 0 where
  panic : Loaded
  loaded : Memory → ℕ → Loaded

unfoldable pub load_kernel : Disk → ℕ → Memory → Option Loaded
load_kernel disk dkernel mem = elim (readsection disk elfhdr (sector_size * 8) 0 dkernel mem) [
  | none ↦ none
  | some mem1 ↦
      if not (e_magic mem1 == elf_magic)
      then some panic
      else elim (load_segments (e_phnum mem1) disk dkernel (add32 elfhdr (e_phoff mem1)) mem1) [
        | none ↦ none
        | some mem2 ↦ some (loaded mem2 (e_entry mem2 % 0x100_0000))
      ]
]

-- `boot1main` up to the start of the kernel: the length of the memory map that the kernel is handed
-- (0 if none was read), and what becomes of loading.
unfoldable pub boot1main :
    ℕ → Disk → (ℕ → Partition) → (ℕ → MbootMmap) → Memory → Option (ℕ × Loaded)
boot1main rounds disk partition smap mem = elim (find_bootable 4 0 partition) [
  | none ↦ some (0, panic)
  | some bootable_lba ↦ elim (parse_e820 rounds smap) [
    | none ↦ none
    | some mmap_length ↦ elim (load_kernel disk bootable_lba mem) [
      | none ↦ none
      | some kernel ↦ some (mmap_length, kernel)
    ]
  ]
]
