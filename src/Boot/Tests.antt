-- ===== src/Boot/Tests.antt =====
-- Runs of the boot loader, and the theorems at them.
use cs.Prelude.{
  ℕ, ◌-◌, ◌+◌, ◌*◌, ◌<◌, ◌≡◌, refl, subst, some, List, [], ◌∷◌, ◌==◌, if◌then◌else◌, arith, length,
  get_or,
}
use cs.KernLib.Str.{Memory}
use cs.KernLib.Dprintf.Buffer.{Holds}
use cs.KernLib.Printfmt.Numeral.{IsNumeral}
use cs.Dev.Mboot.{MbootMmap, PmmapState, pmmap_zero, pmmap_init}
use cs.Dev.Mboot.Insert.{covers}
use cs.Dev.Mboot.Init.{entries_cover}
use cs.Dev.Mboot.Finish.{IsMap}
use cs.Boot.Disk.{Disk}
use cs.Boot.Main.{elfhdr, parse_e820, load_kernel, loaded, is_entry}
use cs.Boot.Main.Map.{parse_e820-pmmap_init}
use cs.Boot.Main.Load.{image, IsLoaded, IsSegment, load_kernel_lem}
use cs.Boot.Print.{itox, dec}
use cs.Boot.Print.Itox.{itox_lem, dec-IsTable}

-- Low memory, usable but for the last 2 KB, and the null entry.
abbrev bios_map : ℕ → MbootMmap
bios_map i = record {
  base_addr_low = if i == 1 then 0x9f000 else 0;
  base_addr_high = 0;
  length_low = if i == 0 then 0x9f000 else if i == 1 then 0x800 else 0;
  length_high = 0;
  type = if i == 0 then 1 else if i == 1 then 2 else 0;
}

parse_e820-pmmap_init_example :
    (len : ℕ) × (s : PmmapState) × (parse_e820 10 bios_map ≡ some len)
    × (pmmap_init bios_map len pmmap_zero ≡ some (some s))
    × IsMap s
    × ((t a : ℕ) → covers t a s.pmmap_list ≡ entries_cover t a bios_map 0 2)
unfolding is_entry cs.Dev.Mboot.pmmap_sublist_nr
parse_e820-pmmap_init_example =
    parse_e820-pmmap_init 10 2 bios_map ((λ i p. ground arith), refl)
      (λ i p. (if i == 0 then 0 else 1, ground arith)) (omega arith) (omega arith)

-- An image with one segment: 0x300 bytes from 0x1000 on, for 0x100000; the entry point is 0x10000c.
abbrev tiny_image : List ℕ
tiny_image =
    0x7F ∷ 0x45 ∷ 0x4C ∷ 0x46 ∷ 0 ∷ 0 ∷ 0 ∷ 0 ∷ 0 ∷ 0 ∷ 0 ∷ 0 ∷ 0 ∷ 0 ∷ 0 ∷ 0 ∷ 0 ∷ 0 ∷ 0 ∷ 0 ∷ 0
    ∷ 0 ∷ 0 ∷ 0 ∷ 0x0C ∷ 0 ∷ 0x10 ∷ 0 ∷ 48 ∷ 0 ∷ 0 ∷ 0 ∷ 0 ∷ 0 ∷ 0 ∷ 0 ∷ 0 ∷ 0 ∷ 0 ∷ 0 ∷ 0 ∷ 0 ∷ 0
    ∷ 0 ∷ 1 ∷ 0 ∷ 0 ∷ 0 ∷ 1 ∷ 0 ∷ 0 ∷ 0 ∷ 0 ∷ 0x10 ∷ 0 ∷ 0 ∷ 0 ∷ 0 ∷ 0x10 ∷ 0 ∷ 0 ∷ 0 ∷ 0 ∷ 0 ∷ 0
    ∷ 0 ∷ 0 ∷ 0 ∷ 0 ∷ 3 ∷ 0 ∷ 0 ∷ []

-- The partition starts at sector 1.
abbrev tiny_disk : Disk
tiny_disk sector i = get_or tiny_image (512 * (sector - 1) + i) 0xCC

first-IsSegment : IsSegment (image tiny_disk 1) 1 (elfhdr + 48 + 32 * 0)
first-IsSegment = ((omega arith), ((omega arith), ((omega arith), refl)))

only-IsSegment : (i : ℕ) → i < 1 → IsSegment (image tiny_disk 1) 1 (elfhdr + 48 + 32 * i)
only-IsSegment i p =
    let here : 0 ≡ i = omega arith in
    subst (λ i. IsSegment (image tiny_disk 1) 1 (elfhdr + 48 + 32 * i)) here first-IsSegment

load_kernel_lem_example :
    (mem' : Memory) × (load_kernel tiny_disk 1 (λ a. 0) ≡ some (loaded mem' 0x10_000C))
    × ((j : ℕ) → j < 1 → IsLoaded (image tiny_disk 1) tiny_disk 1 (elfhdr + 48 + 32 * j) mem')
load_kernel_lem_example =
    load_kernel_lem tiny_disk 1 (λ a. 0) (omega arith) refl
      ((omega arith), ((omega arith), (only-IsSegment, λ i j p q. absurd (omega arith))))

itox_lem_example :
    (ds : List ℕ) × (s' : ℕ → ℕ) × IsNumeral 10 42 ds
    × (itox 40 0xffff_ffd6 10 dec (λ i. 0xff) ≡ some s')
    × Holds s' 0 (45 ∷ ds)
    × (s' (length (45 ∷ ds)) ≡ 0)
itox_lem_example =
    itox_lem 40 0xffff_ffd6 10 dec (λ i. 0xff) (omega arith) (omega arith) (omega arith)
      (omega arith) dec-IsTable
