-- ===== src/Boot/Disk/Section.antt =====
-- `readsection`: the bytes of the disk and those of memory.
use cs.Prelude.{
  ℕ, zero, suc, ◌+◌, ◌-◌, ◌*◌, ◌/◌, ◌%◌, ◌<◌, ◌≤◌, ◌≡◌, ◌⊎◌, ◌∙◌, refl, ap, inl, inr, true, false,
  ◌&&◌, some, ltb, leb, ◌==◌, add32, arith, Bool-cases, passes, passes-at,
}
use Prim.Native.Nat.{bit_or}
use cs.KernLib.Str.{Memory}
use cs.Boot.Disk.{
  Disk, sector_size, lba_bytes, lba28, readsector, readsection_loop, readsection, max_rounds,
}

mode_table : passes (λ x. bit_or x 0xE0 % 16 == x % 16) 256 ≡ true
unfolding passes
mode_table = refl

mode_kept : (x : ℕ) → x < 256 → bit_or x 0xE0 % 16 ≡ x % 16
mode_kept x h = ground (arith, passes-at (λ x. bit_or x 0xE0 % 16 == x % 16) 256 x mode_table h)

-- The registers hold the sector number up to 28 bits.
lba28_lem : (offset : ℕ) → offset < 0x1000_0000 → lba28 (lba_bytes offset) ≡ offset
lba28_lem offset h =
    let mode = mode_kept (offset / 16777216 % 256) (omega arith) in omega (arith, mode)

-- The byte of the disk that comes to `a`, when the sector `offset` comes to `va`.
abbrev pub disk_byte : Disk → ℕ → ℕ → ℕ → ℕ
disk_byte disk va offset a = disk (offset + (a - va) / sector_size) ((a - va) % sector_size)

disk_byte-first :
    (disk : Disk) (va offset a : ℕ) (mem : Memory)
    → va ≤ a
    → a < va + 512
    → offset < 0x1000_0000
    → readsector disk va offset mem a ≡ disk_byte disk va offset a
unfolding readsector
disk_byte-first disk va offset a mem lo hi small =
    let inside : leb va a && ltb a (va + sector_size) ≡ true = ground arith in
    let sector : lba28 (lba_bytes offset) ≡ offset + (a - va) / sector_size =
      lba28_lem offset small ∙ omega arith in
    let place : a - va ≡ (a - va) % sector_size = omega arith in
    rw (readsector, inside)
      (ap (λ n. disk n (a - va)) sector ∙ ap (disk (offset + (a - va) / sector_size)) place)

disk_byte-next :
    (disk : Disk) (va offset a : ℕ)
    → va + 512 ≤ a
    → disk_byte disk (va + 512) (offset + 1) a ≡ disk_byte disk va offset a
disk_byte-next disk va offset a h =
    let sector : offset + 1 + (a - (va + 512)) / sector_size ≡ offset + (a - va) / sector_size =
      omega arith in
    let place : (a - (va + 512)) % sector_size ≡ (a - va) % sector_size = omega arith in
    ap (λ n. disk n ((a - (va + 512)) % sector_size)) sector
    ∙ ap (disk (offset + (a - va) / sector_size)) place

readsector-outside :
    (disk : Disk) (va offset a : ℕ) (mem : Memory)
    → (a < va) ⊎ (va + 512 ≤ a)
    → readsector disk va offset mem a ≡ mem a
unfolding readsector
readsector-outside disk va offset a mem h =
    let outside : leb va a && ltb a (va + sector_size) ≡ false = ground arith in
    rw (readsector, outside) refl

readsection_loop-done :
    (rounds : ℕ) (disk : Disk) (va end_va offset : ℕ) (mem : Memory)
    → end_va ≤ va
    → readsection_loop (suc rounds) disk va end_va offset mem ≡ some mem
unfolding readsection_loop
readsection_loop-done rounds disk va end_va offset mem h =
    let e : ltb va end_va ≡ false = ground arith in rw (readsection_loop, e) refl

readsection_loop-more :
    (rounds : ℕ) (disk : Disk) (va end_va offset : ℕ) (mem : Memory)
    → va < end_va
    → end_va ≤ 0xffff_fe00
    → offset < 0x1000_0000
    → readsection_loop (suc rounds) disk va end_va offset mem
      ≡ readsection_loop rounds disk (va + 512) end_va (offset + 1) (readsector disk va offset mem)
unfolding readsection_loop
readsection_loop-more rounds disk va end_va offset mem h top small =
    let e : ltb va end_va ≡ true = ground arith in
    let next_va : add32 va sector_size ≡ va + 512 = omega arith in
    let next_sector : add32 offset 1 ≡ offset + 1 = omega arith in
    rw (readsection_loop, e, next_va, next_sector) refl

-- Up to `last` memory holds the sectors from `offset` on; elsewhere it is as before.
abbrev pub IsRead : Disk → ℕ → ℕ → ℕ → Memory → Memory → Type 0
IsRead disk va last offset mem mem' =
    ((a : ℕ) → va ≤ a → a < last → mem' a ≡ disk_byte disk va offset a)
    × ((a : ℕ) → (a < va) ⊎ (last ≤ a) → mem' a ≡ mem a)

-- The end of the last sector that is read.
abbrev pub IsLast : ℕ → ℕ → ℕ → Type 0
IsLast va end_va last =
    (va ≤ last)
    × ((end_va ≤ last) × ((va < end_va → last < end_va + 512) × (end_va ≤ va → last ≡ va)))

readsection_loop_lem :
    (rounds : ℕ) (disk : Disk) (va end_va offset : ℕ) (mem : Memory)
    → end_va ≤ va + 512 * rounds
    → end_va ≤ 0xffff_fe00
    → offset + rounds < 0x1000_0000
    → (mem' : Memory) × (last : ℕ) × (readsection_loop (suc rounds) disk va end_va offset mem
        ≡ some mem')
      × IsLast va end_va last
      × IsRead disk va last offset mem mem'
readsection_loop_lem zero disk va end_va offset mem h top sectors = (
  mem,
  va,
  readsection_loop-done 0 disk va end_va offset mem (omega arith),
  ((omega arith), ((omega arith), ((λ p. omega arith), λ p. refl))),
  ((λ a p q. absurd (omega arith)), λ a p. refl),
)
readsection_loop_lem (suc rounds) disk va end_va offset mem h top sectors =
    elim (Bool-cases (ltb va end_va)) [
      | inl lt ↦
          let below : va < end_va = ground arith in
          let mem1 = readsector disk va offset mem in
          let (mem', last, run, (up, (reach, (near, stop))), (inside, outside)) =
            readsection_loop_lem rounds disk (va + 512) end_va (offset + 1) mem1 (omega arith) top
              (omega arith) in
          (
            mem',
            last,
            readsection_loop-more (suc rounds) disk va end_va offset mem below top (omega arith)
                ∙ run,
            ((omega arith), (reach, ((λ p. ground arith), λ p. absurd (omega arith)))),
            (
              (λ a p q. elim (Bool-cases (ltb a (va + 512))) [
                | inl first ↦
                    outside a (inl (ground arith))
                    ∙ disk_byte-first disk va offset a mem p (ground arith) (omega arith)
                | inr later ↦
                    inside a (ground arith) q ∙ disk_byte-next disk va offset a (ground arith)
              ]),
              λ a p.
                  outside a (omega arith) ∙ readsector-outside disk va offset a mem (omega arith),
            ),
          )
      | inr ge ↦ (
        mem,
        va,
        readsection_loop-done (suc rounds) disk va end_va offset mem (ground arith),
        ((omega arith), ((ground arith), ((λ p. ground arith), λ p. refl))),
        ((λ a p q. absurd (omega arith)), λ a p. refl),
      )
    ]

-- The byte at an offset from the start of a partition.
abbrev pub partition_byte : Disk → ℕ → ℕ → ℕ
partition_byte disk lba n = disk (lba + n / sector_size) (n % sector_size)

partition_byte_lem :
    (disk : Disk) (low offset lba i : ℕ)
    → offset % sector_size ≡ low % sector_size
    → disk_byte disk (low - low % sector_size) (offset / sector_size + lba) (low + i)
      ≡ partition_byte disk lba (offset + i)
partition_byte_lem disk low offset lba i h =
    let from = low - low % sector_size in
    let sector : offset / sector_size + lba + (low + i - from) / sector_size
        ≡ lba + (offset + i) / sector_size =
      omega arith in
    let place : (low + i - from) % sector_size ≡ (offset + i) % sector_size = omega arith in
    ap (λ n. disk n ((low + i - from) % sector_size)) sector
    ∙ ap (disk (lba + (offset + i) / sector_size)) place

readsection-start :
    (disk : Disk) (va count offset lba : ℕ) (mem : Memory)
    → va % 0x100_0000 + count ≤ 0xffff_fe00
    → offset / sector_size + lba < 0xf00_0000
    → readsection disk va count offset lba mem
      ≡ readsection_loop max_rounds disk
          (va % 0x100_0000 - va % 0x100_0000 % sector_size)
          (va % 0x100_0000 + count)
          (offset / sector_size + lba)
          mem
unfolding readsection
readsection-start disk va count offset lba mem top sectors =
    let end : add32 (va % 0x100_0000) count ≡ va % 0x100_0000 + count = omega arith in
    let start : add32 (offset / sector_size) lba ≡ offset / sector_size + lba = omega arith in
    rw (readsection, end, start) refl

untouched :
    (low count last a : ℕ)
    → IsLast (low - low % sector_size) (low + count) last
    → (a < low - low % sector_size) ⊎ (low + count + 511 ≤ a)
    → (a < low - low % sector_size) ⊎ (last ≤ a)
untouched low count last a (up, (reach, (near, stop))) (inl p) = inl p
untouched low count last a (up, (reach, (near, stop))) (inr p) =
    elim (Bool-cases (ltb (low - low % sector_size) (low + count))) [
      | inl lt ↦ let h = near (ground arith) in inr (omega arith)
      | inr ge ↦ let h = stop (ground arith) in inr (omega arith)
    ]

-- With an address and an offset that agree within their sectors, and an end that is a sector short
-- of 4G, `readsection` returns: the bytes of the partition from the offset on stand at the address
-- taken within 16M, and but for the rest of the first and of the last sector nothing changes.
pub readsection_lem :
    (disk : Disk) (va count offset lba : ℕ) (mem : Memory)
    → va % 0x100_0000 + count ≤ 0xffff_fe00
    → offset / sector_size + lba < 0xf00_0000
    → offset % sector_size ≡ va % sector_size
    → (mem' : Memory) × (readsection disk va count offset lba mem ≡ some mem')
      × ((i : ℕ) → i < count → mem' (va % 0x100_0000 + i) ≡ partition_byte disk lba (offset + i))
      × ((a : ℕ)
          → (a < va % 0x100_0000 - va % 0x100_0000 % sector_size)
            ⊎ (va % 0x100_0000 + count + 511 ≤ a)
          → mem' a ≡ mem a)
readsection_lem disk va count offset lba mem top sectors aligned =
    let low = va % 0x100_0000 in
    let from = low - low % sector_size in
    let (mem', last, run, ends, (inside, outside)) =
      readsection_loop_lem 0x80_0000 disk from (low + count) (offset / sector_size + lba) mem
        (omega arith) top (omega arith) in
    let reach = ends.1.0 in
    (
      mem',
      readsection-start disk va count offset lba mem top sectors ∙ run,
      (λ i p.
          inside (low + i) (omega arith) (omega arith)
          ∙ partition_byte_lem disk low offset lba i (omega arith)),
      λ a p. outside a (untouched low count last a ends p),
    )
