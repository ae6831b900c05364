-- ===== src/Boot/Disk.antt =====
-- The disk functions of boot/boot1/boot1lib.c. The disk is an argument: the byte at a place of a
-- sector. The controller reads the sector whose number stands in its registers, as its standard
-- says; the wait for it is left aside.
pub mod Section
use cs.Prelude.{
  ℕ, zero, suc, ◌+◌, ◌-◌, ◌*◌, ◌/◌, ◌%◌, Bool, true, false, ◌&&◌, Option, none, some, List, [], ◌∷◌,
  ltb, leb, if◌then◌else◌, add32,
}
use Prim.Native.Nat.{bit_or}
use cs.KernLib.Str.{Memory}

abbrev pub Disk : Type 0
Disk = ℕ → ℕ → ℕ

abbrev pub sector_size : ℕ
sector_size = 512

-- The bytes that go to the registers 0x1F3 to 0x1F6.
abbrev pub lba_bytes : ℕ → ℕ × ℕ × ℕ × ℕ
lba_bytes offset =
    (offset % 256, offset / 256 % 256, offset / 65536 % 256, bit_or (offset / 16777216 % 256) 0xE0)

-- The sector number in the registers: four bits of the last are the mode.
abbrev pub lba28 : ℕ × ℕ × ℕ × ℕ → ℕ
lba28 (r3, r4, r5, r6) = r3 + 256 * r4 + 65536 * r5 + 16777216 * (r6 % 16)

unfoldable pub readsector : Disk → ℕ → ℕ → Memory → Memory
readsector disk dst offset mem a =
    if leb dst a && ltb a (dst + sector_size)
    then disk (lba28 (lba_bytes offset)) (a - dst)
    else mem a

-- The loop of `readsection`; `none` is a loop that has not ended behind the rounds given.
unfoldable pub readsection_loop : ℕ → Disk → ℕ → ℕ → ℕ → Memory → Option Memory
readsection_loop zero disk va end_va offset mem = none
readsection_loop (suc rounds) disk va end_va offset mem = elim (ltb va end_va) [
  | true ↦
      readsection_loop rounds disk (add32 va sector_size) end_va (add32 offset 1)
        (readsector disk va offset mem)
  | false ↦ some mem
]

-- More rounds than sectors fit in 32 bits of address.
abbrev pub max_rounds : ℕ
max_rounds = 0x80_0001

unfoldable pub readsection : Disk → ℕ → ℕ → ℕ → ℕ → Memory → Option Memory
readsection disk va count offset lba mem =
    let low = va % 0x100_0000 in
    readsection_loop max_rounds disk (low - low % sector_size) (add32 low count)
      (add32 (offset / sector_size) lba) mem
