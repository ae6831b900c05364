-- ===== src/KernLib/Seg.antt =====
-- kern/lib/seg.h and kern/lib/seg.c: the descriptors of the processor's tables, and the table of
-- segments with the task states that seg_init fills.
pub mod Fields
mod Tests
use cs.Prelude.{
  ℕ, zero, suc, ◌+◌, ◌-◌, ◌*◌, ◌/◌, ◌%◌, ◌^◌, Bool, true, false, ◌==◌, ltb, if◌then◌else◌, add32,
  update,
}

-- A descriptor of a segment, by its bit fields.
pub record Segdesc : Type 0 where
  pub sd_lim_15_0 : ℕ
  pub sd_base_15_0 : ℕ
  pub sd_base_23_16 : ℕ
  pub sd_type : ℕ
  pub sd_s : ℕ
  pub sd_dpl : ℕ
  pub sd_p : ℕ
  pub sd_lim_19_16 : ℕ
  pub sd_avl : ℕ
  pub sd_rsv1 : ℕ
  pub sd_db : ℕ
  pub sd_g : ℕ
  pub sd_base_31_24 : ℕ

abbrev pub segdesc_null : Segdesc
segdesc_null = record {
  sd_lim_15_0 = 0;
  sd_base_15_0 = 0;
  sd_base_23_16 = 0;
  sd_type = 0;
  sd_s = 0;
  sd_dpl = 0;
  sd_p = 0;
  sd_lim_19_16 = 0;
  sd_avl = 0;
  sd_rsv1 = 0;
  sd_db = 0;
  sd_g = 0;
  sd_base_31_24 = 0;
}

-- `SEGDESC32`; the fields keep the low bits of what they are given.
abbrev pub segdesc32 : ℕ → ℕ → ℕ → ℕ → Segdesc
segdesc32 type base lim dpl = record {
  sd_lim_15_0 = lim / 2 ^ 12 % 2 ^ 16;
  sd_base_15_0 = base % 2 ^ 16;
  sd_base_23_16 = base / 2 ^ 16 % 2 ^ 8;
  sd_type = type % 2 ^ 4;
  sd_s = 1;
  sd_dpl = dpl % 2 ^ 2;
  sd_p = 1;
  sd_lim_19_16 = lim / 2 ^ 28 % 2 ^ 4;
  sd_avl = 0;
  sd_rsv1 = 0;
  sd_db = 1;
  sd_g = 1;
  sd_base_31_24 = base / 2 ^ 24 % 2 ^ 8;
}

-- `SEGDESC16`.
abbrev pub segdesc16 : ℕ → ℕ → ℕ → ℕ → Segdesc
segdesc16 type base lim dpl = record {
  sd_lim_15_0 = lim % 2 ^ 16;
  sd_base_15_0 = base % 2 ^ 16;
  sd_base_23_16 = base / 2 ^ 16 % 2 ^ 8;
  sd_type = type % 2 ^ 4;
  sd_s = 1;
  sd_dpl = dpl % 2 ^ 2;
  sd_p = 1;
  sd_lim_19_16 = lim / 2 ^ 16 % 2 ^ 4;
  sd_avl = 0;
  sd_rsv1 = 0;
  sd_db = 1;
  sd_g = 0;
  sd_base_31_24 = base / 2 ^ 24 % 2 ^ 8;
}

-- A gate of the interrupt table.
pub record Gatedesc : Type 0 where
  pub gd_off_15_0 : ℕ
  pub gd_ss : ℕ
  pub gd_args : ℕ
  pub gd_rsv1 : ℕ
  pub gd_type : ℕ
  pub gd_s : ℕ
  pub gd_dpl : ℕ
  pub gd_p : ℕ
  pub gd_off_31_16 : ℕ

-- `SETGATE` sets all the fields, so that the gate there was does not matter.
abbrev pub setgate : ℕ → ℕ → ℕ → ℕ → Gatedesc
setgate istrap sel off dpl = record {
  gd_off_15_0 = off % 2 ^ 16;
  gd_ss = sel % 2 ^ 16;
  gd_args = 0;
  gd_rsv1 = 0;
  gd_type = if istrap == 0 then 14 else 15;
  gd_s = 0;
  gd_dpl = dpl % 2 ^ 2;
  gd_p = 1;
  gd_off_31_16 = off / 2 ^ 16 % 2 ^ 16;
}

abbrev pub cpu_gdt_kcode : ℕ
cpu_gdt_kcode = 8

abbrev pub cpu_gdt_kdata : ℕ
cpu_gdt_kdata = 0x10

abbrev pub cpu_gdt_tss : ℕ
cpu_gdt_tss = 0x28

-- `sizeof(tss_t)`: 104 bytes and the 129 of `ts_iopm`, up to a multiple of four.
abbrev pub tss_size : ℕ
tss_size = 236

-- The six assignments to `gdt_LOC`, and the last one to its `sd_s`.
unfoldable pub setup_gdt : ℕ → (ℕ → Segdesc) → ℕ → Segdesc
setup_gdt tss0 gdt =
    let gdt1 : ℕ → Segdesc = update gdt 0 segdesc_null in
    let gdt2 : ℕ → Segdesc = update gdt1 (cpu_gdt_kcode / 8) (segdesc32 10 0 0xffff_ffff 0) in
    let gdt3 : ℕ → Segdesc = update gdt2 (cpu_gdt_kdata / 8) (segdesc32 2 0 0xffff_ffff 0) in
    let gdt4 : ℕ → Segdesc = update gdt3 3 (segdesc32 10 0 0xffff_ffff 3) in
    let gdt5 : ℕ → Segdesc = update gdt4 4 (segdesc32 2 0 0xffff_ffff 3) in
    let gdt6 : ℕ → Segdesc = update gdt5 (cpu_gdt_tss / 8) (segdesc16 9 tss0 (tss_size - 1) 0) in
    update gdt6 (cpu_gdt_tss / 8) (record (gdt6 (cpu_gdt_tss / 8)) { sd_s = 0 })

-- The fields of a task state that seg_init sets.
pub record Tss : Type 0 where
  pub ts_esp0 : ℕ
  pub ts_ss0 : ℕ
  pub ts_iomb : ℕ
  pub ts_iopm : ℕ → ℕ

-- A task state of zeros.
abbrev pub tss_zero : Tss
tss_zero = record { ts_esp0 = 0; ts_ss0 = 0; ts_iomb = 0; ts_iopm = λ i. 0 }

-- `memzero` on the first 128 bytes of a bit map.
abbrev pub clear_iopm : (ℕ → ℕ) → ℕ → ℕ
clear_iopm iopm i = if ltb i 128 then 0 else iopm i

-- A round of the loop over the task states; the bit map stands at 104.
abbrev pub init_tss : ℕ → ℕ → Tss → Tss
init_tss stack_loc pid tss = record tss {
  ts_esp0 = add32 (add32 stack_loc (4096 * pid)) 4096;
  ts_ss0 = cpu_gdt_kdata;
  ts_iomb = 104;
  ts_iopm = update (clear_iopm tss.ts_iopm) 128 0xff;
}

-- The loop, with the rounds left.
unfoldable pub tss_loop : ℕ → ℕ → ℕ → (ℕ → Tss) → ℕ → Tss
tss_loop zero stack_loc pid tss = tss
tss_loop (suc left) stack_loc pid tss =
    tss_loop left stack_loc (pid + 1) (update tss pid (init_tss stack_loc pid (tss pid)))

pub record SegState : Type 0 where
  pub gdt_loc : ℕ → Segdesc
  pub tss0 : Tss
  pub tss_loc : ℕ → Tss

-- The tables that seg_init leaves, from the addresses of the bootstrap task state, of the kernel's
-- stack and of the stacks of the processes. The bootstrap task state lies in the cleared memory.
unfoldable pub seg_init : ℕ → ℕ → ℕ → SegState → SegState
seg_init tss0_addr bsp_kstack stack_loc s = record {
  gdt_loc = setup_gdt tss0_addr s.gdt_loc;
  tss0 = record tss_zero { ts_esp0 = add32 bsp_kstack 4096; ts_ss0 = cpu_gdt_kdata };
  tss_loc = tss_loop 64 stack_loc 0 (λ pid. tss_zero);
}
