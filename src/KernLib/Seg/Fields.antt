-- ===== src/KernLib/Seg/Fields.antt =====
-- How the processor reads a descriptor's fields, and what it finds in the tables.
use cs.Prelude.{
  ℕ, zero, suc, ◌+◌, ◌*◌, ◌/◌, ◌%◌, ◌^◌, ◌<◌, ◌≤◌, ◌≡◌, ◌∙◌, refl, ap, inl, inr, ◌==◌,
  if◌then◌else◌, update, update-same, update-other, arith, Bool-cases,
}
use cs.KernLib.Seg.{
  Segdesc, segdesc32, segdesc16, Gatedesc, setgate, setup_gdt, Tss, init_tss, tss_zero, tss_loop,
  seg_init, SegState, cpu_gdt_kdata,
}

abbrev pub segment_base : Segdesc → ℕ
segment_base d = d.sd_base_15_0 + 2 ^ 16 * d.sd_base_23_16 + 2 ^ 24 * d.sd_base_31_24

-- The last offset: the limit counts pages of 4096 bytes when the granularity is set.
abbrev pub segment_limit : Segdesc → ℕ
segment_limit d =
    let limit = d.sd_lim_15_0 + 2 ^ 16 * d.sd_lim_19_16 in
    if d.sd_g == 1 then limit * 4096 + 4095 else limit

abbrev pub gate_offset : Gatedesc → ℕ
gate_offset g = g.gd_off_15_0 + 2 ^ 16 * g.gd_off_31_16

base-segdesc :
    (base : ℕ)
    → base < 2 ^ 32
    → base % 2 ^ 16 + 2 ^ 16 * (base / 2 ^ 16 % 2 ^ 8) + 2 ^ 24 * (base / 2 ^ 24 % 2 ^ 8) ≡ base
base-segdesc base h = omega arith

-- The processor reads the base of a 32-bit segment as it was given, and its limit up to the end of a
-- page of 4096 bytes; the base of a 16-bit segment as it was given, and the low 20 bits of its limit.
pub segment-segdesc :
    (type base lim dpl : ℕ)
    → base < 2 ^ 32
    → lim < 2 ^ 32
    → (segment_base (segdesc32 type base lim dpl) ≡ base)
      × ((segment_limit (segdesc32 type base lim dpl) ≡ lim / 4096 * 4096 + 4095)
          × ((segment_base (segdesc16 type base lim dpl) ≡ base)
              × (segment_limit (segdesc16 type base lim dpl) ≡ lim % 2 ^ 20)))
segment-segdesc type base lim dpl b l =
    (base-segdesc base b, ((omega arith), (base-segdesc base b, omega arith)))

pub gate_offset-setgate :
    (istrap sel off dpl : ℕ) → off < 2 ^ 32 → gate_offset (setgate istrap sel off dpl) ≡ off
gate_offset-setgate istrap sel off dpl h = omega arith

tss_loop-before :
    (left stack_loc pid : ℕ) (tss : ℕ → Tss) (i : ℕ)
    → i < pid
    → tss_loop left stack_loc pid tss i ≡ tss i
unfolding tss_loop
tss_loop-before zero stack_loc pid tss i h = refl
tss_loop-before (suc left) stack_loc pid tss i h =
    tss_loop-before left stack_loc (pid + 1) (update tss pid (init_tss stack_loc pid (tss pid))) i
      (omega arith)
    ∙ update-other tss pid i (init_tss stack_loc pid (tss pid)) (omega arith)

tss_loop_lem :
    (left stack_loc pid : ℕ) (tss : ℕ → Tss) (i : ℕ)
    → pid ≤ i
    → i < pid + left
    → tss_loop left stack_loc pid tss i ≡ init_tss stack_loc i (tss i)
unfolding tss_loop
tss_loop_lem zero stack_loc pid tss i l h = absurd (omega arith)
tss_loop_lem (suc left) stack_loc pid tss i l h =
    let next : ℕ → Tss = update tss pid (init_tss stack_loc pid (tss pid)) in
    elim (Bool-cases (i == pid)) [
      | inl here ↦
          tss_loop-before left stack_loc (pid + 1) next i (ground arith)
          ∙ update-same tss pid i (init_tss stack_loc pid (tss pid)) (ground arith)
          ∙ ap (λ j. init_tss stack_loc j (tss j)) (ground arith)
      | inr later ↦
          tss_loop_lem left stack_loc (pid + 1) next i (ground arith) (omega arith)
          ∙ ap (init_tss stack_loc i)
              (update-other tss pid i (init_tss stack_loc pid (tss pid)) (ground arith))
    ]

-- What a flat segment of 4G is, with its privilege.
abbrev pub IsFlat : ℕ → Segdesc → Type 0
IsFlat dpl d =
    (segment_base d ≡ 0) × ((segment_limit d ≡ 0xffff_ffff) × ((d.sd_dpl ≡ dpl) × (d.sd_p ≡ 1)))

-- The null entry is absent, the segments of the kernel and of users are flat, and the last entry is
-- a system descriptor of a task state.
abbrev pub IsGdt : ℕ → (ℕ → Segdesc) → Type 0
IsGdt tss0_addr gdt =
    ((gdt 0).sd_p ≡ 0)
    × (IsFlat 0 (gdt 1)
        × (IsFlat 0 (gdt 2)
            × (IsFlat 3 (gdt 3)
                × (IsFlat 3 (gdt 4)
                    × ((segment_base (gdt 5) ≡ tss0_addr)
                        × ((segment_limit (gdt 5) ≡ 235)
                            × (((gdt 5).sd_s ≡ 0) × ((gdt 5).sd_dpl ≡ 0))))))))

-- The kernel's stack of a process is the page from `stack_loc + 4096 * pid`, and it starts at its end.
abbrev pub HasStack : ℕ → ℕ → Tss → Type 0
HasStack stack_loc pid tss =
    (tss.ts_esp0 ≡ stack_loc + 4096 * pid + 4096) × (tss.ts_ss0 ≡ cpu_gdt_kdata)

setup_gdt-IsGdt :
    (tss0_addr : ℕ) (gdt : ℕ → Segdesc)
    → tss0_addr < 2 ^ 32
    → IsGdt tss0_addr (setup_gdt tss0_addr gdt)
unfolding setup_gdt
setup_gdt-IsGdt tss0_addr gdt h = (
  refl,
  (
    (refl, (refl, (refl, refl))),
    (
      (refl, (refl, (refl, refl))),
      (
        (refl, (refl, (refl, refl))),
        ((refl, (refl, (refl, refl))), (base-segdesc tss0_addr h, (refl, (refl, refl)))),
      ),
    ),
  ),
)

-- With addresses of 32 bits: after seg_init the code and data segments of the kernel are flat with
-- privilege 0, and those of users with privilege 3; the null entry is absent; the task state's entry
-- is a system descriptor of privilege 0 with its address and the limit 235; and the task state of
-- each of the 64 processes has the end of the process's own stack, in the kernel's data segment.
pub seg_init_lem :
    (tss0_addr bsp_kstack stack_loc : ℕ) (s : SegState) (pid : ℕ)
    → tss0_addr < 2 ^ 32
    → pid < 64
    → stack_loc + 4096 * 64 < 2 ^ 32
    → IsGdt tss0_addr (seg_init tss0_addr bsp_kstack stack_loc s).gdt_loc
      × HasStack stack_loc pid ((seg_init tss0_addr bsp_kstack stack_loc s).tss_loc pid)
unfolding seg_init
seg_init_lem tss0_addr bsp_kstack stack_loc s pid h low no_wrap =
    let task = tss_loop_lem 64 stack_loc 0 (λ i. tss_zero) pid (omega arith) low in
    (
      setup_gdt-IsGdt tss0_addr s.gdt_loc h,
      (ap (λ t. t.ts_esp0) task ∙ omega arith, ap (λ t. t.ts_ss0) task),
    )
