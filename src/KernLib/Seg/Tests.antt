-- ===== src/KernLib/Seg/Tests.antt =====
-- The tables of segments at concrete addresses.
use cs.Prelude.{◌≡◌, arith}
use cs.KernLib.Seg.{segdesc32, segdesc16, segdesc_null, tss_zero, SegState, seg_init}
use cs.KernLib.Seg.Fields.{
  segment_base, segment_limit, IsGdt, HasStack, segment-segdesc, seg_init_lem,
}

segment-segdesc_example :
    (segment_base (segdesc32 10 0x1234_5678 0xffff_ffff 3) ≡ 0x1234_5678)
    × ((segment_limit (segdesc32 10 0x1234_5678 0xffff_ffff 3) ≡ 0xffff_ffff)
        × ((segment_base (segdesc16 10 0x1234_5678 0xffff_ffff 3) ≡ 0x1234_5678)
            × (segment_limit (segdesc16 10 0x1234_5678 0xffff_ffff 3) ≡ 0xf_ffff)))
segment-segdesc_example = segment-segdesc 10 0x1234_5678 0xffff_ffff 3 (omega arith) (omega arith)

abbrev seg_state : SegState
seg_state = record { gdt_loc = λ i. segdesc_null; tss0 = tss_zero; tss_loc = λ i. tss_zero }

seg_init_lem_example :
    IsGdt 0x12_3456 (seg_init 0x12_3456 0x13_0000 0x14_0000 seg_state).gdt_loc
    × HasStack 0x14_0000 5 ((seg_init 0x12_3456 0x13_0000 0x14_0000 seg_state).tss_loc 5)
seg_init_lem_example =
    seg_init_lem 0x12_3456 0x13_0000 0x14_0000 seg_state 5 (omega arith) (omega arith) (omega arith)
