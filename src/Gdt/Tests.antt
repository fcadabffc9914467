-- ===== src/Gdt/Tests.antt =====
-- src/gdt.c at concrete inputs.
use valern.Prelude.{◌≡◌, ◌↔◌, refl, arith, [], ◌^◌, ◌+◌, ◌/◌, ◌%◌, ◌<◌, none}
use valern.Gdt.{
  GdtEntry, Segments, gdt_init_tss, zero_tss, gdt_set_gate, gdt_get_tss_segment, tss_high_entry,
  get_tss,
}
use valern.Gdt.Descriptor.{
  base_of, limit_of, system_base_of, gdt_set_gate_lem, gdt_init_tss_base_iff,
}

abbrev empty_entry : GdtEntry
empty_entry = record {
  limit_low = 0;
  base_low = 0;
  base_middle = 0;
  access = 0;
  granularity = 0;
  base_high = 0;
}

abbrev pub loaded : Segments
loaded = record {
  tss = zero_tss;
  current_gdt = none;
  table = record { existing = []; tss_low = empty_entry; tss_high = empty_entry };
  gdtr = record { limit = 39; base = 0x1000 };
  task_register = 0;
}

-- Where linker.ld puts the kernel, the processor is sent elsewhere.
high_half_runs :
    let s = gdt_init_tss 0xFFFF_FFFF_8000_4000 loaded in
    system_base_of s.table.tss_low s.table.tss_high ≡ 0xFFFF_0000_8000_4000
unfolding gdt_init_tss gdt_set_gate tss_high_entry
high_half_runs = refl

gdt_set_gate_example :
    (base_of (gdt_set_gate 0x1234_5678 0xF_FFFF 0x9A 0xAF) ≡ 0x1234_5678)
    × (limit_of (gdt_set_gate 0x1234_5678 0xF_FFFF 0x9A 0xAF) ≡ 0xF_FFFF)
    × ((gdt_set_gate 0x1234_5678 0xF_FFFF 0x9A 0xAF).access ≡ 0x9A)
    × ((gdt_set_gate 0x1234_5678 0xF_FFFF 0x9A 0xAF).granularity / 16 ≡ 0xAF / 16 % 16)
gdt_set_gate_example = gdt_set_gate_lem 0x1234_5678 0xF_FFFF 0x9A 0xAF (omega arith) (omega arith)

gdt_init_tss_example :
    let s' = gdt_init_tss 0xFFFF_FFFF_8000_4000 loaded in
    (s'.task_register ≡ gdt_get_tss_segment)
    × (s'.task_register + 15 ≡ s'.gdtr.limit)
    × ((get_tss s').iopb_offset ≡ limit_of s'.table.tss_low + 1)
    × ((system_base_of s'.table.tss_low s'.table.tss_high ≡ 0xFFFF_FFFF_8000_4000)
        ↔ (0xFFFF_FFFF_8000_4000 < 2 ^ 32))
gdt_init_tss_example = gdt_init_tss_base_iff 0xFFFF_FFFF_8000_4000 loaded (omega arith)
