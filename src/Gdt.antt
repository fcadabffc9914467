-- ===== src/Gdt.antt =====
-- src/gdt.c and src/include/gdt.h: the task state segment, its descriptor in the table that the
-- bootloader left, and the selectors. `x & (2^k - 1)` is written `x % 2 ^ k`, and `x >> k` is
-- written `x / 2 ^ k`. `sgdt`, `lgdt` and `ltr` read and write the fields `gdtr` and
-- `task_register`; the table is the memory at `gdtr.base`.
pub mod Descriptor
pub mod Tests
use valern.Prelude.{ℕ, ◌-◌, ◌*◌, ◌/◌, ◌%◌, ◌^◌, bit_or, List, Option, none, some, replicate}

pub record Tss : Type 0 where
  pub reserved0 : ℕ
  pub rsp0 : ℕ
  pub rsp1 : ℕ
  pub rsp2 : ℕ
  pub reserved1 : ℕ
  pub ist : List ℕ
  pub reserved2 : ℕ
  pub reserved3 : ℕ
  pub iopb_offset : ℕ

-- `sizeof(struct TSS)`, which is packed.
abbrev pub tss_size : ℕ
tss_size = 104

pub record GdtEntry : Type 0 where
  pub limit_low : ℕ
  pub base_low : ℕ
  pub base_middle : ℕ
  pub access : ℕ
  pub granularity : ℕ
  pub base_high : ℕ

pub record GdtPtr : Type 0 where
  pub limit : ℕ
  pub base : ℕ

pub record ExtendedGdt : Type 0 where
  pub existing : List GdtEntry
  pub tss_low : GdtEntry
  pub tss_high : GdtEntry

-- `sizeof(struct ExtendedGDT)`: seven packed entries of eight bytes.
abbrev pub extended_gdt_size : ℕ
extended_gdt_size = 56

-- The file's static variables, the table, and the processor's two registers.
pub record Segments : Type 0 where
  pub tss : Tss
  pub current_gdt : Option ℕ
  pub table : ExtendedGdt
  pub gdtr : GdtPtr
  pub task_register : ℕ

abbrev pub gdt_present : ℕ
gdt_present = 0x80

abbrev pub gdt_tss : ℕ
gdt_tss = 0x89

-- The assignments cover every field of the entry.
unfoldable pub gdt_set_gate : ℕ → ℕ → ℕ → ℕ → GdtEntry
gdt_set_gate base limit access gran = record {
  base_low = base % 2 ^ 16;
  base_middle = base / 2 ^ 16 % 2 ^ 8;
  base_high = base / 2 ^ 24 % 2 ^ 8;
  limit_low = limit % 2 ^ 16;
  granularity = bit_or (limit / 2 ^ 16 % 2 ^ 4) (gran / 2 ^ 4 % 2 ^ 4 * 2 ^ 4);
  access = access;
}

unfoldable pub get_current_gdt_base : Segments → ℕ
get_current_gdt_base s = s.gdtr.base

abbrev pub zero_tss : Tss
zero_tss = record {
  reserved0 = 0;
  rsp0 = 0;
  rsp1 = 0;
  rsp2 = 0;
  reserved1 = 0;
  ist = replicate 7 0;
  reserved2 = 0;
  reserved3 = 0;
  iopb_offset = 0;
}

-- The entry above the descriptor, with the upper half of the address.
unfoldable pub tss_high_entry : ℕ → GdtEntry
tss_high_entry tss_base = record {
  base_low = tss_base / 2 ^ 32 % 2 ^ 16;
  base_middle = tss_base / 2 ^ 48 % 2 ^ 8;
  base_high = tss_base / 2 ^ 56 % 2 ^ 8;
  access = 0;
  granularity = 0;
  limit_low = 0;
}

-- `tss_base` is the address of `tss`, which the linker chooses.
unfoldable pub gdt_init_tss : ℕ → Segments → Segments
gdt_init_tss tss_base s = record s {
  current_gdt = some (get_current_gdt_base s);
  tss = record zero_tss { iopb_offset = tss_size };
  table = record {
    existing = s.table.existing;
    tss_low = gdt_set_gate (tss_base % 2 ^ 32) (tss_size - 1) (bit_or gdt_present gdt_tss) 0x0;
    tss_high = tss_high_entry tss_base;
  };
  gdtr = record { limit = extended_gdt_size - 1; base = s.gdtr.base };
  task_register = 0x28;
}

unfoldable pub tss_set_kernel_stack : ℕ → Segments → Segments
tss_set_kernel_stack stack_top s =
    let old = s.tss in record s { tss = record old { rsp0 = stack_top } }

unfoldable pub get_tss : Segments → Tss
get_tss s = s.tss

unfoldable pub gdt_get_code_segment : ℕ
gdt_get_code_segment = 0x08

unfoldable pub gdt_get_data_segment : ℕ
gdt_get_data_segment = 0x10

unfoldable pub gdt_get_user_code_segment : ℕ
gdt_get_user_code_segment = 0x18

unfoldable pub gdt_get_user_data_segment : ℕ
gdt_get_user_data_segment = 0x20

unfoldable pub gdt_get_tss_segment : ℕ
gdt_get_tss_segment = 0x28
