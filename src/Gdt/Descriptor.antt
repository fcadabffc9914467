-- ===== src/Gdt/Descriptor.antt =====
-- The descriptors of src/gdt.c as the processor reads them (AMD64 Architecture Programmer's Manual,
-- volume 2, section 4.8).
use valern.Prelude.{
  ℕ, ◌+◌, ◌*◌, ◌/◌, ◌%◌, ◌^◌, ◌<◌, ◌≡◌, ◌↔◌, refl, arith, bit_or, true, ◌==◌, ==_iff, passes_below,
  passes_below-apply, ap₂, ◌∙◌,
}
use valern.Gdt.{
  GdtEntry, Segments, gdt_set_gate, gdt_init_tss, tss_high_entry, get_tss, gdt_get_tss_segment,
}

-- The 32-bit base and the 20-bit limit of an entry.
abbrev pub base_of : GdtEntry → ℕ
base_of e = e.base_low + e.base_middle * 2 ^ 16 + e.base_high * 2 ^ 24

abbrev pub limit_of : GdtEntry → ℕ
limit_of e = e.limit_low + e.granularity % 2 ^ 4 * 2 ^ 16

-- A system descriptor of long mode is two entries long: the upper half of the base is in the first
-- four bytes of the second, which an entry calls `limit_low` and `base_low`.
abbrev pub system_base_of : GdtEntry → GdtEntry → ℕ
system_base_of low high = base_of low + (high.limit_low + high.base_low * 2 ^ 16) * 2 ^ 32

fields_table : passes_below (λ v. bit_or (v % 16) (v / 16 * 16) == v) 256 ≡ true
unfolding passes_below
fields_table = refl

bit_or_fields : (hi lo : ℕ) → hi < 16 → lo < 16 → bit_or lo (hi * 16) ≡ hi * 16 + lo
bit_or_fields hi lo h l =
    let at = (==_iff _ _).0 (passes_below-apply 256 (hi * 16 + lo) _ (omega arith) fields_table) in
    ap₂ bit_or (omega arith) (omega arith) ∙ at

-- An entry holds a 32-bit base and a 20-bit limit in full, the access byte, and the high half of the
-- flags byte.
pub gdt_set_gate_lem :
    (base limit access gran : ℕ)
    → base < 2 ^ 32
    → limit < 2 ^ 20
    → (base_of (gdt_set_gate base limit access gran) ≡ base)
      × (limit_of (gdt_set_gate base limit access gran) ≡ limit)
      × ((gdt_set_gate base limit access gran).access ≡ access)
      × ((gdt_set_gate base limit access gran).granularity / 16 ≡ gran / 16 % 16)
unfolding gdt_set_gate
gdt_set_gate_lem base limit access gran b l =
    let flags = bit_or_fields (gran / 16 % 16) (limit / 2 ^ 16 % 16) (omega arith) (omega arith) in
    (omega arith, omega (arith, flags), refl, omega (arith, flags))

-- After `gdt_init_tss` the task register selects the entry that was written and the table's limit
-- covers it; the segment has no permission bitmap; and the processor finds the segment at its
-- address exactly if that address is below 2 ^ 32.
pub gdt_init_tss_base_iff :
    (tss_base : ℕ) (s : Segments)
    → tss_base < 2 ^ 64
    → let s' = gdt_init_tss tss_base s in
      (s'.task_register ≡ gdt_get_tss_segment)
      × (s'.task_register + 15 ≡ s'.gdtr.limit)
      × ((get_tss s').iopb_offset ≡ limit_of s'.table.tss_low + 1)
      × ((system_base_of s'.table.tss_low s'.table.tss_high ≡ tss_base) ↔ (tss_base < 2 ^ 32))
unfolding gdt_init_tss gdt_get_tss_segment get_tss tss_high_entry
gdt_init_tss_base_iff b s h =
    let low = gdt_set_gate_lem (b % 2 ^ 32) 103 0x89 0 (omega arith) (omega arith) in
    (
      refl,
      omega arith,
      omega (arith, low.1),
      (λ e. halves (low.0) e, λ small. together low.0 small),
    )
  where
    halves :
        base_of (gdt_set_gate (b % 2 ^ 32) 103 0x89 0) ≡ b % 2 ^ 32
        → system_base_of (gdt_set_gate (b % 2 ^ 32) 103 0x89 0) (tss_high_entry b) ≡ b
        → b < 2 ^ 32
    halves l e = omega arith

    together :
        base_of (gdt_set_gate (b % 2 ^ 32) 103 0x89 0) ≡ b % 2 ^ 32
        → b < 2 ^ 32
        → system_base_of (gdt_set_gate (b % 2 ^ 32) 103 0x89 0) (tss_high_entry b) ≡ b
    together l small = omega arith
