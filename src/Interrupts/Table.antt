-- ===== src/Interrupts/Table.antt =====
-- What `interrupts_init` of src/interrupts.c leaves in the table, the processor and the controllers.
use valern.Prelude.{
  ℕ, zero, suc, ◌+◌, ◌*◌, ◌<◌, ◌≤◌, ◌^◌, ◌≡◌, ◌≢◌, refl, ap, ◌∙◌, arith, List, [], ◌∷◌, get_or,
  length, length-set, get_or-set_self, get_or-set_ne, true, some, ◌-◌, sym,
}
use valern.Port.{Io, Event, read, write, inb, outb}
use valern.Interrupts.{
  IdtEntry, Interrupts, gate, idt_set_gate, clear_idt, pic_init, interrupts_init, idt_size,
}
use valern.Keyboard.Driver.Init.{writes}
use native.Mathlib.Decide.{ℕ_discrete}

-- The address that the processor takes from a gate.
abbrev pub handler_of : IdtEntry → ℕ
handler_of e = e.offset_low + e.offset_mid * 2 ^ 16 + e.offset_high * 2 ^ 32

-- A gate that is not present: the top bit of `type_attr` is clear.
abbrev pub IsAbsent : IdtEntry → Type 0
IsAbsent e = e.type_attr < 0x80

abbrev pub entry_at : List IdtEntry → ℕ → IdtEntry
entry_at idt n = get_or idt n (gate 0 0 0)

handler_of-gate :
    (handler selector flags : ℕ)
    → handler < 2 ^ 64
    → handler_of (gate handler selector flags) ≡ handler
unfolding gate
handler_of-gate handler selector flags h = omega arith

length-clear_idt : (left i : ℕ) (idt : List IdtEntry) → length (clear_idt left i idt) ≡ length idt
unfolding clear_idt idt_set_gate
length-clear_idt zero i idt = refl
length-clear_idt (suc left) i idt =
    length-clear_idt left (i + 1) (idt_set_gate i 0 0 0 idt) ∙ length-set idt i (gate 0 0 0)

-- Behind the loop nothing changes, and what it passes is cleared.
clear_idt-before :
    (left i n : ℕ) (idt : List IdtEntry)
    → n < i
    → entry_at (clear_idt left i idt) n ≡ entry_at idt n
unfolding clear_idt idt_set_gate
clear_idt-before zero i n idt h = refl
clear_idt-before (suc left) i n idt h =
    clear_idt-before left (i + 1) n (idt_set_gate i 0 0 0 idt) (omega arith)
    ∙ get_or-set_ne idt i n (gate 0 0 0) (gate 0 0 0) (omega arith)

clear_idt-inside :
    (left i n : ℕ) (idt : List IdtEntry)
    → i ≤ n
    → n < i + left
    → i + left ≤ length idt
    → entry_at (clear_idt left i idt) n ≡ gate 0 0 0
unfolding clear_idt idt_set_gate
clear_idt-inside zero i n idt a b c = absurd (omega arith)
clear_idt-inside (suc left) i n idt a b c = elim (ℕ_discrete i n) [
  | yes same ↦
      clear_idt-before left (i + 1) n (idt_set_gate i 0 0 0 idt) (omega arith)
      ∙ rw (← same) (get_or-set_self idt i (gate 0 0 0) (gate 0 0 0) (omega arith))
  | no other ↦
      clear_idt-inside left (i + 1) n (idt_set_gate i 0 0 0 idt) (omega arith) (omega arith)
        (omega (arith, length-set idt i (gate 0 0 0)))
]

-- With the table's 256 entries, a handler address of 64 bits and two answers for the mask reads,
-- `interrupts_init` ends. Vector 0x21 then has the keyboard stub's full address behind selector 8, as
-- a present interrupt gate, and no other vector is present; the processor has the whole table loaded
-- and takes interrupts. The first controller was told to begin at vector 0x20 and to pass only its
-- line 1, whose vector is that gate; the second to begin at 0x28 and to pass none.
pub interrupts_init_lem :
    (stub address a1 a2 : ℕ) (rest : List ℕ) (s : Interrupts)
    → stub < 2 ^ 64
    → length s.idt ≡ 256
    → (s' : Interrupts) × (io' : Io) × (interrupts_init stub address s
          (record { inputs = a1 ∷ a2 ∷ rest; trace = [] })
        ≡ some (s', io'))
      × (handler_of (entry_at s'.idt 0x21) ≡ stub)
      × ((entry_at s'.idt 0x21).selector ≡ 0x08)
      × ((entry_at s'.idt 0x21).type_attr ≡ 0x8E)
      × ((n : ℕ) → n < 256 → n ≢ 0x21 → IsAbsent (entry_at s'.idt n))
      × (s'.loaded_idtr ≡ some (record { limit = length s'.idt * 16 - 1; base = address }))
      × (s'.enabled ≡ true)
      × (writes io'.trace
          ≡ (0x20, 0x11)
            ∷ (0x21, 0x20)
            ∷ (0x21, 0x04)
            ∷ (0x21, 0x01)
            ∷ (0xA0, 0x11)
            ∷ (0xA1, 0x28)
            ∷ (0xA1, 0x02)
            ∷ (0xA1, 0x01)
            ∷ (0x21, 0xFD)
            ∷ (0xA1, 0xFF)
            ∷ [])
interrupts_init_lem stub address a1 a2 rest s h l = (
  record {
    idt = filled;
    idtr = record { limit = idt_size - 1; base = address };
    loaded_idtr = some (record { limit = idt_size - 1; base = address });
    enabled = true;
  },
  record { inputs = rest; trace = log },
  unfold interrupts_init pic_init inb outb in refl,
  ap handler_of at ∙ handler_of-gate stub 0x08 0x8E h,
  ap (λ (e : IdtEntry). e.selector) at ∙ unfold gate in refl,
  ap (λ (e : IdtEntry). e.type_attr) at ∙ unfold gate in refl,
  λ n small other. rw (absent n small other) (unfold gate in omega arith),
  ap (λ (k : ℕ). some (record { limit = k * 16 - 1; base = address })) (sym full),
  refl,
  refl,
)
  where
    cleared : List IdtEntry
    cleared = clear_idt 256 0 s.idt

    filled : List IdtEntry
    filled = idt_set_gate 0x21 stub 0x08 0x8E cleared

    log : List Event
    log =
        write 0xA1 0xFF
        ∷ write 0x21 0xFD
        ∷ write 0xA1 0x01
        ∷ write 0xA1 0x02
        ∷ write 0xA1 0x28
        ∷ write 0xA0 0x11
        ∷ write 0x21 0x01
        ∷ write 0x21 0x04
        ∷ write 0x21 0x20
        ∷ write 0x20 0x11
        ∷ read 0xA1 a2
        ∷ read 0x21 a1
        ∷ []

    size : length cleared ≡ 256
    size = length-clear_idt 256 0 s.idt ∙ l

    full : length filled ≡ 256
    full = unfold idt_set_gate in length-set cleared 0x21 (gate stub 0x08 0x8E) ∙ size

    at : entry_at filled 0x21 ≡ gate stub 0x08 0x8E
    at =
        unfold idt_set_gate in
        get_or-set_self cleared 0x21 (gate stub 0x08 0x8E) (gate 0 0 0) (omega (arith, size))

    absent : (n : ℕ) → n < 256 → n ≢ 0x21 → entry_at filled n ≡ gate 0 0 0
    absent n small other =
        unfold idt_set_gate in
        get_or-set_ne cleared 0x21 n (gate stub 0x08 0x8E) (gate 0 0 0) (λ e. other (sym e))
        ∙ clear_idt-inside 256 0 n s.idt (omega arith) (omega arith) (omega (arith, l))
