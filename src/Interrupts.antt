-- ===== src/Interrupts.antt =====
-- src/interrupts.c: the interrupt descriptor table, the interrupt controllers, and the keyboard's
-- service routine with its assembly stub. `x & (2^k - 1)` is written `x % 2 ^ k`, and `x >> k` is
-- written `x / 2 ^ k`. The addresses of the stub and of the table are the linker's.
pub mod Table
pub mod Service
pub mod Stub
pub mod Raced
pub mod Tests
use valern.Prelude.{ℕ, zero, suc, ◌+◌, ◌-◌, ◌/◌, ◌%◌, ◌^◌, Bool, true, List, Option, some, set}
use valern.Port.{M, pure, ◌>>=◌, ◌>>◌, inb, outb}
use valern.Keyboard.Driver.{Keyboard, keyboard_interrupt_handler}

pub record IdtEntry : Type 0 where
  pub offset_low : ℕ
  pub selector : ℕ
  pub ist : ℕ
  pub type_attr : ℕ
  pub offset_mid : ℕ
  pub offset_high : ℕ
  pub reserved : ℕ

pub record IdtPtr : Type 0 where
  pub limit : ℕ
  pub base : ℕ

-- The static `idt` and `idtr`, and the processor: what `lidt` has loaded, and the interrupt flag.
pub record Interrupts : Type 0 where
  pub idt : List IdtEntry
  pub idtr : IdtPtr
  pub loaded_idtr : Option IdtPtr
  pub enabled : Bool

abbrev pub pic1_command : ℕ
pic1_command = 0x20

abbrev pub pic1_data : ℕ
pic1_data = 0x21

abbrev pub pic2_command : ℕ
pic2_command = 0xA0

abbrev pub pic2_data : ℕ
pic2_data = 0xA1

unfoldable pub gate : ℕ → ℕ → ℕ → IdtEntry
gate handler selector flags = record {
  offset_low = handler % 2 ^ 16;
  offset_mid = handler / 2 ^ 16 % 2 ^ 16;
  offset_high = handler / 2 ^ 32 % 2 ^ 32;
  selector = selector;
  ist = 0;
  type_attr = flags;
  reserved = 0;
}

unfoldable pub idt_set_gate : ℕ → ℕ → ℕ → ℕ → List IdtEntry → List IdtEntry
idt_set_gate num handler selector flags idt = set idt num (gate handler selector flags)

-- `for (i = 0; i < 256; i++) idt_set_gate(i, 0, 0, 0);` from `i` on, with `left` rounds to go.
unfoldable pub clear_idt : ℕ → ℕ → List IdtEntry → List IdtEntry
clear_idt zero i idt = idt
clear_idt (suc left) i idt = clear_idt left (i + 1) (idt_set_gate i 0 0 0 idt)

-- The two masks are read and not used again.
unfoldable pub pic_init : M (Unit {0})
pic_init = do
  a1 ← inb pic1_data
  a2 ← inb pic2_data
  outb pic1_command 0x11
  outb pic1_data 0x20
  outb pic1_data 0x04
  outb pic1_data 0x01
  outb pic2_command 0x11
  outb pic2_data 0x28
  outb pic2_data 0x02
  outb pic2_data 0x01
  outb pic1_data 0xFD
  outb pic2_data 0xFF

-- `sizeof(idt)`: 256 packed entries of 16 bytes.
abbrev pub idt_size : ℕ
idt_size = 4096

unfoldable pub interrupts_init : ℕ → ℕ → Interrupts → M Interrupts
interrupts_init keyboard_interrupt_stub idt_address s =
    let cleared = clear_idt 256 0 s.idt in
    let filled = idt_set_gate 0x21 keyboard_interrupt_stub 0x08 0x8E cleared in
    let pointer : IdtPtr = record { limit = idt_size - 1; base = idt_address } in
    do
      pic_init
      pure (record { idt = filled; idtr = pointer; loaded_idtr = some pointer; enabled = true })

unfoldable pub keyboard_isr : Keyboard → M Keyboard
keyboard_isr kb = do kb' ← keyboard_interrupt_handler kb; outb pic1_command 0x20; pure kb'
