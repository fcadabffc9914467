-- ===== src/Interrupts/Tests.antt =====
-- src/interrupts.c at concrete inputs.
use valern.Keyboard.Layout.{ascii_of}
use valern.Keyboard.Buffer.{keyboard_buffer_add, static_buffer, keyboard_clear_buffer}
use valern.Prelude.{
  ℕ, ◌≡◌, ◌≢◌, refl, arith, [], ◌∷◌, ◌<◌, some, none, replicate, false, true, get_or, length, ◌*◌,
  ◌-◌, List, if◌then◌else◌, ◌==◌,
}
use valern.Interrupts.{Interrupts, gate, interrupts_init, keyboard_isr}
use valern.Port.{Io, Event, write, inb, read}
use valern.Interrupts.Stub.{run_stub, Machine, keyboard_interrupt_stub, Register, stub_transparent}
use valern.Interrupts.Table.{handler_of, IsAbsent, interrupts_init_lem}
use valern.Keyboard.Driver.{
  static_keyboard, deliver, Irq, Keyboard, keyboard_interrupt_handler, accept_scancode,
  process_scancode, dispatch_key, process_key,
}
use valern.Keyboard.Driver.Init.{writes, Poll}
use valern.Interrupts.Service.{keyboard_isr_lem, scanned}
use valern.Interrupts.Raced.{keyboard_init_with}
use valern.Interrupts.Raced.Answers.{counts}
use valern.Interrupts.Raced.Dialogue.{
  keyboard_init_with_lem, keyboard_init_with-hangs, listed, raced_inputs,
}
use valern.Keyboard.Modifiers.{no_keys, handle_modifier}
use valern.Keyboard.Tests.{session, session-IsSession}

abbrev pub fresh : Interrupts
fresh = record {
  idt = replicate 256 (gate 7 7 7);
  idtr = record { limit = 0; base = 0 };
  loaded_idtr = none;
  enabled = false;
}

interrupts_init_example :
    (s' : Interrupts) × (io' : Io) × (interrupts_init 0xFFFF_FFFF_8000_1230 0x5000 fresh
        (record { inputs = 0xB8 ∷ 0x8E ∷ []; trace = [] })
      ≡ some (s', io'))
    × (handler_of (get_or s'.idt 0x21 (gate 0 0 0)) ≡ 0xFFFF_FFFF_8000_1230)
    × ((get_or s'.idt 0x21 (gate 0 0 0)).selector ≡ 0x08)
    × ((get_or s'.idt 0x21 (gate 0 0 0)).type_attr ≡ 0x8E)
    × ((n : ℕ) → n < 256 → n ≢ 0x21 → IsAbsent (get_or s'.idt n (gate 0 0 0)))
    × (s'.loaded_idtr ≡ some (record { limit = length s'.idt * 16 - 1; base = 0x5000 }))
    × (s'.enabled ≡ true)
    × (writes io'.trace
        ≡ (0x20, 0x11)
          ∷ (0x21, 0x20)
          ∷ (0x21, 0x04)
          ∷ (0x21, 0x01)
          ∷ (0xA0, 0x11)
          ∷ (0xA1, 0x28)
          ∷ (0xA1, 0x02)
          ∷ (0xA1, 0x01)
          ∷ (0x21, 0xFD)
          ∷ (0xA1, 0xFF)
          ∷ [])
interrupts_init_example =
    interrupts_init_lem 0xFFFF_FFFF_8000_1230 0x5000 0xB8 0x8E [] fresh (omega arith) refl

-- The key a is pressed.
keyboard_isr_example :
    (io' : Io) × (keyboard_isr static_keyboard (record { inputs = 0x1D ∷ 0x1E ∷ []; trace = [] })
      ≡ some (scanned 0x1E static_keyboard, io'))
    × (io'.inputs ≡ [])
    × (io'.trace ≡ write 0x20 0x20 ∷ read 0x60 0x1E ∷ read 0x64 0x1D ∷ [])
keyboard_isr_example = keyboard_isr_lem 0x1D 0x1E [] [] static_keyboard

abbrev interrupted : Machine
interrupted = record { registers = λ r. 5; stack = 9 ∷ [] }

stub_transparent_example :
    (m' : Machine) × (run_stub (λ registers r. 77) keyboard_interrupt_stub interrupted ≡ some m')
    × ((r : Register) → m'.registers r ≡ 5)
    × (m'.stack ≡ 9 ∷ [])
stub_transparent_example = stub_transparent (λ registers r. 77) interrupted

abbrev press_a : Irq
press_a = record { status = 0x1D; scancode = 0x1E }

abbrev press_b : Irq
press_b = record { status = 0x1D; scancode = 0x30 }

abbrev reset_keyboard : Keyboard
reset_keyboard = record static_keyboard {
  buffer = keyboard_clear_buffer static_buffer;
  key_state = no_keys;
}

-- The interrupt that an answer of the controller raises, taken when the answer has been read.
abbrev pub answered_irq : Irq
answered_irq = record { status = 0x1C; scancode = 0xFA }

-- The same, taken before: the service routine reads the answer, and the driver reads the port again.
abbrev pub answer_read_twice : Irq
answer_read_twice = record { status = 0x1D; scancode = 0xFA }

-- The interrupts of the three answers, the second one before the driver has read it.
abbrev pub answer_irqs : ℕ → List Irq
answer_irqs i =
    if i == 6
    then answered_irq ∷ []
    else if i == 13
    then answer_read_twice ∷ []
    else if i == 17
    then answer_read_twice ∷ []
    else []

-- The key a as well, before the first statement of the initialisation, and b before its third.
abbrev key_irqs : ℕ → List Irq
key_irqs i = if i == 0 then press_a ∷ [] else if i == 2 then press_b ∷ [] else answer_irqs i

abbrev answers_with_keys : Io
answers_with_keys = record { inputs = raced_inputs key_irqs session []; trace = [] }

-- The driver with the two characters.
abbrev with_keys : Keyboard
with_keys = deliver press_b (deliver press_a reset_keyboard)

keyboard_init_with_example :
    (log' : List Event) × (keyboard_init_with (counts key_irqs) static_keyboard answers_with_keys
      ≡ some (with_keys, record { inputs = []; trace = log' }))
unfolding deliver inb keyboard_interrupt_handler accept_scancode process_scancode dispatch_key
    process_key handle_modifier ascii_of keyboard_buffer_add
keyboard_init_with_example =
    keyboard_init_with_lem key_irqs session [] [] static_keyboard session-IsSession

abbrev free_at_once : Poll
free_at_once = record { busy = []; ready = 0x1C }

keyboard_init_with-hangs_example :
    keyboard_init_with
      (listed (0 ∷ 0 ∷ 0 ∷ 0 ∷ 1 ∷ []))
      static_keyboard
      (record { inputs = 0x1C ∷ 0x1C ∷ 0x1D ∷ 0x65 ∷ 0x1C ∷ 0x1C ∷ []; trace = [] })
    ≡ none
keyboard_init_with-hangs_example =
    keyboard_init_with-hangs free_at_once free_at_once 0x1D 0x65 (0x1C ∷ 0x1C ∷ []) static_keyboard
      (tt, refl) (tt, refl) refl (refl, (refl, tt))
