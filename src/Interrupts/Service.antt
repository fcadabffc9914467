-- ===== src/Interrupts/Service.antt =====
-- `keyboard_isr` of src/interrupts.c: one interrupt from the ports to the driver.
use valern.Prelude.{
  ℕ, List, ◌∷◌, ◌≡◌, refl, some, ◌==◌, if◌then◌else◌, bit_and, inl, inr, Bool-cases, true, false,
}
use valern.Port.{Io, Event, inb, outb, write, read}
use valern.Keyboard.Driver.{Keyboard, process_scancode, accept_scancode, keyboard_interrupt_handler}
use valern.Interrupts.{keyboard_isr}

-- The driver behind a scancode: the prefix E0 is noted, the scancode behind it ignored, and every other
-- one processed.
abbrev pub scanned : ℕ → Keyboard → Keyboard
scanned scancode kb =
    if scancode == 0xE0
    then record kb { extended_scancode = true }
    else if kb.extended_scancode
    then record kb { extended_scancode = false }
    else process_scancode scancode kb

-- An interrupt is served in finitely many steps, whatever the ports answer: the status port is read,
-- then the data port exactly if the status says that its buffer is full, and after these reads one
-- end-of-interrupt is written to the first controller, with no other access. Without a scancode the
-- driver is left alone; with one the prefix E0 is noted, the scancode behind it ignored, and every other
-- one processed.
pub keyboard_isr_lem :
    (status scancode : ℕ) (rest : List ℕ) (log : List Event) (kb : Keyboard)
    → (io' : Io) × (keyboard_isr kb (record { inputs = status ∷ scancode ∷ rest; trace = log })
        ≡ some (if bit_and status 1 == 0 then kb else scanned scancode kb, io'))
      × (io'.inputs ≡ (if bit_and status 1 == 0 then scancode ∷ rest else rest))
      × (io'.trace
          ≡ write 0x20 0x20
            ∷ (if bit_and status 1 == 0
                then read 0x64 status ∷ log
                else read 0x60 scancode ∷ read 0x64 status ∷ log))
unfolding keyboard_isr keyboard_interrupt_handler accept_scancode inb outb
keyboard_isr_lem status scancode rest log kb = elim (Bool-cases (bit_and status 1 == 0)) [
  | inl empty ↦ (
    record { inputs = scancode ∷ rest; trace = write 0x20 0x20 ∷ read 0x64 status ∷ log },
    rw empty refl,
    rw empty refl,
    rw empty refl,
  )
  | inr full ↦ (
    record { inputs = rest; trace = write 0x20 0x20 ∷ read 0x60 scancode ∷ read 0x64 status ∷ log },
    rw full refl,
    rw full refl,
    rw full refl,
  )
]
