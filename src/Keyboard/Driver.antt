-- ===== src/Keyboard/Driver.antt =====
-- src/keyboard.c: the scancode machine, the interrupt handler, the initialisation and the readers.
pub mod History
pub mod Typing
pub mod Characters
pub mod Reach
pub mod Races
pub mod Blocking
pub mod Early
pub mod Init
use valern.Prelude.{
  ℕ, Bool, true, false, not, Option, none, some, List, [], ◌∷◌, bit_and, bit_or, ◌==◌, ltb,
  if◌then◌else◌, length,
}
use valern.Port.{Event, read, Io, M, pure, ◌>>=◌, ◌>>◌, inb, outb}
use valern.Keyboard.Buffer.{
  KeyBuffer, static_buffer, keyboard_buffer_add, keyboard_buffer_get, keyboard_has_key,
  keyboard_clear_buffer,
}
use valern.Keyboard.Modifiers.{KeyState, no_keys, handle_modifier}
use valern.Keyboard.Layout.{scancode_to_ascii, ascii_of}

abbrev pub keyboard_data_port : ℕ
keyboard_data_port = 0x60

abbrev pub keyboard_status_port : ℕ
keyboard_status_port = 0x64

abbrev pub keyboard_command_port : ℕ
keyboard_command_port = 0x64

abbrev pub keyboard_status_output_full : ℕ
keyboard_status_output_full = 0x01

abbrev pub keyboard_status_input_full : ℕ
keyboard_status_input_full = 0x02

abbrev pub key_released_mask : ℕ
key_released_mask = 0x80

abbrev pub extended_scancode_prefix : ℕ
extended_scancode_prefix = 0xE0

-- Every static variables of the file, with the handler's `extended_scancode`.
pub record Keyboard : Type 0 where
  pub key_state : KeyState
  pub buffer : KeyBuffer
  pub extended_scancode : Bool

abbrev pub static_keyboard : Keyboard
static_keyboard = record { key_state = no_keys; buffer = static_buffer; extended_scancode = false }

-- A key that is not a modifier.
unfoldable pub process_key : ℕ → Bool → Keyboard → Keyboard
process_key key key_released kb =
    if key_released
    then kb
    else if ltb key (length scancode_to_ascii)
    then (let ascii = ascii_of kb.key_state key in
        if not (ascii == 0) then record kb { buffer = keyboard_buffer_add ascii kb.buffer } else kb)
    else kb

-- The switch on the modifiers, then the other keys.
unfoldable pub dispatch_key : ℕ → Bool → Keyboard → Keyboard
dispatch_key key key_released kb = elim (handle_modifier key key_released kb.key_state) [
  | some keys ↦ record kb { key_state = keys }
  | none ↦ process_key key key_released kb
]

-- `0x7F` is `(uint8_t)~KEY_RELEASED_MASK`.
unfoldable pub process_scancode : ℕ → Keyboard → Keyboard
process_scancode scancode kb =
    dispatch_key (bit_and scancode 0x7F) (not (bit_and scancode key_released_mask == 0)) kb

-- What the handler does with a scancode that it has read.
unfoldable pub accept_scancode : ℕ → Keyboard → Keyboard
accept_scancode scancode kb =
    if scancode == extended_scancode_prefix
    then record kb { extended_scancode = true }
    else if kb.extended_scancode
    then record kb { extended_scancode = false }
    else process_scancode scancode kb

unfoldable pub keyboard_interrupt_handler : Keyboard → M Keyboard
keyboard_interrupt_handler kb = do
  status ← inb keyboard_status_port
  if bit_and status keyboard_status_output_full == 0
      then pure kb
      else (do scancode ← inb keyboard_data_port; pure (accept_scancode scancode kb))

-- `while (!ready(inb(0x64)));` over the bytes that the reads return.
unfoldable pub wait_status : (ℕ → Bool) → List ℕ → List Event → Option (Unit {0} × Io)
wait_status ready [] trace = none
wait_status ready (status ∷ rest) trace =
    let done = read keyboard_status_port status ∷ trace in
    if ready status
    then some (tt, record { inputs = rest; trace = done })
    else wait_status ready rest done

abbrev pub input_free : ℕ → Bool
input_free status = bit_and status keyboard_status_input_full == 0

abbrev pub output_ready : ℕ → Bool
output_ready status = not (bit_and status keyboard_status_output_full == 0)

unfoldable pub keyboard_wait_input : M (Unit {0})
keyboard_wait_input io = wait_status input_free io.inputs io.trace

unfoldable pub keyboard_wait_output : M (Unit {0})
keyboard_wait_output io = wait_status output_ready io.inputs io.trace

-- `config |= 0x01; config &= ~0x10;` on a byte.
abbrev pub enable_config : ℕ → ℕ
enable_config config = bit_and (bit_or config 0x01) 0xEF

-- `inb(KEYBOARD_DATA_PORT);`
abbrev pub acknowledge : M (Unit {0})
acknowledge = do _ ← inb keyboard_data_port; pure tt

-- The port accesses of `keyboard_init`.
unfoldable pub init_controller : M (Unit {0})
init_controller = do
  keyboard_wait_input
  outb keyboard_command_port 0xAE
  keyboard_wait_input
  outb keyboard_command_port 0x20
  keyboard_wait_output
  config ← inb keyboard_data_port
  keyboard_wait_input
  outb keyboard_command_port 0x60
  keyboard_wait_input
  outb keyboard_data_port (enable_config config)
  keyboard_wait_input
  outb keyboard_data_port 0xF0
  keyboard_wait_output
  acknowledge
  keyboard_wait_input
  outb keyboard_data_port 0x01
  keyboard_wait_output
  acknowledge
  pure tt

-- `extended_scancode` is the handler's own, and is not reset.
unfoldable pub keyboard_init : Keyboard → M Keyboard
unfolding keyboard_clear_buffer
keyboard_init kb = do
  init_controller
  pure (record kb { buffer = keyboard_clear_buffer kb.buffer; key_state = no_keys })

-- What a keyboard interrupt finds at the status port and, if it is read, at the data port.
pub record Irq : Type 0 where
  pub status : ℕ
  pub scancode : ℕ

-- The driver after the handler has run on an interrupt.
unfoldable pub deliver : Irq → Keyboard → Keyboard
unfolding keyboard_interrupt_handler
deliver irq kb =
    elim (keyboard_interrupt_handler kb
      (record { inputs = irq.status ∷ irq.scancode ∷ []; trace = [] })) [
        | none ↦ kb
        | some (kb', _) ↦ kb'
      ]

abbrev pub deliver_all : List Irq → Keyboard → Keyboard
deliver_all [] kb = kb
deliver_all (irq ∷ irqs) kb = deliver_all irqs (deliver irq kb)

unfoldable pub keyboard_getchar_nonblock : Keyboard → ℕ × Keyboard
keyboard_getchar_nonblock kb =
    let (c, b) = keyboard_buffer_get kb.buffer in (c, record kb { buffer = b })

-- The blocking read. Each `hlt` ends with the next interrupt of the schedule; `none` is a halt that
-- no interrupt ends. Also returned: the interrupts left.
unfoldable pub keyboard_getchar : List Irq → Keyboard → Option (ℕ × List Irq × Keyboard)
keyboard_getchar [] kb =
    let (c, kb') = keyboard_getchar_nonblock kb in
    if keyboard_has_key kb.buffer then some (c, [], kb') else none
keyboard_getchar (irq ∷ irqs) kb =
    let (c, kb') = keyboard_getchar_nonblock kb in
    let rest = keyboard_getchar irqs (deliver irq kb) in
    if keyboard_has_key kb.buffer then some (c, irq ∷ irqs, kb') else rest
