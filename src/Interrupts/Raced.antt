-- ===== src/Interrupts/Raced.antt =====
-- `keyboard_init` of src/keyboard.c as src/main.c calls it, behind `interrupts_init`: with keyboard
-- interrupts between its accesses of the ports. One statement is taken to be atomic, a wait for the
-- controller too, and the service routine runs to its end.
pub mod History
pub mod Answers
pub mod Dialogue
pub mod Alone
use valern.Prelude.{
  ℕ, zero, suc, ◌+◌, ◌≡◌, refl, ap, ◌∙◌, List, [], ◌∷◌, Option, none, some, Every, false, true,
  if◌then◌else◌, ◌==◌, Bool, subst, some-injective, arith, bit_and, length, Bool-cases, inl, inr,
  get_or,
}
use valern.Port.{M, Io, Event, pure, ◌>>=◌, ◌>>◌, answered, inb, outb, read, write}
use valern.Keyboard.Buffer.{keyboard_clear_buffer}
use valern.Keyboard.Modifiers.{no_keys}
use valern.Keyboard.Driver.{
  acknowledge, Keyboard, keyboard_interrupt_handler, keyboard_wait_input, keyboard_wait_output,
  keyboard_data_port, keyboard_command_port, enable_config, input_free, output_ready, wait_status,
  Irq, deliver, deliver_all,
}
use valern.Keyboard.Driver.Characters.{IsReady}
use valern.Keyboard.Driver.Reach.{handler-IsReady, cleared-IsReady}
use valern.Keyboard.Driver.Init.{
  Poll, IsPollOf, answers, poll_log, wait_input_ends, Session, IsSession, wait_output_ends,
  answered_inputs, answered_log,
}
use valern.Interrupts.{keyboard_isr}
use valern.Interrupts.Service.{keyboard_isr_lem}

-- So many interrupts, one after the other.
unfoldable pub serve : ℕ → Keyboard → M Keyboard
serve zero kb = pure kb
serve (suc n) kb = do kb' ← keyboard_isr kb; serve n kb'

-- The statements in turn, each behind the interrupts of its moment.
unfoldable pub statements : (ℕ → ℕ) → ℕ → List (M (Unit {0})) → Keyboard → M Keyboard
statements moments i [] kb = pure kb
statements moments i (statement ∷ rest) kb = do
  kb' ← serve (moments i) kb
  statement
  statements moments (i + 1) rest kb'

-- Up to the answer with the configuration, and from there on.
abbrev pub ask : List (M (Unit {0}))
ask =
    keyboard_wait_input
    ∷ outb keyboard_command_port 0xAE
    ∷ keyboard_wait_input
    ∷ outb keyboard_command_port 0x20
    ∷ keyboard_wait_output
    ∷ []

abbrev pub configure : ℕ → List (M (Unit {0}))
configure config =
    keyboard_wait_input
    ∷ outb keyboard_command_port 0x60
    ∷ keyboard_wait_input
    ∷ outb keyboard_data_port (enable_config config)
    ∷ keyboard_wait_input
    ∷ outb keyboard_data_port 0xF0
    ∷ keyboard_wait_output
    ∷ acknowledge
    ∷ keyboard_wait_input
    ∷ outb keyboard_data_port 0x01
    ∷ keyboard_wait_output
    ∷ acknowledge
    ∷ []

-- `keyboard_init`, from its first access of a port on with `moments i` interrupts before the statement
-- with the number `i`. For those in the reset of the counters see Keyboard.Buffer.Interleaved.
unfoldable pub keyboard_init_with : (ℕ → ℕ) → Keyboard → M Keyboard
keyboard_init_with moments kb = do
  asked ←
      statements moments 0 ask
        (record kb { buffer = keyboard_clear_buffer kb.buffer; key_state = no_keys })
  served ← serve (moments 5) asked
  config ← inb keyboard_data_port
  statements moments 6 (configure config) served
