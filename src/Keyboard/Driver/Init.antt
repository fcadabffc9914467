-- ===== src/Keyboard/Driver/Init.antt =====
-- The dialogue of `keyboard_init` of src/keyboard.c with the keyboard controller.
use valern.Prelude.{
  ℕ, List, [], ◌∷◌, ◌++◌, Bool, true, false, ◌&&◌, ◌≡◌, refl, some, Every, ◌==◌, if◌then◌else◌, ap,
  ◌∙◌,
}
use valern.Port.{Event, read, write, Io, inb, outb, ◌>>=◌}
use valern.Keyboard.Driver.{
  keyboard_data_port, keyboard_status_port, input_free, output_ready, wait_status,
  keyboard_wait_input, keyboard_wait_output, init_controller, enable_config, keyboard_init,
  Keyboard,
}
use valern.Keyboard.Buffer.{keyboard_clear_buffer}
use valern.Keyboard.Buffer.Queue.{contents}
use valern.Keyboard.Modifiers.{no_keys}

-- The status reads of one wait: those that find the controller not ready, and the one that ends it.
pub record Poll : Type 0 where
  pub busy : List ℕ
  pub ready : ℕ

abbrev pub IsPollOf : (ℕ → Bool) → Poll → Type 0
IsPollOf test p = Every (λ s. test s ≡ false) p.busy × (test p.ready ≡ true)

-- What the machine answers during the wait, before what it answers later.
abbrev pub answers : Poll → List ℕ → List ℕ
answers p later = p.busy ++ p.ready ∷ later

abbrev busy_log : List ℕ → List Event → List Event
busy_log [] log = log
busy_log (s ∷ ss) log = busy_log ss (read keyboard_status_port s ∷ log)

abbrev pub poll_log : Poll → List Event → List Event
poll_log p log = read keyboard_status_port p.ready ∷ busy_log p.busy log

wait_status_ends :
    (test : ℕ → Bool) (busy : List ℕ) (s : ℕ) (later : List ℕ) (log : List Event)
    → Every (λ s. test s ≡ false) busy
    → test s ≡ true
    → wait_status test (busy ++ s ∷ later) log
      ≡ some
          (tt, record { inputs = later; trace = read keyboard_status_port s ∷ busy_log busy log })
unfolding wait_status
wait_status_ends test [] s later log h e = rw e
wait_status_ends test (b ∷ busy) s later log h e =
    rw h.0 (wait_status_ends test busy s later (read keyboard_status_port b ∷ log) h.1 e)

pub wait_input_ends :
    (p : Poll) (later : List ℕ) (log : List Event)
    → IsPollOf input_free p
    → keyboard_wait_input (record { inputs = answers p later; trace = log })
      ≡ some (tt, record { inputs = later; trace = poll_log p log })
unfolding keyboard_wait_input
wait_input_ends p later log h = wait_status_ends input_free p.busy p.ready later log h.0 h.1

pub wait_output_ends :
    (p : Poll) (later : List ℕ) (log : List Event)
    → IsPollOf output_ready p
    → keyboard_wait_output (record { inputs = answers p later; trace = log })
      ≡ some (tt, record { inputs = later; trace = poll_log p log })
unfolding keyboard_wait_output
wait_output_ends p later log h = wait_status_ends output_ready p.busy p.ready later log h.0 h.1

-- The writes of a trace, oldest first: port and byte.
abbrev pub writes : List Event → List (ℕ × ℕ)
writes [] = []
writes (read port b ∷ log) = writes log
writes (write port b ∷ log) = writes log ++ ((port, b) ∷ [])

-- Was the last thing done a read of the status port that passed the test?
abbrev pub polled : (ℕ → Bool) → List Event → Bool
polled test [] = false
polled test (read port s ∷ log) = port == keyboard_status_port && test s
polled test (write port b ∷ log) = false

-- Every write followed at once on a status read that found the input buffer free, and every read of
-- the data port on one that found the output buffer full.
abbrev pub is_polite : List Event → Bool
is_polite [] = true
is_polite (read port b ∷ log) =
    (if port == keyboard_data_port then polled output_ready log else true) && is_polite log
is_polite (write port b ∷ log) = polled input_free log && is_polite log

-- The answers of a controller that is ready in the end each time, and the bytes that it sends.
pub record Session : Type 0 where
  pub enable : Poll
  pub ask : Poll
  pub answered : Poll
  pub config : ℕ
  pub set : Poll
  pub set_byte : Poll
  pub select : Poll
  pub acknowledged : Poll
  pub ack : ℕ
  pub one : Poll
  pub acknowledged' : Poll
  pub ack' : ℕ

pub record IsSession (s : Session) : Type 0 where
  pub enable_free : IsPollOf input_free s.enable
  pub ask_free : IsPollOf input_free s.ask
  pub answered_full : IsPollOf output_ready s.answered
  pub set_free : IsPollOf input_free s.set
  pub set_byte_free : IsPollOf input_free s.set_byte
  pub select_free : IsPollOf input_free s.select
  pub acknowledged_full : IsPollOf output_ready s.acknowledged
  pub one_free : IsPollOf input_free s.one
  pub acknowledged_full' : IsPollOf output_ready s.acknowledged'

-- From the wait for the configuration on.
abbrev pub answered_inputs : Session → List ℕ → List ℕ
answered_inputs s rest = answers s.answered (
    s.config
    ∷ answers s.set (
        answers s.set_byte (
          answers s.select (
            answers s.acknowledged
              (s.ack ∷ answers s.one (answers s.acknowledged' (s.ack' ∷ rest)))))))

abbrev pub session_inputs : Session → List ℕ → List ℕ
session_inputs s rest = answers s.enable (answers s.ask (answered_inputs s rest))

abbrev pub answered_log : Session → List Event → List Event
answered_log s log =
    let l₃ = read 0x60 s.config ∷ poll_log s.answered log in
    let l₄ = write 0x64 0x60 ∷ poll_log s.set l₃ in
    let l₅ = write 0x60 (enable_config s.config) ∷ poll_log s.set_byte l₄ in
    let l₆ = write 0x60 0xF0 ∷ poll_log s.select l₅ in
    let l₇ = read 0x60 s.ack ∷ poll_log s.acknowledged l₆ in
    let l₈ = write 0x60 0x01 ∷ poll_log s.one l₇ in read 0x60 s.ack' ∷ poll_log s.acknowledged' l₈

abbrev pub session_log : Session → List Event → List Event
session_log s log =
    let l₁ = write 0x64 0xAE ∷ poll_log s.enable log in
    answered_log s (write 0x64 0x20 ∷ poll_log s.ask l₁)

init_controller_runs :
    (s : Session) (rest : List ℕ) (log : List Event)
    → IsSession s
    → init_controller (record { inputs = session_inputs s rest; trace = log })
      ≡ some (tt, record { inputs = rest; trace = session_log s log })
unfolding init_controller inb outb
init_controller_runs s rest log h = simp (
  init_controller,
  ◌>>=◌,
  wait_input_ends s.enable _ _ h.enable_free,
  wait_input_ends s.ask _ _ h.ask_free,
  wait_output_ends s.answered _ _ h.answered_full,
  wait_input_ends s.set _ _ h.set_free,
  wait_input_ends s.set_byte _ _ h.set_byte_free,
  wait_input_ends s.select _ _ h.select_free,
  wait_output_ends s.acknowledged _ _ h.acknowledged_full,
  wait_input_ends s.one _ _ h.one_free,
  wait_output_ends s.acknowledged' _ _ h.acknowledged_full',
)

-- Status reads of a wait need nothing before them, and are no writes.
is_polite-busy_log :
    (busy : List ℕ) (log : List Event) → is_polite (busy_log busy log) ≡ is_polite log
is_polite-busy_log [] log = refl
is_polite-busy_log (b ∷ busy) log = is_polite-busy_log busy (read keyboard_status_port b ∷ log)

writes-busy_log : (busy : List ℕ) (log : List Event) → writes (busy_log busy log) ≡ writes log
writes-busy_log [] log = refl
writes-busy_log (b ∷ busy) log = writes-busy_log busy (read keyboard_status_port b ∷ log)

session_log-polite :
    (s : Session) (log : List Event) → IsSession s → is_polite (session_log s log) ≡ is_polite log
session_log-polite s log h = simp (
  is_polite-busy_log, h.enable_free.1, h.ask_free.1, h.answered_full.1, h.set_free.1,
  h.set_byte_free.1, h.select_free.1, h.acknowledged_full.1, h.one_free.1, h.acknowledged_full'.1,
)

-- `keyboard_init` after other port accesses.
pub keyboard_init_runs :
    (s : Session) (rest : List ℕ) (kb : Keyboard) (io : Io)
    → IsSession s
    → io.inputs ≡ session_inputs s rest
    → keyboard_init kb io
      ≡ some (
        record kb { buffer = keyboard_clear_buffer kb.buffer; key_state = no_keys },
        record { inputs = rest; trace = session_log s io.trace },
      )
unfolding keyboard_init
keyboard_init_runs s rest kb io h e =
    let answered : init_controller io
        ≡ some (tt, record { inputs = rest; trace = session_log s io.trace }) =
      ap (λ l. init_controller (record { inputs = l; trace = io.trace })) e
      ∙ init_controller_runs s rest io.trace h in
    rw (keyboard_init, answered, ◌>>=◌) refl

-- With a controller that becomes ready at every wait, however long it is busy before, the
-- initialisation ends. It has consumed exactly the controller's answers; it has written the bytes
-- AE, 20 and 60 to the command port and the changed configuration to the data port, then F0 and 01
-- to the data port; it wrote only right after reading that the input buffer is free, and read data
-- only right after reading that the output buffer is full. The key buffer is empty after it and no
-- modifier is set.
pub keyboard_init_lem :
    (s : Session) (rest : List ℕ) (kb : Keyboard)
    → IsSession s
    → (kb' : Keyboard) × (io' : Io) × (keyboard_init kb
          (record { inputs = session_inputs s rest; trace = [] })
        ≡ some (kb', io'))
      × (io'.inputs ≡ rest)
      × (writes io'.trace
          ≡ (0x64, 0xAE)
            ∷ (0x64, 0x20)
            ∷ (0x64, 0x60)
            ∷ (0x60, enable_config s.config)
            ∷ (0x60, 0xF0)
            ∷ (0x60, 0x01)
            ∷ [])
      × (is_polite io'.trace ≡ true)
      × (contents kb'.buffer ≡ [])
      × (kb'.key_state ≡ no_keys)
unfolding keyboard_init keyboard_clear_buffer
keyboard_init_lem s rest kb h = (
  record kb { buffer = keyboard_clear_buffer kb.buffer; key_state = no_keys },
  record { inputs = rest; trace = session_log s [] },
  rw (init_controller_runs s rest [] h, keyboard_init, ◌>>=◌),
  refl,
  simp writes-busy_log,
  session_log-polite s [] h,
  refl,
  refl,
)
