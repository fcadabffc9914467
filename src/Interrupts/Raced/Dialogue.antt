-- ===== src/Interrupts/Raced/Dialogue.antt =====
-- The dialogue of `keyboard_init` of src/keyboard.c with the keyboard controller, with keyboard
-- interrupts between its accesses of the ports.
use valern.Prelude.{
  ℕ, ◌≡◌, refl, ap, ◌∙◌, List, [], ◌∷◌, none, some, Every, false, true, Bool, arith, get_or,
}
use valern.Port.{Event, ◌>>=◌, inb, outb, read, write}
use valern.Keyboard.Buffer.{keyboard_clear_buffer}
use valern.Keyboard.Modifiers.{no_keys}
use valern.Keyboard.Driver.{
  Keyboard, keyboard_wait_output, input_free, output_ready, wait_status, Irq, deliver_all,
  keyboard_data_port, keyboard_command_port, enable_config,
}
use valern.Keyboard.Driver.Init.{
  Poll, IsPollOf, answers, poll_log, wait_input_ends, Session, IsSession,
}
use valern.Interrupts.Service.{keyboard_isr_lem}
use valern.Interrupts.Raced.Answers.{
  Answered, done, next, statements_run, interleaved, accepted, counts, served_bytes, serve_runs,
  input_Consumes, output_Consumes, nothing, outb-Consumes, acknowledge-Consumes,
}
use valern.Interrupts.Raced.{ask, configure, serve, statements, keyboard_init_with}

wait_status-none :
    (test : ℕ → Bool) (later : List ℕ) (log : List Event)
    → Every (λ s. test s ≡ false) later
    → wait_status test later log ≡ none
unfolding wait_status
wait_status-none test [] log h = refl
wait_status-none test (s ∷ later) log h =
    rw h.0 (wait_status-none test later (read 0x64 s ∷ log) h.1)

-- So many interrupts at the first moments, and none later.
abbrev pub listed : List ℕ → ℕ → ℕ
listed counts i = get_or counts i 0

-- The controller has answered the request for its configuration, and one interrupt comes before the
-- driver waits for that answer: the service routine takes the answer for a scancode, and
-- `keyboard_init` does not end, however often the controller then says that it has nothing to send.
pub keyboard_init_with-hangs :
    (enable asked : Poll) (status config : ℕ) (later : List ℕ) (kb : Keyboard)
    → IsPollOf input_free enable
    → IsPollOf input_free asked
    → output_ready status ≡ true
    → Every (λ s. output_ready s ≡ false) later
    → keyboard_init_with
        (listed (0 ∷ 0 ∷ 0 ∷ 0 ∷ 1 ∷ []))
        kb
        (record { inputs = answers enable (answers asked (status ∷ config ∷ later)); trace = [] })
      ≡ none
unfolding keyboard_init_with statements serve outb keyboard_wait_output
keyboard_init_with-hangs enable asked status config later kb h k full none_sent =
    let kb0 = record kb { buffer = keyboard_clear_buffer kb.buffer; key_state = no_keys } in
    let (io', served, left, _) =
      keyboard_isr_lem status config later
        (write 0x64 0x20 ∷ poll_log asked (write 0x64 0xAE ∷ poll_log enable [])) kb0 in
    let unsent : wait_status output_ready io'.inputs io'.trace ≡ none =
      ap (λ l. wait_status output_ready l io'.trace) (left ∙ ground (arith, full))
      ∙ wait_status-none output_ready later io'.trace none_sent in
    rw
      (
        keyboard_init_with,
        statements,
        ◌>>=◌,
        serve,
        wait_input_ends enable (answers asked (status ∷ config ∷ later)) [] h,
        wait_input_ends asked (status ∷ config ∷ later) (write 0x64 0xAE ∷ poll_log enable []) k,
        served,
        unsent,
      )
      refl

-- Up to the answer with the configuration, and from there on.
abbrev pub ask_answers : Session → List (List ℕ → List ℕ)
ask_answers s = answers s.enable ∷ nothing ∷ answers s.ask ∷ nothing ∷ answers s.answered ∷ []

abbrev pub configure_answers : Session → List (List ℕ → List ℕ)
configure_answers s =
    answers s.set
    ∷ nothing
    ∷ answers s.set_byte
    ∷ nothing
    ∷ answers s.select
    ∷ nothing
    ∷ answers s.acknowledged
    ∷ (λ rest. s.ack ∷ rest)
    ∷ answers s.one
    ∷ nothing
    ∷ answers s.acknowledged'
    ∷ (λ rest. s.ack' ∷ rest)
    ∷ []

-- The answers to `keyboard_init`, and to the service routine at each of its 18 moments.
abbrev pub raced_inputs : (ℕ → List Irq) → Session → List ℕ → List ℕ
raced_inputs irqs s rest =
    interleaved irqs 0 (ask_answers s)
      (served_bytes (irqs 5) (s.config ∷ interleaved irqs 6 (configure_answers s) rest))

ask-Answered : (s : Session) → IsSession s → Answered ask (ask_answers s)
ask-Answered s h = next (input_Consumes s.enable h.enable_free) (
    next (outb-Consumes keyboard_command_port 0xAE) (
      next (input_Consumes s.ask h.ask_free) (
        next (outb-Consumes keyboard_command_port 0x20)
          (next (output_Consumes s.answered h.answered_full) done))))

configure-Answered :
    (s : Session) → IsSession s → Answered (configure s.config) (configure_answers s)
configure-Answered s h = next (input_Consumes s.set h.set_free) (
    next (outb-Consumes keyboard_command_port 0x60) (
      next (input_Consumes s.set_byte h.set_byte_free) (
        next (outb-Consumes keyboard_data_port (enable_config s.config)) (
          next (input_Consumes s.select h.select_free) (
            next (outb-Consumes keyboard_data_port 0xF0) (
              next (output_Consumes s.acknowledged h.acknowledged_full) (
                next (acknowledge-Consumes s.ack) (
                  next (input_Consumes s.one h.one_free) (
                    next (outb-Consumes keyboard_data_port 0x01) (
                      next (output_Consumes s.acknowledged' h.acknowledged_full')
                        (next (acknowledge-Consumes s.ack') done)))))))))))

-- Whatever interrupts come before and between the accesses of the ports by `keyboard_init`, behind its
-- reset of the counters, also while answers of the controller are pending: if the controller becomes
-- ready in the end at every wait, with what the service routine has read gone, then `keyboard_init` ends
-- with the answers consumed, and the driver has accepted each interrupt, in their order, after its reset.
pub keyboard_init_with_lem :
    (irqs : ℕ → List Irq) (s : Session) (rest : List ℕ) (log : List Event) (kb : Keyboard)
    → IsSession s
    → (log' : List Event) × (keyboard_init_with
          (counts irqs)
          kb
          (record { inputs = raced_inputs irqs s rest; trace = log })
        ≡ some (
          accepted irqs 0 18
              (record kb { buffer = keyboard_clear_buffer kb.buffer; key_state = no_keys }),
          record { inputs = rest; trace = log' },
        ))
unfolding keyboard_init_with inb
keyboard_init_with_lem irqs s rest log kb h =
    let kb0 = record kb { buffer = keyboard_clear_buffer kb.buffer; key_state = no_keys } in
    let kb5 = accepted irqs 0 5 kb0 in
    let kb6 = deliver_all (irqs 5) kb5 in
    let behind = interleaved irqs 6 (configure_answers s) rest in
    let (log1, asked) =
      statements_run irqs 0 ask (ask_answers s) (served_bytes (irqs 5) (s.config ∷ behind)) log kb0
        (ask-Answered s h) in
    let (log2, between) = serve_runs (irqs 5) (s.config ∷ behind) log1 kb5 in
    let (log3, configured) =
      statements_run irqs 6 (configure s.config) (configure_answers s) rest
        (read keyboard_data_port s.config ∷ log2) kb6 (configure-Answered s h) in
    (log3, rw (keyboard_init_with, ◌>>=◌, asked, between) configured)
