-- ===== src/Interrupts/Raced/Answers.antt =====
-- The statements of `keyboard_init` of src/keyboard.c, and the service routine between them, with the
-- answers of the ports to each.
use valern.Prelude.{
  zero, suc, ◌+◌, ℕ, ◌≡◌, refl, List, [], ◌∷◌, some, if◌then◌else◌, ◌==◌, bit_and, length,
  Bool-cases, inl, inr,
}
use valern.Port.{Event, ◌>>=◌, inb, outb, read, write, M}
use valern.Keyboard.Driver.{
  Keyboard, keyboard_interrupt_handler, keyboard_wait_output, input_free, output_ready, Irq,
  deliver, deliver_all, keyboard_wait_input, acknowledge, keyboard_data_port,
}
use valern.Keyboard.Driver.Init.{
  Poll, IsPollOf, answers, poll_log, wait_input_ends, wait_output_ends,
}
use valern.Interrupts.{keyboard_isr}
use valern.Interrupts.Raced.{serve, statements}

-- What the ports answer to the service routine on an interrupt.
abbrev pub served_bytes : List Irq → List ℕ → List ℕ
served_bytes [] rest = rest
served_bytes (irq ∷ irqs) rest =
    let later = served_bytes irqs rest in
    irq.status ∷ (if bit_and irq.status 1 == 0 then later else irq.scancode ∷ later)

isr_runs :
    (irq : Irq) (later : List ℕ) (log : List Event) (kb : Keyboard)
    → (log' : List Event) × (keyboard_isr kb (record {
      inputs = irq.status ∷ (if bit_and irq.status 1 == 0 then later else irq.scancode ∷ later);
      trace = log;
    })
        ≡ some (deliver irq kb, record { inputs = later; trace = log' }))
unfolding keyboard_isr keyboard_interrupt_handler inb outb deliver
isr_runs irq later log kb = elim (Bool-cases (bit_and irq.status 1 == 0)) [
  | inl empty ↦ (write 0x20 0x20 ∷ read 0x64 irq.status ∷ log, rw (deliver, empty) refl)
  | inr full ↦ (
    write 0x20 0x20 ∷ read 0x60 irq.scancode ∷ read 0x64 irq.status ∷ log,
    rw (deliver, full) refl,
  )
]

pub serve_runs :
    (irqs : List Irq) (rest : List ℕ) (log : List Event) (kb : Keyboard)
    → (log' : List Event) × (serve
          (length irqs)
          kb
          (record { inputs = served_bytes irqs rest; trace = log })
        ≡ some (deliver_all irqs kb, record { inputs = rest; trace = log' }))
unfolding serve
serve_runs [] rest log kb = (log, refl)
serve_runs (irq ∷ irqs) rest log kb =
    let (log1, e) = isr_runs irq (served_bytes irqs rest) log kb in
    let (log2, f) = serve_runs irqs rest log1 (deliver irq kb) in (log2, rw (serve, ◌>>=◌, e) f)

-- A statement that ends, and has then consumed these answers.
abbrev pub Consumes : M (Unit {0}) → (List ℕ → List ℕ) → Type 0
Consumes statement answered =
    (rest : List ℕ) (log : List Event)
    → (log' : List Event) × (statement (record { inputs = answered rest; trace = log })
        ≡ some (tt, record { inputs = rest; trace = log' }))

-- A list of statements with the answers to each.
pub data Answered : List (M (Unit {0})) → List (List ℕ → List ℕ) → Type 0 where
  done : Answered [] []
  next :
      {statement : M (Unit {0})} {list : List (M (Unit {0}))} {answered : List ℕ → List ℕ}
      {answers : List (List ℕ → List ℕ)}
      → Consumes statement answered
      → Answered list answers
      → Answered (statement ∷ list) (answered ∷ answers)

-- What the ports answer to statements with these interrupts before them, the first with the number `i`.
abbrev pub interleaved : (ℕ → List Irq) → ℕ → List (List ℕ → List ℕ) → List ℕ → List ℕ
interleaved irqs i [] rest = rest
interleaved irqs i (answered ∷ later) rest =
    served_bytes (irqs i) (answered (interleaved irqs (i + 1) later rest))

-- The driver that has accepted the interrupts of so many moments, in their order.
abbrev pub accepted : (ℕ → List Irq) → ℕ → ℕ → Keyboard → Keyboard
accepted irqs i zero kb = kb
accepted irqs i (suc n) kb = accepted irqs (i + 1) n (deliver_all (irqs i) kb)

-- How many there are at each moment.
abbrev pub counts : (ℕ → List Irq) → ℕ → ℕ
counts irqs i = length (irqs i)

pub statements_run :
    (irqs : ℕ → List Irq) (i : ℕ) (list : List (M (Unit {0}))) (later : List (List ℕ → List ℕ))
    (rest : List ℕ) (log : List Event) (kb : Keyboard)
    → Answered list later
    → (log' : List Event) × (statements
          (counts irqs)
          i
          list
          kb
          (record { inputs = interleaved irqs i later rest; trace = log })
        ≡ some (accepted irqs i (length later) kb, record { inputs = rest; trace = log' }))
unfolding statements
statements_run irqs i [] [] rest log kb done = (log, refl)
statements_run irqs i [] (answered ∷ later) rest log kb h = elim h [ ]
statements_run irqs i (statement ∷ list) [] rest log kb h = elim h [ ]
statements_run irqs i (statement ∷ list) (answered ∷ later) rest log kb (next h hs) =
    let (log1, e) = serve_runs (irqs i) (answered (interleaved irqs (i + 1) later rest)) log kb in
    let (log2, f) = h (interleaved irqs (i + 1) later rest) log1 in
    let (log3, g) = statements_run irqs (i + 1) list later rest log2 (deliver_all (irqs i) kb) hs in
    (log3, rw (statements, ◌>>=◌, e, f) g)

pub input_Consumes : (p : Poll) → IsPollOf input_free p → Consumes keyboard_wait_input (answers p)
input_Consumes p h rest log = (poll_log p log, wait_input_ends p rest log h)

pub output_Consumes :
    (p : Poll) → IsPollOf output_ready p → Consumes keyboard_wait_output (answers p)
output_Consumes p h rest log = (poll_log p log, wait_output_ends p rest log h)

abbrev pub nothing : List ℕ → List ℕ
nothing rest = rest

pub outb-Consumes : (port b : ℕ) → Consumes (outb port b) nothing
unfolding outb
outb-Consumes port b rest log = (write port b ∷ log, refl)

pub acknowledge-Consumes : (b : ℕ) → Consumes acknowledge (λ rest. b ∷ rest)
unfolding inb
acknowledge-Consumes b rest log = (read keyboard_data_port b ∷ log, refl)
