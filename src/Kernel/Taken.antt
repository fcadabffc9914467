-- ===== src/Kernel/Taken.antt =====
-- The interrupts that src/main.c's `kernel` takes before its shell waits, in the order in which they come.
use valern.Prelude.{List, ℕ, length, refl, zero, suc, ◌+◌}
use valern.Keyboard.Buffer.{keyboard_clear_buffer}
use valern.Keyboard.Modifiers.{no_keys}
use valern.Keyboard.Driver.{Keyboard, Irq, deliver_all}
use valern.Keyboard.Driver.Characters.{IsReady}
use valern.Keyboard.Driver.Early.{deliver_all-IsReady}
use valern.Keyboard.Driver.Reach.{cleared-IsReady}
use valern.Keyboard.Driver.Init.{Session}
use valern.Interrupts.Raced.Answers.{served_bytes, accepted, counts}
use valern.Interrupts.Raced.Dialogue.{raced_inputs}
use valern.Kernel.{Arrivals}

-- Before `keyboard_init`, at its 18 moments, each before one of its accesses of the ports, and after it.
pub record Taken : Type 0 where
  pub early : List Irq
  pub during : ℕ → List Irq
  pub late : List Irq

abbrev pub arrivals_of : Taken → Arrivals
arrivals_of t = record {
  before_init = length t.early;
  during_init = counts t.during;
  after_init = length t.late;
}

-- What the controller answers to `keyboard_init` and to the service routine from then on.
abbrev pub init_inputs : Taken → Session → List ℕ → List ℕ
init_inputs t s rest = raced_inputs t.during s (served_bytes t.late rest)

abbrev pub taken_inputs : Taken → Session → List ℕ → List ℕ
taken_inputs t s rest = served_bytes t.early (init_inputs t s rest)

-- The driver after the reset of `keyboard_init`.
abbrev pub reset : Keyboard → Keyboard
reset kb = record kb { buffer = keyboard_clear_buffer kb.buffer; key_state = no_keys }

-- The driver that `keyboard_init` leaves.
abbrev pub initialised_by : Taken → Keyboard → Keyboard
initialised_by t kb = accepted t.during 0 18 (reset (deliver_all t.early kb))

-- The driver that has accepted all of them, reset behind the early ones.
abbrev pub taken_by : Taken → Keyboard → Keyboard
taken_by t kb = deliver_all t.late (initialised_by t kb)

accepted-IsReady :
    (irqs : ℕ → List Irq) (i n : ℕ) (kb : Keyboard) → IsReady kb → IsReady (accepted irqs i n kb)
accepted-IsReady irqs i zero kb r = r
accepted-IsReady irqs i (suc n) kb r =
    accepted-IsReady irqs (i + 1) n (deliver_all (irqs i) kb) (deliver_all-IsReady (irqs i) kb r)

pub taken_by-IsReady : (t : Taken) (kb : Keyboard) → IsReady kb → IsReady (taken_by t kb)
taken_by-IsReady t kb r =
    let early = deliver_all t.early kb in
    let cleared = cleared-IsReady early no_keys refl refl (deliver_all-IsReady t.early kb r) in
    deliver_all-IsReady t.late (initialised_by t kb)
      (accepted-IsReady t.during 0 18 (reset early) cleared)
