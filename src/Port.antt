-- ===== src/Port.antt =====
-- src/port.c: the two port instructions, in a state monad over what the machine answers.
-- `inputs` are the bytes that the reads to come will return, oldest first, whatever port they
-- name; `trace` holds the port accesses made so far, newest first. `none` is a computation that
-- still waits: it asked for one more byte than the machine has given.
use valern.Prelude.{ℕ, Option, none, some, List, [], ◌∷◌}

pub data Event : Type 0 where
  read : ℕ → ℕ → Event
  write : ℕ → ℕ → Event

pub record Io : Type 0 where
  pub inputs : List ℕ
  pub trace : List Event

abbrev pub M : Type 0 → Type 0
M A = Io → Option (A × Io)

abbrev pub pure : {A : Type 0} → A → M A
pure a now = some (a, now)

-- What follows runs only if something was answered.
abbrev pub answered : {A B : Type 0} → Option (A × Io) → (A → M B) → Option (B × Io)
answered none then_do = none
answered (some (a, later)) then_do = then_do a later

infixl 5 ◌>>=◌
abbrev pub ◌>>=◌ : {A B : Type 0} → M A → (A → M B) → M B
◌>>=◌ action then_do now = answered (action now) then_do

infixl 5 ◌>>◌
abbrev pub ◌>>◌ : {B : Type 0} → M (Unit {0}) → M B → M B
action >> then_do = action >>= (λ _. then_do)

abbrev read_next : ℕ → List ℕ → List Event → Option (ℕ × Io)
read_next port [] trace = none
read_next port (b ∷ rest) trace = some (b, record { inputs = rest; trace = read port b ∷ trace })

unfoldable pub inb : ℕ → M ℕ
inb port io = read_next port io.inputs io.trace

unfoldable pub outb : ℕ → ℕ → M (Unit {0})
outb port byte io = some (tt, record io { trace = write port byte ∷ io.trace })
