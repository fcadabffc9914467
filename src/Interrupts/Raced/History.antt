-- ===== src/Interrupts/Raced/History.antt =====
-- What src/keyboard.c's `keyboard_init` leaves when keyboard interrupts come between its accesses of the
-- ports, as a history of interrupts.
use valern.Prelude.{ℕ, zero, suc, ◌+◌, ◌≡◌, List, some, length}
use valern.Port.{M, Io}
use valern.Keyboard.Driver.{Keyboard, Irq, deliver_all}

-- Every result of a computation has a property.
abbrev Yields : {A : Type 0} → (A → Type 0) → M A → Type 0
Yields {A} P action = (io io' : Io) (a : A) → action io ≡ some (a, io') → P a

-- Anything at all.
abbrev Some : {A : Type 0} → A → Type 0
Some a = Unit {0}

-- The driver after a history of so many interrupts.
abbrev pub Accepts : Keyboard → ℕ → Keyboard → Type 0
Accepts first n kb = (irqs : List Irq) × (length irqs ≡ n) × (kb ≡ deliver_all irqs first)

-- The interrupts of so many moments from `i` on.
abbrev pub total : (ℕ → ℕ) → ℕ → ℕ → ℕ
total moments i zero = 0
total moments i (suc n) = moments i + total moments (i + 1) n
