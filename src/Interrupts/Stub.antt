-- ===== src/Interrupts/Stub.antt =====
-- The assembly stub of src/interrupts.c: it saves and restores fifteen registers round the call.
use valern.Prelude.{List, [], ◌∷◌, ℕ, Option, ◌≡◌, some, none, if◌then◌else◌, ◌==◌, refl}

pub data Register : Type 0 where
  rax rbx rcx rdx rsi rdi rbp r8 r9 r10 r11 r12 r13 r14 r15 : Register

pub data Instruction : Type 0 where
  push : Register → Instruction
  call_keyboard_isr : Instruction
  pop : Register → Instruction

-- The stub up to `iretq`.
unfoldable pub keyboard_interrupt_stub : List Instruction
keyboard_interrupt_stub =
    push rax
    ∷ push rbx
    ∷ push rcx
    ∷ push rdx
    ∷ push rsi
    ∷ push rdi
    ∷ push rbp
    ∷ push r8
    ∷ push r9
    ∷ push r10
    ∷ push r11
    ∷ push r12
    ∷ push r13
    ∷ push r14
    ∷ push r15
    ∷ call_keyboard_isr
    ∷ pop r15
    ∷ pop r14
    ∷ pop r13
    ∷ pop r12
    ∷ pop r11
    ∷ pop r10
    ∷ pop r9
    ∷ pop r8
    ∷ pop rbp
    ∷ pop rdi
    ∷ pop rsi
    ∷ pop rdx
    ∷ pop rcx
    ∷ pop rbx
    ∷ pop rax
    ∷ []

-- The registers, and the stack from its top.
pub record Machine : Type 0 where
  pub registers : Register → ℕ
  pub stack : List ℕ

-- A number for each register, to tell them apart.
abbrev number : Register → ℕ
number rax = 0
number rbx = 1
number rcx = 2
number rdx = 3
number rsi = 4
number rdi = 5
number rbp = 6
number r8 = 7
number r9 = 8
number r10 = 9
number r11 = 10
number r12 = 11
number r13 = 12
number r14 = 13
number r15 = 14

-- A pop from an empty stack is `none`.
abbrev pop_into : Register → (Register → ℕ) → List ℕ → Option Machine
pop_into r registers [] = none
pop_into r registers (v ∷ below) =
    some
      (record { registers = λ q. if number q == number r then v else registers q; stack = below })

-- `clobber` is what the call does to the registers; by the calling convention it leaves the stack as
-- it was.
unfoldable pub execute : ((Register → ℕ) → Register → ℕ) → Instruction → Machine → Option Machine
execute clobber (push r) m = some (record m { stack = m.registers r ∷ m.stack })
execute clobber call_keyboard_isr m = some (record m { registers = clobber m.registers })
execute clobber (pop r) m = pop_into r m.registers m.stack

unfoldable pub run_stub :
    ((Register → ℕ) → Register → ℕ) → List Instruction → Machine → Option Machine
run_stub clobber [] m = some m
run_stub clobber (i ∷ is) m = elim (execute clobber i m) [
  | none ↦ none
  | some m' ↦ run_stub clobber is m'
]

-- Whatever the service routine does to the registers, the stub gives back to the interrupted program
-- every one of its fifteen registers, and its stack.
pub stub_transparent :
    (clobber : (Register → ℕ) → Register → ℕ) (m : Machine)
    → (m' : Machine) × (run_stub clobber keyboard_interrupt_stub m ≡ some m')
      × ((r : Register) → m'.registers r ≡ m.registers r)
      × (m'.stack ≡ m.stack)
unfolding run_stub execute keyboard_interrupt_stub
stub_transparent clobber m = (after, refl, restored, refl)
  where
    result : Option Machine → Machine
    result none = m
    result (some m') = m'

    after : Machine
    after = result (run_stub clobber keyboard_interrupt_stub m)

    restored : (r : Register) → after.registers r ≡ m.registers r
    restored rax = refl
    restored rbx = refl
    restored rcx = refl
    restored rdx = refl
    restored rsi = refl
    restored rdi = refl
    restored rbp = refl
    restored r8 = refl
    restored r9 = refl
    restored r10 = refl
    restored r11 = refl
    restored r12 = refl
    restored r13 = refl
    restored r14 = refl
    restored r15 = refl
