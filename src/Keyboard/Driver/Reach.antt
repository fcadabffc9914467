-- ===== src/Keyboard/Driver/Reach.antt =====
-- The states that the driver of src/keyboard.c is in between calls that no interrupt breaks into, whatever
-- the machine answers.
use valern.Prelude.{
  ℕ, List, [], ◌∷◌, Bool, ◌≡◌, ◌⊎◌, inl, inr, refl, ap, some, true, false, if◌then◌else◌, ◌==◌,
  Bool-cases, arith, bit_and,
}
use valern.Port.{inb, Io, Event}
use valern.Keyboard.Buffer.{keyboard_clear_buffer, keyboard_buffer_get, keyboard_has_key}
use valern.Keyboard.Buffer.Queue.{contents, dequeue, get-IsValid, get_refines, clear-IsValid}
use valern.Keyboard.Driver.{
  Keyboard, Irq, static_keyboard, process_scancode, accept_scancode, keyboard_interrupt_handler,
  keyboard_init, deliver, keyboard_getchar_nonblock, keyboard_getchar, Bool,
  extended_scancode_prefix, KeyState, no_keys, keyboard_status_output_full,
}
use valern.Keyboard.Driver.Characters.{IsReady, dispatch_key-IsReady, Every-dequeue}

-- One call of the driver's functions that change its state.
pub data Step (kb kb' : Keyboard) : Type 0 where
  init : (io io' : Io) → keyboard_init kb io ≡ some (kb', io') → Step kb kb'
  interrupt : (io io' : Io) → keyboard_interrupt_handler kb io ≡ some (kb', io') → Step kb kb'
  getchar :
      (irqs rest : List Irq) (c : ℕ) → keyboard_getchar irqs kb ≡ some (c, rest, kb') → Step kb kb'
  getchar_nonblock : kb' ≡ (keyboard_getchar_nonblock kb).1 → Step kb kb'
  clear_buffer : kb' ≡ record kb { buffer = keyboard_clear_buffer kb.buffer } → Step kb kb'

pub data Reach (kb : Keyboard) : Keyboard → Type 0 where
  here : Reach kb kb
  next : {s t : Keyboard} → Reach kb s → Step s t → Reach kb t

process_scancode-IsReady : (s : ℕ) (kb : Keyboard) → IsReady kb → IsReady (process_scancode s kb)
unfolding process_scancode
process_scancode-IsReady s kb r = dispatch_key-IsReady _ _ kb r

accept-IsReady : (s : ℕ) (kb : Keyboard) → IsReady kb → IsReady (accept_scancode s kb)
unfolding accept_scancode
accept-IsReady s kb r =
    if_IsReady (s == extended_scancode_prefix) (same r true)
      (if_IsReady kb.extended_scancode (same r false) (process_scancode-IsReady s kb r))
  where
    same : {kb : Keyboard} → IsReady kb → (b : Bool) → IsReady (record kb { extended_scancode = b })
    same r b = record {
      valid = r.valid;
      typed = r.typed;
      no_ctrl_right = r.no_ctrl_right;
      no_alt_right = r.no_alt_right;
    }

    if_IsReady : {x y : Keyboard} (b : Bool) → IsReady x → IsReady y → IsReady (if b then x else y)
    if_IsReady true hx hy = hx
    if_IsReady false hx hy = hy

accept_at :
    (status : ℕ) (ins : List ℕ) (past : List Event) (kb kb' : Keyboard) (io' : Io)
    → keyboard_interrupt_handler kb (record { inputs = status ∷ ins; trace = past })
      ≡ some (kb', io')
    → (kb' ≡ kb) ⊎ ((s : ℕ) × (kb' ≡ accept_scancode s kb))
unfolding keyboard_interrupt_handler inb
accept_at status [] past kb kb' io' h = inl (ground arith)
accept_at status (s ∷ ins) past kb kb' io' h =
    elim (Bool-cases (bit_and status keyboard_status_output_full == 0)) [
      | inl empty ↦ inl (ground arith)
      | inr full ↦ inr (s, ground arith)
    ]

-- The handler either leaves the driver alone or accepts one scancode.
pub handler_result :
    (ins : List ℕ) (past : List Event) (kb kb' : Keyboard) (io' : Io)
    → keyboard_interrupt_handler kb (record { inputs = ins; trace = past }) ≡ some (kb', io')
    → (kb' ≡ kb) ⊎ ((s : ℕ) × (kb' ≡ accept_scancode s kb))
handler_result [] past kb kb' io' h = absurd (unfold keyboard_interrupt_handler inb in cc)
handler_result (status ∷ ins) past kb kb' io' h = accept_at status ins past kb kb' io' h

pub handler-IsReady :
    (kb kb' : Keyboard) (io io' : Io)
    → keyboard_interrupt_handler kb io ≡ some (kb', io')
    → IsReady kb
    → IsReady kb'
handler-IsReady kb kb' io io' h r = elim (handler_result io.inputs io.trace kb kb' io' h) [
  | inl same ↦ rw same r
  | inr (s, e) ↦ rw e (accept-IsReady s kb r)
]

pub cleared-IsReady :
    (kb : Keyboard) (k : KeyState)
    → k.ctrl_right ≡ false
    → k.alt_right ≡ false
    → IsReady kb
    → IsReady (record kb { buffer = keyboard_clear_buffer kb.buffer; key_state = k })
cleared-IsReady kb k c a r = record {
  valid = clear-IsValid r.valid;
  typed = unfold keyboard_clear_buffer in tt;
  no_ctrl_right = c;
  no_alt_right = a;
}

init-IsReady :
    (kb kb' : Keyboard) (io io' : Io)
    → keyboard_init kb io ≡ some (kb', io')
    → IsReady kb
    → IsReady kb'
init-IsReady kb kb' io io' h r = rw after (cleared-IsReady kb no_keys refl refl r)
  where
    after : kb' ≡ record kb { buffer = keyboard_clear_buffer kb.buffer; key_state = no_keys }
    after = unfold keyboard_init in ground arith

pub nonblock-IsReady : (kb : Keyboard) → IsReady kb → IsReady (keyboard_getchar_nonblock kb).1
nonblock-IsReady kb r = record {
  valid = unfold keyboard_getchar_nonblock in get-IsValid r.valid;
  typed = unfold keyboard_getchar_nonblock in rw left (Every-dequeue (contents kb.buffer) r.typed);
  no_ctrl_right = unfold keyboard_getchar_nonblock in r.no_ctrl_right;
  no_alt_right = unfold keyboard_getchar_nonblock in r.no_alt_right;
}
  where
    left : contents (keyboard_buffer_get kb.buffer).1 ≡ (dequeue (contents kb.buffer)).1
    left = ap (λ (p : ℕ × List ℕ). p.1) (get_refines r.valid)

pub deliver-eq :
    (irq : Irq) (kb : Keyboard)
    → deliver irq kb ≡ (
        if bit_and irq.status keyboard_status_output_full == 0
        then kb
        else accept_scancode irq.scancode kb)
unfolding deliver inb
deliver-eq irq kb = ground arith

pub deliver-IsReady : (irq : Irq) (kb : Keyboard) → IsReady kb → IsReady (deliver irq kb)
deliver-IsReady irq kb r = elim (Bool-cases (bit_and irq.status keyboard_status_output_full == 0)) [
  | inl empty ↦ rw (deliver-eq irq kb, empty) r
  | inr full ↦ rw (deliver-eq irq kb, full) (accept-IsReady irq.scancode kb r)
]

getchar-IsReady :
    (irqs rest : List Irq) (c : ℕ) (kb kb' : Keyboard)
    → keyboard_getchar irqs kb ≡ some (c, rest, kb')
    → IsReady kb
    → IsReady kb'
unfolding keyboard_getchar
getchar-IsReady [] rest c kb kb' h r =
    let e : kb' ≡ (keyboard_getchar_nonblock kb).1 = ground arith in rw e (nonblock-IsReady kb r)
getchar-IsReady (irq ∷ irqs) rest c kb kb' h r = elim (Bool-cases (keyboard_has_key kb.buffer)) [
  | inl waiting ↦
      let e : kb' ≡ (keyboard_getchar_nonblock kb).1 = ground arith in rw e (nonblock-IsReady kb r)
  | inr empty ↦
      getchar-IsReady irqs rest c (deliver irq kb) kb' (ground arith) (deliver-IsReady irq kb r)
]

Step-IsReady : {kb kb' : Keyboard} → Step kb kb' → IsReady kb → IsReady kb'
Step-IsReady {kb} {kb'} (init io io' h) r = init-IsReady kb kb' io io' h r
Step-IsReady {kb} {kb'} (interrupt io io' h) r = handler-IsReady kb kb' io io' h r
Step-IsReady {kb} {kb'} (getchar irqs rest c h) r = getchar-IsReady irqs rest c kb kb' h r
Step-IsReady {kb} (getchar_nonblock e) r = rw e (nonblock-IsReady kb r)
Step-IsReady {kb} (clear_buffer e) r =
    rw e (cleared-IsReady kb kb.key_state r.no_ctrl_right r.no_alt_right r)

static-IsReady : IsReady static_keyboard
static-IsReady = record {
  valid = omega arith;
  typed = tt;
  no_ctrl_right = refl;
  no_alt_right = refl;
}

-- However uninterrupted calls of the initialisation, interrupts, reads and clearings follow one another from the loaded
-- kernel, and whatever the ports answer: the counters stay inside the 256-byte array and agree with
-- one another, every character that waits is an ASCII character from 1 to 126, and the right
-- control and right alt flags are never set.
pub Reach-IsReady : {kb : Keyboard} → Reach static_keyboard kb → IsReady kb
Reach-IsReady here = static-IsReady
Reach-IsReady (next r s) = Step-IsReady s (Reach-IsReady r)
