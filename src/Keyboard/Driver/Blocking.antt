-- ===== src/Keyboard/Driver/Blocking.antt =====
-- `keyboard_getchar` and `keyboard_getchar_nonblock` of src/keyboard.c as a client sees them.
use valern.Prelude.{
  ℕ, List, [], ◌∷◌, ◌++◌, Option, some, none, Bool, true, false, ◌≡◌, ◌↔◌, refl, sym, ap, ◌∙◌, inl,
  inr, arith, Bool-cases, append-nil, append_assoc, Option-cases, bit_and, ltb, ◌==◌, length, not,
  if◌then◌else◌,
}
use valern.Keyboard.Driver.{
  Keyboard, Irq, deliver, deliver_all, keyboard_getchar, keyboard_getchar_nonblock, process_key,
  process_scancode, accept_scancode, dispatch_key, keyboard_status_output_full,
  extended_scancode_prefix, key_released_mask,
}
use valern.Keyboard.Driver.Characters.{IsReady}
use valern.Keyboard.Driver.Reach.{deliver-IsReady, deliver-eq}
use valern.Keyboard.Buffer.Queue.{
  contents, enqueue, dequeue, get_refines, add_refines, Queue, length-contents,
}
use valern.Keyboard.Buffer.{
  keyboard_buffer_add, keyboard_has_key, key_buffer_size, keyboard_buffer_get,
}
use valern.Keyboard.Layout.{scancode_to_ascii, ascii_of}
use valern.Keyboard.Modifiers.{handle_modifier}

-- The characters that wait in `kb'` are those of `kb`, with more behind them.
abbrev Grows : Keyboard → Keyboard → Type 0
Grows kb kb' = (more : List ℕ) × (contents kb'.buffer ≡ contents kb.buffer ++ more)

Grows-refl : (kb : Keyboard) → Grows kb kb
Grows-refl kb = ([], sym (append-nil (contents kb.buffer)))

Grows-trans : (x y z : Keyboard) → Grows x y → Grows y z → Grows x z
Grows-trans x y z (m, p) (n, q) =
    (m ++ n, q ∙ ap (λ l. l ++ n) p ∙ append_assoc (contents x.buffer) m n)

Grows-add :
    (c : ℕ) (kb : Keyboard)
    → IsReady kb
    → Grows kb (record kb { buffer = keyboard_buffer_add c kb.buffer })
Grows-add c kb r = elim (Bool-cases (ltb (length (contents kb.buffer)) key_buffer_size)) [
  | inl room ↦ (c ∷ [], add_refines c r.valid ∙ unfold enqueue in rw room)
  | inr full ↦ (
    [],
    add_refines c r.valid ∙ unfold enqueue in rw full (sym (append-nil (contents kb.buffer))),
  )
]

Grows-if : (kb x y : Keyboard) (b : Bool) → Grows kb x → Grows kb y → Grows kb (if b then x else y)
Grows-if kb x y true hx hy = hx
Grows-if kb x y false hx hy = hy

Grows-process_key :
    (key : ℕ) (released : Bool) (kb : Keyboard)
    → IsReady kb
    → Grows kb (process_key key released kb)
unfolding process_key
Grows-process_key key released kb r = Grows-if kb _ _ released (Grows-refl kb) (
    Grows-if kb _ _ (ltb key (length scancode_to_ascii))
      (Grows-if kb _ _ (not (ascii_of kb.key_state key == 0))
        (Grows-add (ascii_of kb.key_state key) kb r) (Grows-refl kb))
      (Grows-refl kb))

Grows-process_scancode : (s : ℕ) (kb : Keyboard) → IsReady kb → Grows kb (process_scancode s kb)
unfolding process_scancode dispatch_key
Grows-process_scancode s kb r = through (bit_and s 0x7F) (not (bit_and s key_released_mask == 0))
  where
    through : (key : ℕ) (released : Bool) → Grows kb (dispatch_key key released kb)
    through key released = elim (Option-cases (handle_modifier key released kb.key_state)) [
      | inl e ↦ rw (e, dispatch_key) (Grows-process_key key released kb r)
      | inr (k, e) ↦ rw (e, dispatch_key) (Grows-refl kb)
    ]

Grows-accept : (s : ℕ) (kb : Keyboard) → IsReady kb → Grows kb (accept_scancode s kb)
unfolding accept_scancode
Grows-accept s kb r =
    Grows-if kb _ _ (s == extended_scancode_prefix) (Grows-refl kb)
      (Grows-if kb _ _ kb.extended_scancode (Grows-refl kb) (Grows-process_scancode s kb r))

Grows-deliver : (irq : Irq) (kb : Keyboard) → IsReady kb → Grows kb (deliver irq kb)
Grows-deliver irq kb r = elim (Bool-cases (bit_and irq.status keyboard_status_output_full == 0)) [
  | inl empty ↦ rw (deliver-eq irq kb, empty) (Grows-refl kb)
  | inr full ↦ rw (deliver-eq irq kb, full) (Grows-accept irq.scancode kb r)
]

pub Grows-deliver_all :
    (irqs : List Irq) (kb : Keyboard) → IsReady kb → Grows kb (deliver_all irqs kb)
Grows-deliver_all [] kb r = Grows-refl kb
Grows-deliver_all (irq ∷ irqs) kb r =
    Grows-trans kb (deliver irq kb) (deliver_all irqs (deliver irq kb)) (Grows-deliver irq kb r)
      (Grows-deliver_all irqs (deliver irq kb) (deliver-IsReady irq kb r))

abbrev pub first : Queue → Option ℕ
first [] = none
first (c ∷ q) = some c

-- The character that a call of `keyboard_getchar` returns, if it returns.
abbrev pub returned : Option (ℕ × List Irq × Keyboard) → Option ℕ
returned none = none
returned (some (c, irqs, kb)) = some c

pub first-waiting :
    (kb : Keyboard)
    → IsReady kb
    → keyboard_has_key kb.buffer ≡ true
    → (q : Queue) × (contents kb.buffer ≡ (keyboard_getchar_nonblock kb).0 ∷ q)
first-waiting kb r waiting = go (contents kb.buffer) refl
  where
    go :
        (q : Queue)
        → contents kb.buffer ≡ q
        → (q : Queue) × (contents kb.buffer ≡ (keyboard_getchar_nonblock kb).0 ∷ q)
    go [] e =
        absurd (unfold keyboard_has_key in ground (arith, length-contents kb.buffer, ap length e))
    go (c ∷ q) e = (q, e ∙ ap (λ c. c ∷ q) (sym taken))
      where
        removed : dequeue (contents kb.buffer) ≡ (c, q)
        removed = unfold dequeue in rw e

        taken : (keyboard_getchar_nonblock kb).0 ≡ c
        taken =
            unfold keyboard_getchar_nonblock in
            ap (λ (p : ℕ × List ℕ). p.0) (get_refines r.valid ∙ removed)

pub none-waiting : (kb : Keyboard) → keyboard_has_key kb.buffer ≡ false → contents kb.buffer ≡ []
none-waiting kb h =
    let e : kb.buffer.buffer_count ≡ 0 = unfold keyboard_has_key in ground arith in rw e

-- From a state that the driver can be in, `keyboard_getchar` returns, if the interrupts to come put
-- any character into the queue, the first that then waits, and halts for ever if they put none.
pub getchar_lem :
    (irqs : List Irq) (kb : Keyboard)
    → IsReady kb
    → returned (keyboard_getchar irqs kb) ≡ first (contents (deliver_all irqs kb).buffer)
unfolding keyboard_getchar
getchar_lem [] kb r = elim (Bool-cases (keyboard_has_key kb.buffer)) [
  | inl waiting ↦ rw (waiting, (first-waiting kb r waiting).1)
  | inr empty ↦ rw (empty, none-waiting kb empty)
]
getchar_lem (irq ∷ irqs) kb r = elim (Bool-cases (keyboard_has_key kb.buffer)) [
  | inl waiting ↦
      rw (waiting, (Grows-deliver_all (irq ∷ irqs) kb r).1, (first-waiting kb r waiting).1)
  | inr empty ↦ rw empty (getchar_lem irqs (deliver irq kb) (deliver-IsReady irq kb r))
]

-- From a state that the driver can be in, `keyboard_getchar_nonblock` returns 0 exactly if no
-- character waits.
nonblock-eq-zero_iff :
    (kb : Keyboard)
    → IsReady kb
    → ((keyboard_getchar_nonblock kb).0 ≡ 0) ↔ (contents kb.buffer ≡ [])
nonblock-eq-zero_iff kb r = elim (Bool-cases (keyboard_has_key kb.buffer)) [
  | inl waiting ↦
      let (q, e) = first-waiting kb r waiting in
      let typed = (rw e at r.typed) in
      (λ z. absurd (omega (arith, typed.0)), λ nil. absurd (omega (arith, ap length (sym e ∙ nil))))
  | inr empty ↦ (
    λ z. none-waiting kb empty,
    λ nil. unfold keyboard_getchar_nonblock keyboard_buffer_get keyboard_has_key in ground arith,
  )
]
