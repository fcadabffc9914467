-- ===== src/Keyboard/Driver/Typing.antt =====
-- What the interrupts of src/keyboard.c type, as a function of the scancodes and the keys that are held.
use valern.Prelude.{
  ap₂, Bool-cases, Option-cases, inl, inr, some, none, sym, ℕ, ◌%◌, ◌<◌, ◌≡◌, ◌||◌, Bool, true,
  false, bit_and, List, [], ◌∷◌, ◌++◌, if◌then◌else◌, ◌==◌, ltb, leb, refl, arith, ap, ◌∙◌,
}
use valern.Keyboard.Modifiers.{
  KeyState, sc_lshift, sc_rshift, sc_lctrl, sc_lalt, sc_caps_lock, sc_num_lock, sc_scroll_lock,
  handle_modifier,
}
use valern.Keyboard.Layout.{ascii_of}
use valern.Keyboard.Buffer.{keyboard_buffer_add}
use valern.Keyboard.Buffer.Queue.{enqueue, add_refines, contents}
use valern.Keyboard.Driver.Reach.{deliver-eq}
use valern.Keyboard.Driver.{
  deliver, accept_scancode, Keyboard, Irq, process_scancode, process_key, dispatch_key,
  keyboard_status_output_full, extended_scancode_prefix,
}
use valern.Keyboard.Driver.Characters.{IsReady}
use valern.Keyboard.Driver.History.{next_keys, process_scancode_split, process_scancode_keys}

abbrev is_modifier : ℕ → Bool
is_modifier key =
    (key == sc_lshift)
    || (key == sc_rshift)
    || (key == sc_lctrl)
    || (key == sc_lalt)
    || (key == sc_caps_lock)
    || (key == sc_num_lock)
    || (key == sc_scroll_lock)

-- A press of one of the 58 keys of the tables types its character, if it has one; a release and a
-- modifier type nothing.
abbrev pub typed_by : KeyState → ℕ → List ℕ
typed_by k s = if leb 58 s || is_modifier s || (ascii_of k s == 0) then [] else ascii_of k s ∷ []

-- An interrupt without data does nothing; the prefix and the scancode behind it are dropped.
abbrev pub strokes : List Irq → KeyState → Bool → List ℕ
strokes [] k extended = []
strokes (irq ∷ irqs) k extended =
    let skipped = strokes irqs k extended in
    let prefixed = strokes irqs k true in
    let dropped = strokes irqs k false in
    let s = irq.scancode in
    let rest = strokes irqs (next_keys s k) false in
    if bit_and irq.status keyboard_status_output_full == 0
    then skipped
    else if s == extended_scancode_prefix
    then prefixed
    else if extended
    then dropped
    else typed_by k s ++ rest

modifier-of_none :
    (key : ℕ) (released : Bool) (k : KeyState)
    → handle_modifier key released k ≡ none
    → is_modifier key ≡ false
unfolding handle_modifier
modifier-of_none key released k h = ground arith

modifier-of_some :
    (key : ℕ) (released : Bool) (k k' : KeyState)
    → handle_modifier key released k ≡ some k'
    → is_modifier key ≡ true
unfolding handle_modifier
modifier-of_some key released k k' h = ground arith

-- A character in the empty buffer.
alone :
    (c : ℕ) (kb : Keyboard)
    → IsReady kb
    → contents kb.buffer ≡ []
    → contents (keyboard_buffer_add c kb.buffer) ≡ c ∷ []
unfolding enqueue
alone c kb r e = add_refines c r.valid ∙ ap (enqueue c) e

process_key-released : (key : ℕ) (kb : Keyboard) → process_key key true kb ≡ kb
unfolding process_key
process_key-released key kb = refl

process_key-types :
    (s : ℕ) (kb : Keyboard)
    → is_modifier s ≡ false
    → IsReady kb
    → contents kb.buffer ≡ []
    → contents (process_key s false kb).buffer ≡ typed_by kb.key_state s
unfolding process_key
process_key-types s kb m r e = elim (Bool-cases (leb 58 s)) [
  | inl outside ↦
      let beyond : ltb s 58 ≡ false = ground arith in rw (process_key, beyond, outside) e
  | inr inside ↦ elim (Bool-cases (ascii_of kb.key_state s == 0)) [
    | inl none_typed ↦
        let within : ltb s 58 ≡ true = ground arith in
        rw (process_key, within, inside, m, none_typed) e
    | inr typed ↦
        let within : ltb s 58 ≡ true = ground arith in
        rw (process_key, within, inside, m, typed) (alone (ascii_of kb.key_state s) kb r e)
  ]
]

abbrev waiting : Keyboard → List ℕ
waiting kb = contents kb.buffer

-- On an empty buffer a scancode leaves what it types.
process_scancode-types :
    (s : ℕ) (kb : Keyboard)
    → s < 256
    → IsReady kb
    → contents kb.buffer ≡ []
    → contents (process_scancode s kb).buffer ≡ typed_by kb.key_state s
unfolding dispatch_key
process_scancode-types s kb h r e =
    ap waiting (process_scancode_split s kb h)
    ∙ elim (Option-cases (handle_modifier (s % 128) (leb 128 s) kb.key_state)) [
      | inr (k', f) ↦
          let modifier = modifier-of_some (s % 128) (leb 128 s) kb.key_state k' f in
          let silent : typed_by kb.key_state s ≡ [] = ground (arith, modifier) in
          rw (dispatch_key, f) (e ∙ sym silent)
      | inl f ↦
          let plain = modifier-of_none (s % 128) (leb 128 s) kb.key_state f in
          let falls : dispatch_key (s % 128) (leb 128 s) kb ≡ process_key (s % 128) (leb 128 s) kb =
            rw (dispatch_key, f) refl in
          elim (Bool-cases (leb 128 s)) [
            | inl release ↦
                let silent : typed_by kb.key_state s ≡ [] = ground arith in
                ap waiting (
                  falls
                  ∙ ap (λ b. process_key (s % 128) b kb) release
                  ∙ process_key-released (s % 128) kb)
                ∙ e
                ∙ sym silent
            | inr press ↦
                let key : s % 128 ≡ s = ground arith in
                let pressed : is_modifier s ≡ false = rw (← key) plain in
                ap waiting (falls ∙ ap₂ (λ k b. process_key k b kb) key press)
                ∙ process_key-types s kb pressed r e
          ]
    ]

-- What one interrupt does to an empty buffer, the keys that are held and the prefix.
pub record Types (irq : Irq) (kb : Keyboard) : Type 0 where
  pub typed : List ℕ
  pub after_keys : KeyState
  pub after_prefix : Bool
  pub waits : contents (deliver irq kb).buffer ≡ typed
  pub keys : (deliver irq kb).key_state ≡ after_keys
  pub prefix : (deliver irq kb).extended_scancode ≡ after_prefix
  pub steps :
      (irqs : List Irq)
      → strokes (irq ∷ irqs) kb.key_state kb.extended_scancode
        ≡ typed ++ strokes irqs after_keys after_prefix

process_scancode-prefix :
    (s : ℕ) (kb : Keyboard) → (process_scancode s kb).extended_scancode ≡ kb.extended_scancode
unfolding process_scancode dispatch_key process_key
process_scancode-prefix s kb = ground arith

-- The state that the handler leaves is known.
Types-of_handled :
    (irq : Irq) (kb kb' : Keyboard) (after_keys : KeyState) (after_prefix : Bool)
    → deliver irq kb ≡ kb'
    → kb'.key_state ≡ after_keys
    → kb'.extended_scancode ≡ after_prefix
    → ((irqs : List Irq)
        → strokes (irq ∷ irqs) kb.key_state kb.extended_scancode
          ≡ contents kb'.buffer ++ strokes irqs after_keys after_prefix)
    → Types irq kb
Types-of_handled irq kb kb' after_keys after_prefix same keys prefix steps = record {
  typed = contents kb'.buffer;
  after_keys = after_keys;
  after_prefix = after_prefix;
  waits = ap waiting same;
  keys = ap (λ (k : Keyboard). k.key_state) same ∙ keys;
  prefix = ap (λ (k : Keyboard). k.extended_scancode) same ∙ prefix;
  steps = steps;
}

pub deliver-Types :
    (irq : Irq) (kb : Keyboard)
    → irq.scancode < 256
    → IsReady kb
    → contents kb.buffer ≡ []
    → Types irq kb
unfolding accept_scancode
deliver-Types irq kb h r e =
    elim (Bool-cases (bit_and irq.status keyboard_status_output_full == 0)) [
      | inl no_data ↦
          Types-of_handled irq kb kb kb.key_state kb.extended_scancode
            (deliver-eq irq kb ∙ rw no_data refl) refl refl (λ irqs. rw (no_data, e) refl)
      | inr there ↦ elim (Bool-cases (irq.scancode == extended_scancode_prefix)) [
        | inl prefixed ↦
            Types-of_handled irq kb (record kb { extended_scancode = true }) kb.key_state true
              (deliver-eq irq kb ∙ rw (there, accept_scancode, prefixed) refl) refl refl
              (λ irqs. rw (there, prefixed, e) refl)
        | inr plain ↦ elim (Bool-cases kb.extended_scancode) [
          | inl extended ↦
              Types-of_handled irq kb (record kb { extended_scancode = false }) kb.key_state false
                (deliver-eq irq kb ∙ rw (there, accept_scancode, plain, extended) refl) refl refl
                (λ irqs. rw (there, plain, extended, e) refl)
          | inr ready ↦
              let keys = process_scancode_keys irq.scancode kb h in
              let types = process_scancode-types irq.scancode kb h r e in
              Types-of_handled irq kb (process_scancode irq.scancode kb)
                (next_keys irq.scancode kb.key_state) false
                (deliver-eq irq kb ∙ rw (there, accept_scancode, plain, ready) refl) keys
                (process_scancode-prefix irq.scancode kb ∙ ready)
                (λ irqs.
                  rw (there, plain, ready) refl
                  ∙ ap (λ l. l ++ strokes irqs (next_keys irq.scancode kb.key_state) false)
                      (sym types))
        ]
      ]
    ]
