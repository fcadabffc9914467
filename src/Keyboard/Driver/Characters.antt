-- ===== src/Keyboard/Driver/Characters.antt =====
-- What src/keyboard.c puts into the key buffer, and what its flags can become.
use native.Mathlib.Decide.{dec_lt}
use valern.Prelude.{
  ℕ, zero, suc, ◌≤◌, ◌<◌, ◌-◌, ◌≡◌, ◌&&◌, true, false, xor, refl, arith, [], ◌∷◌, List, length,
  get_or, Bool, if◌then◌else◌, ltb, passes_below, ◌==◌, not, passes_below-apply, Every,
  Every-append, Bool-cases, Option-cases, inl, inr, ◌∙◌, some,
}
use valern.Keyboard.Modifiers.{
  KeyState, keyboard_shift_pressed, keyboard_ctrl_pressed, handle_modifier,
}
use valern.Keyboard.Layout.{
  apply_ctrl, apply_caps, scancode_to_ascii, scancode_to_ascii_shifted, is_lower, is_upper,
  ascii_of,
}
use valern.Keyboard.Buffer.{key_buffer_size, keyboard_buffer_add}
use valern.Keyboard.Buffer.Queue.{
  Queue, IsValid, contents, enqueue, dequeue, add-IsValid, add_refines,
}
use valern.Keyboard.Driver.{Keyboard, process_key, dispatch_key}

get_or-ge : (xs : List ℕ) (i d : ℕ) → length xs ≤ i → get_or xs i d ≡ d
get_or-ge [] i d h = refl
get_or-ge (x ∷ xs) zero d h = absurd (omega arith)
get_or-ge (x ∷ xs) (suc i) d h = get_or-ge xs i d (omega arith)

abbrev plain : ℕ → ℕ
plain key = get_or scancode_to_ascii key 0

abbrev shifted : ℕ → ℕ
shifted key = get_or scancode_to_ascii_shifted key 0

-- The upper row of a letter is its capital; another key has no letter in either row.
abbrev rows_agree : ℕ → ℕ → Bool
rows_agree lo hi =
    ltb lo 127
    && ltb hi 127
    && (if is_lower lo
        then hi == lo - 32
        else not (is_upper lo) && not (is_lower hi) && not (is_upper hi))

rows_table : passes_below (λ key. rows_agree (plain key) (shifted key)) 58 ≡ true
unfolding passes_below
rows_table = refl

rows : (key : ℕ) → rows_agree (plain key) (shifted key) ≡ true
rows key = elim (dec_lt key 58) [
  | yes h ↦ passes_below-apply 58 key (λ key. rows_agree (plain key) (shifted key)) h rows_table
  | no h ↦ rw (
    get_or-ge scancode_to_ascii key 0 (omega arith),
    get_or-ge scancode_to_ascii_shifted key 0 (omega arith),
  )
]

steps_letter :
    (shift ctrl caps : Bool) (lo : ℕ)
    → 97 ≤ lo
    → lo ≤ 122
    → apply_ctrl ctrl (apply_caps caps shift (if shift then lo - 32 else lo))
      ≡ (if ctrl then lo - 96 else if xor shift caps then lo - 32 else lo)
steps_letter true true true lo a b = ground arith
steps_letter true true false lo a b = ground arith
steps_letter true false true lo a b = ground arith
steps_letter true false false lo a b = ground arith
steps_letter false true true lo a b = ground arith
steps_letter false true false lo a b = ground arith
steps_letter false false true lo a b = ground arith
steps_letter false false false lo a b = ground arith

-- What is no letter passes both steps unchanged.
steps_other :
    (shift ctrl caps : Bool) (c : ℕ)
    → is_lower c ≡ false
    → is_upper c ≡ false
    → apply_ctrl ctrl (apply_caps caps shift c) ≡ c
steps_other shift true caps c l u = rw (l, u, l, u)
steps_other shift false caps c l u = rw (l, u)

-- The steps on a character of rows that agree.
steps_agree :
    (shift ctrl caps : Bool) (lo hi : ℕ)
    → rows_agree lo hi ≡ true
    → apply_ctrl ctrl (apply_caps caps shift (if shift then hi else lo)) ≡ (
        if is_lower lo
        then (if ctrl then lo - 96 else if xor shift caps then lo - 32 else lo)
        else if shift
        then hi
        else lo)
steps_agree shift ctrl caps lo hi h = elim (Bool-cases (is_lower lo)) [
  | inl low ↦
      let e : hi ≡ lo - 32 = ground arith in
      rw (e, low) (steps_letter shift ctrl caps lo (ground arith) (ground arith))
  | inr other ↦ rw other (
      steps_other shift ctrl caps (if shift then hi else lo) (no_lower shift other h)
        (no_upper shift other h))
]
  where
    no_lower :
        (shift : Bool)
        → is_lower lo ≡ false
        → rows_agree lo hi ≡ true
        → is_lower (if shift then hi else lo) ≡ false
    no_lower true other h = ground arith
    no_lower false other h = other

    no_upper :
        (shift : Bool)
        → is_lower lo ≡ false
        → rows_agree lo hi ≡ true
        → is_upper (if shift then hi else lo) ≡ false
    no_upper true other h = ground arith
    no_upper false other h = ground arith

-- A letter key yields, with control, the letter's number in the alphabet; else a capital exactly if
-- one of shift and caps lock is on. Any other key yields its character in the row that shift
-- selects, whatever caps lock and control are.
pub ascii_of_lem :
    (k : KeyState) (key : ℕ)
    → let shift = keyboard_shift_pressed k in
      let letter = get_or scancode_to_ascii key 0 in
      ascii_of k key ≡ (
        if is_lower letter
        then (if keyboard_ctrl_pressed k
            then letter - 96
            else if xor shift k.caps_lock
            then letter - 32
            else letter)
        else if shift
        then get_or scancode_to_ascii_shifted key 0
        else letter)
unfolding ascii_of keyboard_shift_pressed keyboard_ctrl_pressed
ascii_of_lem k key =
    steps_agree (keyboard_shift_pressed k) (keyboard_ctrl_pressed k) k.caps_lock (plain key)
      (shifted key) (rows key)

pub ascii_of-lt : (k : KeyState) (key : ℕ) → ascii_of k key < 127
ascii_of-lt k key = rw (ascii_of_lem k key) (ground (arith, rows key))

-- Characters that the driver makes: neither 0 nor DEL nor beyond ASCII.
abbrev pub IsTyped : ℕ → Type 0
IsTyped c = (1 ≤ c) × (c < 127)

-- What holds of the driver between two calls that no interrupt has broken into.
pub record IsReady (kb : Keyboard) : Type 0 where
  pub valid : IsValid kb.buffer
  pub typed : Every IsTyped (contents kb.buffer)
  pub no_ctrl_right : kb.key_state.ctrl_right ≡ false
  pub no_alt_right : kb.key_state.alt_right ≡ false

Every-enqueue : (c : ℕ) (q : Queue) → IsTyped c → Every IsTyped q → Every IsTyped (enqueue c q)
unfolding enqueue
Every-enqueue c q hc hq = elim (Bool-cases (ltb (length q) key_buffer_size)) [
  | inl room ↦ rw room (Every-append IsTyped q (c ∷ []) (hq, (hc, tt)))
  | inr full ↦ rw full hq
]

pub Every-dequeue : (q : Queue) → Every IsTyped q → Every IsTyped (dequeue q).1
unfolding dequeue
Every-dequeue [] h = tt
Every-dequeue (c ∷ q) h = h.1

add-IsReady :
    (c : ℕ) (kb : Keyboard)
    → IsTyped c
    → IsReady kb
    → IsReady (record kb { buffer = keyboard_buffer_add c kb.buffer })
add-IsReady c kb hc r = record {
  valid = add-IsValid c r.valid;
  typed = rw (add_refines c r.valid) (Every-enqueue c (contents kb.buffer) hc r.typed);
  no_ctrl_right = r.no_ctrl_right;
  no_alt_right = r.no_alt_right;
}

process_key-IsReady :
    (key : ℕ) (released : Bool) (kb : Keyboard) → IsReady kb → IsReady (process_key key released kb)
unfolding process_key
process_key-IsReady key true kb r = r
process_key-IsReady key false kb r = elim (Bool-cases (ltb key (length scancode_to_ascii))) [
  | inl inside ↦ elim (Bool-cases (ascii_of kb.key_state key == 0)) [
    | inl none_made ↦ rw (inside, none_made) r
    | inr made ↦
        rw (inside, made, not)
          (add-IsReady (ascii_of kb.key_state key) kb (ground arith, ascii_of-lt kb.key_state key)
            r)
  ]
  | inr outside ↦ rw outside r
]

pub handle_modifier_right :
    (key : ℕ) (released : Bool) (k k' : KeyState)
    → handle_modifier key released k ≡ some k'
    → (k'.ctrl_right ≡ k.ctrl_right) × (k'.alt_right ≡ k.alt_right)
unfolding handle_modifier
handle_modifier_right key released k k' h = ground arith

pub dispatch_key-IsReady :
    (key : ℕ) (released : Bool) (kb : Keyboard)
    → IsReady kb
    → IsReady (dispatch_key key released kb)
unfolding dispatch_key
dispatch_key-IsReady key released kb r =
    elim (Option-cases (handle_modifier key released kb.key_state)) [
      | inl e ↦ rw (e, dispatch_key) (process_key-IsReady key released kb r)
      | inr (k', e) ↦
          rw (e, dispatch_key)
            (record {
              valid = r.valid;
              typed = r.typed;
              no_ctrl_right =
                  (handle_modifier_right key released kb.key_state k' e).0 ∙ r.no_ctrl_right;
              no_alt_right =
                  (handle_modifier_right key released kb.key_state k' e).1 ∙ r.no_alt_right;
            })
    ]
