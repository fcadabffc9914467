-- ===== src/Keyboard/Driver/History.antt =====
-- `process_scancode` of src/keyboard.c against the history of the modifier keys.
use valern.Prelude.{
  leb, ℕ, ◌+◌, ◌%◌, ◌<◌, Bool, true, false, not, List, [], ◌∷◌, ◌≡◌, refl, arith, ◌==◌,
  if◌then◌else◌, Every, bit_and-low_bits, bit_and-top_bit, ap,
}
use valern.Keyboard.Modifiers.{
  KeyState, sc_lshift, sc_rshift, sc_lctrl, sc_lalt, sc_caps_lock, sc_num_lock, sc_scroll_lock,
  handle_modifier,
}
use valern.Keyboard.Driver.{Keyboard, process_key, dispatch_key, process_scancode}

abbrev pub process_all : List ℕ → Keyboard → Keyboard
process_all [] kb = kb
process_all (s ∷ ss) kb = process_all ss (process_scancode s kb)

-- Is the key down after the scancode? A press is the key's code, a release the code plus 128.
abbrev pub now_held : ℕ → ℕ → Bool → Bool
now_held key s before = if s == key then true else if s == key + 128 then false else before

abbrev pub now_locked : ℕ → ℕ → Bool → Bool
now_locked key s before = if s == key then not before else before

-- The key's last event decides.
abbrev pub held : ℕ → Bool → List ℕ → Bool
held key before [] = before
held key before (s ∷ ss) = held key (now_held key s before) ss

-- The parity of the presses decides.
abbrev pub locked : ℕ → Bool → List ℕ → Bool
locked key before [] = before
locked key before (s ∷ ss) = locked key (now_locked key s before) ss

abbrev pub next_keys : ℕ → KeyState → KeyState
next_keys s k = record k {
  shift_left = now_held sc_lshift s k.shift_left;
  shift_right = now_held sc_rshift s k.shift_right;
  ctrl_left = now_held sc_lctrl s k.ctrl_left;
  alt_left = now_held sc_lalt s k.alt_left;
  caps_lock = now_locked sc_caps_lock s k.caps_lock;
  num_lock = now_locked sc_num_lock s k.num_lock;
  scroll_lock = now_locked sc_scroll_lock s k.scroll_lock;
}

pub process_key_keys :
    (key : ℕ) (released : Bool) (kb : Keyboard)
    → (process_key key released kb).key_state ≡ kb.key_state
unfolding process_key
process_key_keys key released kb = ground arith

-- A byte is split into the key's code and the release bit.
pub process_scancode_split :
    (s : ℕ) (kb : Keyboard)
    → s < 256
    → process_scancode s kb ≡ dispatch_key (s % 128) (leb 128 s) kb
unfolding process_scancode
process_scancode_split s kb h =
    rw (bit_and-low_bits s h, bit_and-top_bit s h)
      (ap (λ b. dispatch_key (s % 128) b kb) (ground arith))

pub process_scancode_keys :
    (s : ℕ) (kb : Keyboard) → s < 256 → (process_scancode s kb).key_state ≡ next_keys s kb.key_state
unfolding dispatch_key handle_modifier
process_scancode_keys s kb h =
    rw (process_scancode_split s kb h) (ground (arith, process_key_keys (s % 128) (leb 128 s) kb))

-- After any sequence of byte scancodes, each of shift left and right, control left and alt left is
-- recorded as held exactly as the last press or release of that key says, each of the three locks
-- has flipped once for every press of its key, and the right control and alt flags are unchanged.
pub process_all_keys :
    (ss : List ℕ) (kb : Keyboard)
    → Every (λ s. s < 256) ss
    → let k = kb.key_state in
      (process_all ss kb).key_state ≡ record k {
        shift_left = held sc_lshift k.shift_left ss;
        shift_right = held sc_rshift k.shift_right ss;
        ctrl_left = held sc_lctrl k.ctrl_left ss;
        alt_left = held sc_lalt k.alt_left ss;
        caps_lock = locked sc_caps_lock k.caps_lock ss;
        num_lock = locked sc_num_lock k.num_lock ss;
        scroll_lock = locked sc_scroll_lock k.scroll_lock ss;
      }
process_all_keys [] kb h = refl
process_all_keys (s ∷ ss) kb h =
    rw (process_all_keys ss (process_scancode s kb) h.1, process_scancode_keys s kb h.0)
