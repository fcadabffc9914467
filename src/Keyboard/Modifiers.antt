-- ===== src/Keyboard/Modifiers.antt =====
-- src/keyboard.c: `key_state`, the modifier keys, and the switch of `process_scancode` on them.
use valern.Prelude.{ℕ, Bool, false, not, ◌||◌, Option, none, some, ◌==◌, if◌then◌else◌}

pub record KeyState : Type 0 where
  pub shift_left : Bool
  pub shift_right : Bool
  pub ctrl_left : Bool
  pub ctrl_right : Bool
  pub alt_left : Bool
  pub alt_right : Bool
  pub caps_lock : Bool
  pub num_lock : Bool
  pub scroll_lock : Bool

-- Cleared by the loader, and by the `memset` of `keyboard_init`.
abbrev pub no_keys : KeyState
no_keys = record {
  shift_left = false;
  shift_right = false;
  ctrl_left = false;
  ctrl_right = false;
  alt_left = false;
  alt_right = false;
  caps_lock = false;
  num_lock = false;
  scroll_lock = false;
}

abbrev pub sc_lshift : ℕ
sc_lshift = 0x2A

abbrev pub sc_rshift : ℕ
sc_rshift = 0x36

abbrev pub sc_lctrl : ℕ
sc_lctrl = 0x1D

abbrev pub sc_lalt : ℕ
sc_lalt = 0x38

abbrev pub sc_caps_lock : ℕ
sc_caps_lock = 0x3A

abbrev pub sc_num_lock : ℕ
sc_num_lock = 0x45

abbrev pub sc_scroll_lock : ℕ
sc_scroll_lock = 0x46

-- The switch: `some` is a case, which returns from `process_scancode`; `none` falls through.
unfoldable pub handle_modifier : ℕ → Bool → KeyState → Option KeyState
handle_modifier key key_released k =
    if key == sc_lshift
    then some (record k { shift_left = not key_released })
    else if key == sc_rshift
    then some (record k { shift_right = not key_released })
    else if key == sc_lctrl
    then some (record k { ctrl_left = not key_released })
    else if key == sc_lalt
    then some (record k { alt_left = not key_released })
    else if key == sc_caps_lock
    then some (if not key_released then record k { caps_lock = not k.caps_lock } else k)
    else if key == sc_num_lock
    then some (if not key_released then record k { num_lock = not k.num_lock } else k)
    else if key == sc_scroll_lock
    then some (if not key_released then record k { scroll_lock = not k.scroll_lock } else k)
    else none

unfoldable pub keyboard_shift_pressed : KeyState → Bool
keyboard_shift_pressed k = k.shift_left || k.shift_right

unfoldable pub keyboard_ctrl_pressed : KeyState → Bool
keyboard_ctrl_pressed k = k.ctrl_left || k.ctrl_right

unfoldable pub keyboard_alt_pressed : KeyState → Bool
keyboard_alt_pressed k = k.alt_left || k.alt_right

unfoldable pub keyboard_caps_lock_active : KeyState → Bool
keyboard_caps_lock_active k = k.caps_lock
