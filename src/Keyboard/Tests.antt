-- ===== src/Keyboard/Tests.antt =====
-- The keyboard driver at concrete inputs: runs of the model, and its theorems applied.
use valern.Prelude.{ℕ, List, [], ◌∷◌, ◌≡◌, ◌↔◌, refl, some, arith, true, ◌+◌, length, ◌%◌, ◌-◌}
use valern.Keyboard.Buffer.{
  static_buffer, keyboard_has_key, keyboard_buffer_add, keyboard_buffer_get, KeyBuffer,
}
use valern.Keyboard.Buffer.Queue.{
  run, run_queue, add, get, has_key, clear, IsValid, run_refines, contents, add-IsValid,
}
use valern.Keyboard.Driver.Init.{
  Session, Poll, IsSession, keyboard_init_lem, session_inputs, writes, is_polite,
}
use valern.Keyboard.Driver.{
  process_scancode, Irq, keyboard_getchar, keyboard_getchar_nonblock, Keyboard, dispatch_key,
  static_keyboard, deliver, process_key, keyboard_init, accept_scancode, keyboard_interrupt_handler,
}
use valern.Keyboard.Driver.Characters.{IsReady, ascii_of_lem}
use valern.Keyboard.Driver.History.{process_all, process_all_keys}
use valern.Keyboard.Modifiers.{
  keyboard_shift_pressed, keyboard_ctrl_pressed, no_keys, handle_modifier,
}
use valern.Keyboard.Driver.Blocking.{returned}
use valern.Keyboard.Buffer.Arrivals.{arrive}
use valern.Keyboard.Buffer.Interleaved.{
  get_with, clear_with, get_with_lem, get_with-IsValid_iff, clear_with-IsValid_iff,
}
use valern.Port.{Io, inb}
use valern.Keyboard.Driver.Races.{
  outside, Run, start, then_access, test, take, move_tail, load_count, store_count, interrupted,
}
use valern.Keyboard.Driver.Races.Safe.{IsSafe, Run-IsSafe}
use valern.Keyboard.Driver.Reach.{Reach-IsReady, here}
use valern.Keyboard.Layout.{ascii_of}
use valern.Keyboard.Driver.Early.{seen, getchar_with, stuck, getchar_with_lem}

-- ctrl+C, then shift+a, caps lock, s, and an arrow key that is ignored
abbrev typing : List ℕ
typing = 0x1D ∷ 0x2E ∷ 0xAE ∷ 0x9D ∷ 0x2A ∷ 0x1E ∷ 0x9E ∷ 0xAA ∷ 0x3A ∷ 0xBA ∷ 0x1F ∷ []

typing_runs : contents (process_all typing static_keyboard).buffer ≡ 3 ∷ b'A' ∷ b'S' ∷ []
unfolding process_scancode dispatch_key process_key handle_modifier ascii_of keyboard_buffer_add
typing_runs = refl

abbrev pub press : ℕ → Irq
press s = record { status = 0x1D; scancode = s }

abbrev idle : Irq
idle = record { status = 0x1C; scancode = 0x1E }

arrow_ignored :
    returned (keyboard_getchar (press 0xE0 ∷ press 0x1E ∷ idle ∷ press 0x30 ∷ []) static_keyboard)
    ≡ some b'b'
unfolding keyboard_getchar keyboard_has_key deliver inb accept_scancode process_scancode
    dispatch_key process_key handle_modifier ascii_of keyboard_buffer_add keyboard_buffer_get
    keyboard_getchar_nonblock
arrow_ignored = refl

static-IsValid : IsValid static_buffer
static-IsValid = omega arith

pub static-IsReady : IsReady static_keyboard
static-IsReady = Reach-IsReady here

run_refines_example :
    run (add 7 ∷ add 8 ∷ get ∷ has_key ∷ clear ∷ get ∷ []) static_buffer
    ≡ run_queue (add 7 ∷ add 8 ∷ get ∷ has_key ∷ clear ∷ get ∷ []) []
run_refines_example = run_refines (add 7 ∷ add 8 ∷ get ∷ has_key ∷ clear ∷ get ∷ []) static-IsValid

abbrev a_pressed : Keyboard
a_pressed = deliver (press 0x1E) static_keyboard

abbrev tail_moved : Keyboard
tail_moved = record a_pressed {
  buffer = record a_pressed.buffer { buffer_tail = (a_pressed.buffer.buffer_tail + 1) % 256 };
}

-- The key b comes between the load and the store of the count, which the read of a then overwrites.
abbrev b_lost : Keyboard
b_lost = record (deliver (press 0x30) tail_moved) {
  buffer = record (deliver (press 0x30) tail_moved).buffer {
    buffer_count = tail_moved.buffer.buffer_count - 1;
  };
}

b_lost-Run : Run outside b_lost
unfolding deliver inb keyboard_interrupt_handler accept_scancode process_scancode dispatch_key
    process_key handle_modifier ascii_of keyboard_buffer_add
b_lost-Run =
    then_access
      (then_access
        (then_access
          (then_access
            (then_access (then_access (then_access start (interrupted (press 0x1E))) (test refl))
              take)
            move_tail)
          load_count)
        (interrupted (press 0x30)))
      store_count

Run-IsSafe_example : IsSafe outside b_lost
Run-IsSafe_example = Run-IsSafe b_lost-Run

abbrev shifts : List ℕ
shifts = 0x2A ∷ 0x3A ∷ 0x36 ∷ 0xAA ∷ 0x3A ∷ 0x3A ∷ []

process_all_keys_example :
    (process_all shifts static_keyboard).key_state
    ≡ record no_keys { shift_right = true; caps_lock = true }
process_all_keys_example = process_all_keys shifts static_keyboard (omega arith)

-- caps lock and shift on the key a give the small letter
ascii_of_example : ascii_of (record no_keys { shift_left = true; caps_lock = true }) 0x1E ≡ b'a'
unfolding keyboard_shift_pressed keyboard_ctrl_pressed
ascii_of_example = ascii_of_lem (record no_keys { shift_left = true; caps_lock = true }) 0x1E

-- one busy status, then free; full at once
abbrev free_poll : Poll
free_poll = record { busy = 0x02 ∷ []; ready = 0x00 }

abbrev full_poll : Poll
full_poll = record { busy = []; ready = 0x01 }

abbrev pub session : Session
session = record {
  enable = free_poll;
  ask = free_poll;
  answered = full_poll;
  config = 0x75;
  set = free_poll;
  set_byte = free_poll;
  select = free_poll;
  acknowledged = full_poll;
  ack = 0xFA;
  one = free_poll;
  acknowledged' = full_poll;
  ack' = 0xFA;
}

pub session-IsSession : IsSession session
session-IsSession = record {
  enable_free = ((refl, tt), refl);
  ask_free = ((refl, tt), refl);
  answered_full = (tt, refl);
  set_free = ((refl, tt), refl);
  set_byte_free = ((refl, tt), refl);
  select_free = ((refl, tt), refl);
  acknowledged_full = (tt, refl);
  one_free = ((refl, tt), refl);
  acknowledged_full' = (tt, refl);
}

keyboard_init_example :
    (kb' : Keyboard) × (io' : Io) × (keyboard_init static_keyboard
        (record { inputs = session_inputs session []; trace = [] })
      ≡ some (kb', io'))
    × (io'.inputs ≡ [])
    × (writes io'.trace
        ≡ (0x64, 0xAE)
          ∷ (0x64, 0x20)
          ∷ (0x64, 0x60)
          ∷ (0x60, 0x65)
          ∷ (0x60, 0xF0)
          ∷ (0x60, 0x01)
          ∷ [])
    × (is_polite io'.trace ≡ true)
    × (contents kb'.buffer ≡ [])
    × (kb'.key_state ≡ no_keys)
keyboard_init_example = keyboard_init_lem session [] static_keyboard session-IsSession

abbrev one_key : KeyBuffer
one_key = keyboard_buffer_add b'a' static_buffer

one_key-IsValid : IsValid one_key
one_key-IsValid = add-IsValid b'a' static-IsValid

-- Three characters arrive while the first one is read, the last between the load and the store of the
-- count.
get_with_example : get_with (98 ∷ []) [] (99 ∷ []) (100 ∷ []) one_key ≡ (
  b'a',
  record (keyboard_buffer_get (arrive (98 ∷ 99 ∷ 100 ∷ []) one_key)).1 { buffer_count = 2 },
)
unfolding keyboard_buffer_get keyboard_buffer_add arrive
get_with_example = get_with_lem (98 ∷ []) [] (99 ∷ []) (100 ∷ []) one_key one_key-IsValid

get_with-IsValid_example :
    IsValid (get_with (98 ∷ []) [] (99 ∷ []) (100 ∷ []) one_key).1 ↔ (length {A = ℕ} (100 ∷ []) ≡ 0)
unfolding keyboard_buffer_add
get_with-IsValid_example =
    get_with-IsValid_iff (98 ∷ []) [] (99 ∷ []) (100 ∷ []) one_key one_key-IsValid (omega arith)
      (omega arith)

clear_with_example :
    IsValid (clear_with (98 ∷ []) [] static_buffer)
    ↔ (length {A = ℕ} (98 ∷ []) + length {A = ℕ} [] ≡ 0)
clear_with_example = clear_with-IsValid_iff (98 ∷ []) [] static_buffer static-IsValid (omega arith)

-- The key a between the first test and the `hlt`, and nothing later.
getchar_with_example :
    seen (getchar_with [] (press 0x1E ∷ []) static_keyboard)
    ≡ stuck (deliver (press 0x1E) static_keyboard)
getchar_with_example = getchar_with_lem [] (press 0x1E ∷ []) static_keyboard static-IsReady

-- It is in the buffer.
lost_key : contents (deliver (press 0x1E) static_keyboard).buffer ≡ b'a' ∷ []
unfolding deliver inb keyboard_interrupt_handler accept_scancode process_scancode dispatch_key
    process_key handle_modifier ascii_of keyboard_buffer_add
lost_key = refl
