-- ===== src/Keyboard/Driver/Races.antt =====
-- src/keyboard.c with interrupts between any two accesses of the counters, which are volatile: the states
-- that a client's calls and the handler reach together. One load or store is atomic, and the handler runs
-- to its end.
pub mod Safe
use valern.Prelude.{
  ℕ, List, [], ◌∷◌, Bool, ◌≡◌, ◌∙◌, inl, inr, refl, some, true, false, if◌then◌else◌, ◌==◌, not,
  Bool-cases, Option-cases, arith, bit_and, ltb, length, ◌+◌, ◌-◌, ◌%◌, ◌<◌, ◌≤◌, Every, set,
  length-set, zero, suc, get_or,
}
use valern.Keyboard.Buffer.{KeyBuffer, key_buffer_size, keyboard_buffer_add}
use valern.Keyboard.Driver.{
  Keyboard, Irq, static_keyboard, process_scancode, process_key, dispatch_key, accept_scancode,
  deliver, extended_scancode_prefix, keyboard_status_output_full, key_released_mask,
}
use valern.Keyboard.Modifiers.{no_keys, handle_modifier}
use valern.Keyboard.Layout.{scancode_to_ascii, ascii_of}
use valern.Keyboard.Driver.Characters.{ascii_of-lt, handle_modifier_right}
use valern.Keyboard.Driver.Reach.{deliver-eq}

-- Where the client's call is. In `keyboard_buffer_get`: behind its test, behind the read of the
-- character, behind the step of the tail, and behind the load of the count for `buffer_count--`, with the
-- number that was loaded. In `keyboard_clear_buffer` and the reset of `keyboard_init`: behind the store of
-- the head, and of the tail.
pub data At : Type 0 where
  outside : At
  tested : At
  taken : ℕ → At
  moved : ℕ → At
  loaded : ℕ → ℕ → At
  headless : At
  tailless : At

-- One access of the client's, with the character that a read has got, or one interrupt.
pub data Access (kb : Keyboard) : At → At → Keyboard → Type 0 where
  test : ltb 0 kb.buffer.buffer_count ≡ true → Access kb outside tested kb
  take : Access kb tested (taken (get_or kb.buffer.key_buffer kb.buffer.buffer_tail 0)) kb
  move_tail :
      {c : ℕ}
      → Access kb (taken c) (moved c) (record kb {
        buffer = record kb.buffer { buffer_tail = (kb.buffer.buffer_tail + 1) % key_buffer_size };
      })
  load_count : {c : ℕ} → Access kb (moved c) (loaded c kb.buffer.buffer_count) kb
  store_count :
      {c n : ℕ}
      → Access kb
          (loaded c n)
          outside
          (record kb { buffer = record kb.buffer { buffer_count = n - 1 } })
  clear_head :
      Access kb outside headless (record kb { buffer = record kb.buffer { buffer_head = 0 } })
  clear_tail :
      Access kb headless tailless (record kb { buffer = record kb.buffer { buffer_tail = 0 } })
  clear_count :
      Access kb tailless outside (record kb { buffer = record kb.buffer { buffer_count = 0 } })
  clear_state : Access kb outside outside (record kb { key_state = no_keys })
  interrupted : {at : At} → (irq : Irq) → Access kb at at (deliver irq kb)

-- From the loaded kernel, with the client outside of the driver.
pub data Run : At → Keyboard → Type 0 where
  start : Run outside static_keyboard
  then_access : {at at' : At} {kb kb' : Keyboard} → Run at kb → Access kb at at' kb' → Run at' kb'
