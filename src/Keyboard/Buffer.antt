-- ===== src/Keyboard/Buffer.antt =====
-- src/keyboard.c: `key_buffer` with `buffer_head`, `buffer_tail` and `buffer_count`, and the
-- functions on it. A `char` is its byte. The counters are `int`, and stay far below its limit.
pub mod Queue
pub mod Arrivals
pub mod Interleaved
use valern.Prelude.{ℕ, ◌+◌, ◌-◌, ◌%◌, Bool, List, ltb, if◌then◌else◌, get_or, set, replicate}

abbrev pub key_buffer_size : ℕ
key_buffer_size = 256

pub record KeyBuffer : Type 0 where
  pub key_buffer : List ℕ
  pub buffer_head : ℕ
  pub buffer_tail : ℕ
  pub buffer_count : ℕ

-- The buffer as the kernel is loaded: static storage is zero.
abbrev pub static_buffer : KeyBuffer
static_buffer = record {
  key_buffer = replicate key_buffer_size 0;
  buffer_head = 0;
  buffer_tail = 0;
  buffer_count = 0;
}

unfoldable pub keyboard_buffer_add : ℕ → KeyBuffer → KeyBuffer
keyboard_buffer_add c b =
    if ltb b.buffer_count key_buffer_size
    then record b {
      key_buffer = set b.key_buffer b.buffer_head c;
      buffer_head = (b.buffer_head + 1) % key_buffer_size;
      buffer_count = b.buffer_count + 1;
    }
    else b

-- The character, or 0, and the buffer after it. `Queue.in_bounds` rules the default of the read
-- out.
unfoldable pub keyboard_buffer_get : KeyBuffer → ℕ × KeyBuffer
keyboard_buffer_get b =
    if ltb 0 b.buffer_count
    then (
      get_or b.key_buffer b.buffer_tail 0,
      record b {
        buffer_tail = (b.buffer_tail + 1) % key_buffer_size;
        buffer_count = b.buffer_count - 1;
      },
    )
    else (0, b)

unfoldable pub keyboard_has_key : KeyBuffer → Bool
keyboard_has_key b = ltb 0 b.buffer_count

-- The characters stay in the array; only the counters are reset.
unfoldable pub keyboard_clear_buffer : KeyBuffer → KeyBuffer
keyboard_clear_buffer b = record b { buffer_head = 0; buffer_tail = 0; buffer_count = 0 }
