-- ===== src/Keyboard/Driver/Races/Safe.antt =====
-- What holds of the driver of src/keyboard.c between any two accesses of its counters.
use valern.Prelude.{
  ℕ, List, [], ◌∷◌, Bool, ◌≡◌, ◌∙◌, inl, inr, refl, true, false, if◌then◌else◌, ◌==◌, not,
  Bool-cases, Option-cases, arith, bit_and, ltb, length, ◌+◌, ◌-◌, ◌%◌, ◌<◌, ◌≤◌, Every, set,
  length-set, zero, suc, get_or,
}
use valern.Keyboard.Buffer.{KeyBuffer, key_buffer_size, keyboard_buffer_add}
use valern.Keyboard.Driver.{
  Keyboard, Irq, static_keyboard, process_scancode, process_key, dispatch_key, accept_scancode,
  deliver, extended_scancode_prefix, keyboard_status_output_full, key_released_mask,
}
use valern.Keyboard.Modifiers.{handle_modifier}
use valern.Keyboard.Layout.{scancode_to_ascii, ascii_of}
use valern.Keyboard.Driver.Characters.{ascii_of-lt, handle_modifier_right}
use valern.Keyboard.Driver.Reach.{deliver-eq}
use valern.Keyboard.Driver.Races.{
  At, outside, tested, taken, moved, loaded, headless, tailless, Access, test, take, move_tail,
  load_count, store_count, clear_head, clear_tail, clear_count, clear_state, interrupted, Run,
  start, then_access,
}

-- What the client's call relies on.
abbrev Relies : At → KeyBuffer → Type 0
Relies outside b = Unit {0}
Relies tested b = 0 < b.buffer_count
Relies (taken c) b = (0 < b.buffer_count) × (c < 127)
Relies (moved c) b = (0 < b.buffer_count) × (c < 127)
Relies (loaded c n) b = (0 < n) × (n ≤ key_buffer_size) × (c < 127)
Relies headless b = Unit {0}
Relies tailless b = Unit {0}

-- The counters index the array, no count that a read decrements is 0, and all bytes of the array are
-- ASCII, as is the character that a read has got.
pub record IsSafe (at : At) (kb : Keyboard) : Type 0 where
  pub storage : length kb.buffer.key_buffer ≡ key_buffer_size
  pub head_in : kb.buffer.buffer_head < key_buffer_size
  pub tail_in : kb.buffer.buffer_tail < key_buffer_size
  pub count_in : kb.buffer.buffer_count ≤ key_buffer_size
  pub ascii : Every (λ c. c < 127) kb.buffer.key_buffer
  pub relies : Relies at kb.buffer
  pub no_ctrl_right : kb.key_state.ctrl_right ≡ false
  pub no_alt_right : kb.key_state.alt_right ≡ false

Every-set : (P : ℕ → Type 0) (xs : List ℕ) (i v : ℕ) → P v → Every P xs → Every P (set xs i v)
Every-set P [] i v h hs = tt
Every-set P (x ∷ xs) zero v h hs = (h, hs.1)
Every-set P (x ∷ xs) (suc i) v h hs = (hs.0, Every-set P xs i v h hs.1)

ascii_at : (xs : List ℕ) (i : ℕ) → Every (λ c. c < 127) xs → get_or xs i 0 < 127
ascii_at [] i h = omega arith
ascii_at (x ∷ xs) zero h = h.0
ascii_at (x ∷ xs) (suc i) h = ascii_at xs i h.1

-- Another count, not less, does not matter to the client.
Relies-more :
    (at : At) (b b' : KeyBuffer) → b.buffer_count ≤ b'.buffer_count → Relies at b → Relies at b'
Relies-more outside b b' m r = tt
Relies-more tested b b' m r = omega arith
Relies-more (taken c) b b' m r = (omega (arith, r.0), r.1)
Relies-more (moved c) b b' m r = (omega (arith, r.0), r.1)
Relies-more (loaded c n) b b' m r = r
Relies-more headless b b' m r = tt
Relies-more tailless b b' m r = tt

add-IsSafe :
    (at : At) (c : ℕ) (kb : Keyboard)
    → c < 127
    → IsSafe at kb
    → IsSafe at (record kb { buffer = keyboard_buffer_add c kb.buffer })
unfolding keyboard_buffer_add
add-IsSafe at c kb h r = elim (Bool-cases (ltb kb.buffer.buffer_count key_buffer_size)) [
  | inr full ↦ rw full r
  | inl room ↦
      let b = kb.buffer in
      let b' = record b {
        key_buffer = set b.key_buffer b.buffer_head c;
        buffer_head = (b.buffer_head + 1) % key_buffer_size;
        buffer_count = b.buffer_count + 1;
      } in
      let safe : IsSafe at (record kb { buffer = b' }) = record {
        storage = length-set b.key_buffer b.buffer_head c ∙ r.storage;
        head_in = omega arith;
        tail_in = r.tail_in;
        count_in = ground arith;
        ascii = Every-set (λ c. c < 127) b.key_buffer b.buffer_head c h r.ascii;
        relies = Relies-more at b b' (omega arith) r.relies;
        no_ctrl_right = r.no_ctrl_right;
        no_alt_right = r.no_alt_right;
      } in
      rw room safe
]

if_IsSafe :
    {at : At} {x y : Keyboard} (b : Bool)
    → IsSafe at x
    → IsSafe at y
    → IsSafe at (if b then x else y)
if_IsSafe true hx hy = hx
if_IsSafe false hx hy = hy

process_key-IsSafe :
    (at : At) (key : ℕ) (released : Bool) (kb : Keyboard)
    → IsSafe at kb
    → IsSafe at (process_key key released kb)
unfolding process_key
process_key-IsSafe at key released kb r =
    let c = ascii_of kb.key_state key in
    if_IsSafe released r (
      if_IsSafe (ltb key (length scancode_to_ascii))
        (if_IsSafe (not (c == 0)) (add-IsSafe at c kb (ascii_of-lt kb.key_state key) r) r) r)

dispatch_key-IsSafe :
    (at : At) (key : ℕ) (released : Bool) (kb : Keyboard)
    → IsSafe at kb
    → IsSafe at (dispatch_key key released kb)
unfolding dispatch_key
dispatch_key-IsSafe at key released kb r =
    elim (Option-cases (handle_modifier key released kb.key_state)) [
      | inl e ↦ rw (e, dispatch_key) (process_key-IsSafe at key released kb r)
      | inr (k', e) ↦
          let (ctrl, alt) = handle_modifier_right key released kb.key_state k' e in
          rw (e, dispatch_key)
            (record {
              storage = r.storage;
              head_in = r.head_in;
              tail_in = r.tail_in;
              count_in = r.count_in;
              ascii = r.ascii;
              relies = r.relies;
              no_ctrl_right = ctrl ∙ r.no_ctrl_right;
              no_alt_right = alt ∙ r.no_alt_right;
            })
    ]

accept-IsSafe : (at : At) (s : ℕ) (kb : Keyboard) → IsSafe at kb → IsSafe at (accept_scancode s kb)
unfolding accept_scancode process_scancode
accept-IsSafe at s kb r = if_IsSafe (s == extended_scancode_prefix) (same true) (
    if_IsSafe kb.extended_scancode (same false)
      (dispatch_key-IsSafe at (bit_and s 0x7F) (not (bit_and s key_released_mask == 0)) kb r))
  where
    same : (b : Bool) → IsSafe at (record kb { extended_scancode = b })
    same b = record {
      storage = r.storage;
      head_in = r.head_in;
      tail_in = r.tail_in;
      count_in = r.count_in;
      ascii = r.ascii;
      relies = r.relies;
      no_ctrl_right = r.no_ctrl_right;
      no_alt_right = r.no_alt_right;
    }

deliver-IsSafe : (at : At) (irq : Irq) (kb : Keyboard) → IsSafe at kb → IsSafe at (deliver irq kb)
deliver-IsSafe at irq kb r = rw (deliver-eq irq kb) (
    if_IsSafe (bit_and irq.status keyboard_status_output_full == 0) r
      (accept-IsSafe at irq.scancode kb r))

-- Only the client's place and the counters change.
moves :
    {at at' : At} {kb : Keyboard} (head tail count : ℕ)
    → IsSafe at kb
    → head < key_buffer_size
    → tail < key_buffer_size
    → count ≤ key_buffer_size
    → let b' = record kb.buffer { buffer_head = head; buffer_tail = tail; buffer_count = count } in
      Relies at' b' → IsSafe at' (record kb { buffer = b' })
moves head tail count r h t c relies = record {
  storage = r.storage;
  head_in = h;
  tail_in = t;
  count_in = c;
  ascii = r.ascii;
  relies = relies;
  no_ctrl_right = r.no_ctrl_right;
  no_alt_right = r.no_alt_right;
}

Access-IsSafe :
    {at at' : At} {kb kb' : Keyboard} → Access kb at at' kb' → IsSafe at kb → IsSafe at' kb'
Access-IsSafe {kb = kb} (test some_wait) r =
    moves kb.buffer.buffer_head kb.buffer.buffer_tail kb.buffer.buffer_count r r.head_in r.tail_in
      r.count_in (ground arith)
Access-IsSafe {kb = kb} take r =
    moves kb.buffer.buffer_head kb.buffer.buffer_tail kb.buffer.buffer_count r r.head_in r.tail_in
      r.count_in (r.relies, ascii_at kb.buffer.key_buffer kb.buffer.buffer_tail r.ascii)
Access-IsSafe {kb = kb} move_tail r =
    moves kb.buffer.buffer_head ((kb.buffer.buffer_tail + 1) % key_buffer_size)
      kb.buffer.buffer_count r r.head_in (omega arith) r.count_in r.relies
Access-IsSafe {kb = kb} load_count r =
    moves kb.buffer.buffer_head kb.buffer.buffer_tail kb.buffer.buffer_count r r.head_in r.tail_in
      r.count_in (r.relies.0, r.count_in, r.relies.1)
Access-IsSafe {kb = kb} (store_count {c} {n}) r =
    moves kb.buffer.buffer_head kb.buffer.buffer_tail (n - 1) r r.head_in r.tail_in
      (omega (arith, r.relies.1)) tt
Access-IsSafe {kb = kb} clear_head r =
    moves 0 kb.buffer.buffer_tail kb.buffer.buffer_count r (omega arith) r.tail_in r.count_in tt
Access-IsSafe {kb = kb} clear_tail r =
    moves kb.buffer.buffer_head 0 kb.buffer.buffer_count r r.head_in (omega arith) r.count_in tt
Access-IsSafe {kb = kb} clear_count r =
    moves kb.buffer.buffer_head kb.buffer.buffer_tail 0 r r.head_in r.tail_in (omega arith) tt
Access-IsSafe clear_state r = record {
  storage = r.storage;
  head_in = r.head_in;
  tail_in = r.tail_in;
  count_in = r.count_in;
  ascii = r.ascii;
  relies = r.relies;
  no_ctrl_right = refl;
  no_alt_right = refl;
}
Access-IsSafe {at} {kb = kb} (interrupted irq) r = deliver-IsSafe at irq kb r

static-IsSafe : IsSafe outside static_keyboard
static-IsSafe = record {
  storage = refl;
  head_in = omega arith;
  tail_in = omega arith;
  count_in = omega arith;
  ascii = omega arith;
  relies = tt;
  no_ctrl_right = refl;
  no_alt_right = refl;
}

-- Wherever interrupts come, also between the accesses of one read, clearing or reset, from the loaded
-- kernel on: head and tail index the 256-byte array and the count is at most 256, a read that has passed
-- its test finds and has loaded a count that is not 0, which its decrement does not bring below 0, all
-- bytes of the array and each character that a read gets are ASCII, and the right control and right alt
-- flags are clear.
pub Run-IsSafe : {at : At} {kb : Keyboard} → Run at kb → IsSafe at kb
Run-IsSafe start = static-IsSafe
Run-IsSafe (then_access run access) = Access-IsSafe access (Run-IsSafe run)
