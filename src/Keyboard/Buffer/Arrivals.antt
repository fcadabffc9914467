-- ===== src/Keyboard/Buffer/Arrivals.antt =====
-- What the characters that the handler of src/keyboard.c adds do to the key buffer.
use valern.Prelude.{
  ℕ, ◌+◌, ◌%◌, ◌<◌, List, [], ◌∷◌, ◌++◌, Bool-cases, inl, inr, ◌≡◌, refl, ap, ◌∙◌, arith, ltb,
  length, get_or, set, length-set, get_or-set_ne, true,
}
use valern.Keyboard.Buffer.{KeyBuffer, key_buffer_size, keyboard_buffer_add}
use valern.Keyboard.Buffer.Queue.{IsValid, add-IsValid}

-- The handler puts these characters into the buffer.
unfoldable pub arrive : List ℕ → KeyBuffer → KeyBuffer
arrive [] b = b
arrive (c ∷ cs) b = arrive cs (keyboard_buffer_add c b)

abbrev pub with_tail : ℕ → KeyBuffer → KeyBuffer
with_tail t b = record b { buffer_tail = t }

-- The handler neither reads nor writes the tail.
add-with_tail :
    (c t : ℕ) (b : KeyBuffer)
    → keyboard_buffer_add c (with_tail t b) ≡ with_tail t (keyboard_buffer_add c b)
unfolding keyboard_buffer_add
add-with_tail c t b = ground arith

pub arrive-with_tail :
    (cs : List ℕ) (t : ℕ) (b : KeyBuffer) → arrive cs (with_tail t b) ≡ with_tail t (arrive cs b)
unfolding arrive
arrive-with_tail [] t b = refl
arrive-with_tail (c ∷ cs) t b =
    ap (arrive cs) (add-with_tail c t b) ∙ arrive-with_tail cs t (keyboard_buffer_add c b)

add-tail : (c : ℕ) (b : KeyBuffer) → (keyboard_buffer_add c b).buffer_tail ≡ b.buffer_tail
unfolding keyboard_buffer_add
add-tail c b = ground arith

pub arrive-tail : (cs : List ℕ) (b : KeyBuffer) → (arrive cs b).buffer_tail ≡ b.buffer_tail
unfolding arrive
arrive-tail [] b = refl
arrive-tail (c ∷ cs) b = arrive-tail cs (keyboard_buffer_add c b) ∙ add-tail c b

pub arrive-append : (xs ys : List ℕ) (b : KeyBuffer) → arrive (xs ++ ys) b ≡ arrive ys (arrive xs b)
unfolding arrive
arrive-append [] ys b = refl
arrive-append (x ∷ xs) ys b = arrive-append xs ys (keyboard_buffer_add x b)

-- The oldest character stays where it is.
pub record Keeps (b b' : KeyBuffer) : Type 0 where
  pub valid : IsValid b'
  pub waits : 0 < b'.buffer_count
  pub oldest : get_or b'.key_buffer b'.buffer_tail 0 ≡ get_or b.key_buffer b.buffer_tail 0

add-Keeps :
    (c : ℕ) (b : KeyBuffer) → IsValid b → 0 < b.buffer_count → Keeps b (keyboard_buffer_add c b)
unfolding keyboard_buffer_add
add-Keeps c b v w = record {
  valid = add-IsValid c v;
  waits = ground arith;
  oldest = elim (Bool-cases (ltb b.buffer_count key_buffer_size)) [
    | inl room ↦
        let below : b.buffer_count < key_buffer_size = ground arith in
        rw room (get_or-set_ne b.key_buffer b.buffer_head b.buffer_tail c 0 (omega arith))
    | inr full ↦ rw full refl
  ];
}

pub arrive-Keeps :
    (cs : List ℕ) (b : KeyBuffer) → IsValid b → 0 < b.buffer_count → Keeps b (arrive cs b)
unfolding arrive
arrive-Keeps [] b v w = record { valid = v; waits = w; oldest = refl }
arrive-Keeps (c ∷ cs) b v w =
    let first = add-Keeps c b v w in
    let later = arrive-Keeps cs (keyboard_buffer_add c b) first.valid first.waits in
    record { valid = later.valid; waits = later.waits; oldest = later.oldest ∙ first.oldest }

-- What arrivals do to the counters where there is room for all of them.
pub record Adds (cs : List ℕ) (b b' : KeyBuffer) : Type 0 where
  pub storage : length b'.key_buffer ≡ length b.key_buffer
  pub head : b'.buffer_head ≡ (b.buffer_head + length cs) % key_buffer_size
  pub count : b'.buffer_count ≡ b.buffer_count + length cs

pub arrive-Adds :
    (cs : List ℕ) (b : KeyBuffer)
    → b.buffer_head < key_buffer_size
    → b.buffer_count + length cs < key_buffer_size
    → Adds cs b (arrive cs b)
unfolding arrive keyboard_buffer_add
arrive-Adds [] b h r = record { storage = refl; head = omega arith; count = omega arith }
arrive-Adds (c ∷ cs) b h r =
    let room : ltb b.buffer_count key_buffer_size ≡ true = ground arith in
    let b1 = record b {
      key_buffer = set b.key_buffer b.buffer_head c;
      buffer_head = (b.buffer_head + 1) % key_buffer_size;
      buffer_count = b.buffer_count + 1;
    } in
    let rest = arrive-Adds cs b1 (omega arith) (omega arith) in
    rw room (record {
      storage = rest.storage ∙ length-set b.key_buffer b.buffer_head c;
      head = omega (arith, rest.head);
      count = omega (arith, rest.count);
    })
