-- ===== src/Keyboard/Buffer/Queue.antt =====
-- The key buffer of src/keyboard.c against a queue of at most 256 characters, oldest first.
use valern.Prelude.{
  ℕ, zero, suc, ◌+◌, ◌-◌, ◌%◌, ◌<◌, ◌≤◌, List, [], ◌∷◌, ◌++◌, Bool-cases, inl, inr, ◌≡◌, refl, ap,
  ap₂, arith, ltb, if◌then◌else◌, length, get_or, set, length-set, get_or-set_self, get_or-set_ne,
}
use valern.Keyboard.Buffer.{
  KeyBuffer, key_buffer_size, keyboard_buffer_add, keyboard_buffer_get, keyboard_has_key,
  keyboard_clear_buffer,
}

-- The queue that a client sees.
abbrev pub Queue : Type 0
Queue = List ℕ

-- A character that finds 256 waiting is dropped.
unfoldable pub enqueue : ℕ → Queue → Queue
enqueue c q = if ltb (length q) key_buffer_size then q ++ (c ∷ []) else q

unfoldable pub dequeue : Queue → ℕ × Queue
dequeue [] = (0, [])
dequeue (c ∷ q) = (c, q)

pub record IsValid (b : KeyBuffer) : Type 0 where
  pub storage : length b.key_buffer ≡ key_buffer_size
  pub tail_in : b.buffer_tail < key_buffer_size
  pub count_in : b.buffer_count ≤ key_buffer_size
  pub head_at : b.buffer_head ≡ (b.buffer_tail + b.buffer_count) % key_buffer_size

-- the `n` characters from index `t` on, going round at the end of the array
abbrev pub window : List ℕ → ℕ → ℕ → Queue
window xs t zero = []
window xs t (suc n) = get_or xs t 0 ∷ window xs ((t + 1) % key_buffer_size) n

abbrev pub contents : KeyBuffer → Queue
contents b = window b.key_buffer b.buffer_tail b.buffer_count

length-window : (xs : List ℕ) (t n : ℕ) → length (window xs t n) ≡ n
length-window xs t zero = refl
length-window xs t (suc n) = ap suc (length-window xs ((t + 1) % key_buffer_size) n)

pub length-contents : (b : KeyBuffer) → length (contents b) ≡ b.buffer_count
length-contents b = length-window b.key_buffer b.buffer_tail b.buffer_count

window_of_pos :
    (xs : List ℕ) (t n : ℕ)
    → 0 < n
    → window xs t n ≡ get_or xs t 0 ∷ window xs ((t + 1) % key_buffer_size) (n - 1)
window_of_pos xs t zero h = elim h [ ]
window_of_pos xs t (suc n) h = ap (λ k. window xs t (suc k)) (omega arith)

-- Writing just past a window that is not full extends it.
window-set :
    (xs : List ℕ) (c n t i : ℕ)
    → length xs ≡ key_buffer_size
    → t < key_buffer_size
    → n < key_buffer_size
    → i ≡ (t + n) % key_buffer_size
    → window (set xs i c) t (suc n) ≡ window xs t n ++ (c ∷ [])
window-set xs c zero t i hs ht hn e =
    let e' : i ≡ t = omega arith in rw (e', get_or-set_self xs t c 0 (omega arith))
window-set xs c (suc n) t i hs ht hn e =
    ap₂ ◌∷◌ (get_or-set_ne xs i t c 0 (omega arith))
      (window-set xs c n ((t + 1) % key_buffer_size) i hs (omega arith) (omega arith) (omega arith))

-- A valid buffer is read and written inside its array.
pub in_bounds :
    {b : KeyBuffer}
    → IsValid b
    → (b.buffer_head < length b.key_buffer) × (b.buffer_tail < length b.key_buffer)
in_bounds v = omega arith

pub add-IsValid : {b : KeyBuffer} (c : ℕ) → IsValid b → IsValid (keyboard_buffer_add c b)
unfolding keyboard_buffer_add
add-IsValid {b} c v = ground (arith, length-set b.key_buffer b.buffer_head c)

pub get-IsValid : {b : KeyBuffer} → IsValid b → IsValid (keyboard_buffer_get b).1
unfolding keyboard_buffer_get
get-IsValid v = ground arith

pub clear-IsValid : {b : KeyBuffer} → IsValid b → IsValid (keyboard_clear_buffer b)
unfolding keyboard_clear_buffer
clear-IsValid v = ground arith

-- On a valid buffer `keyboard_buffer_add` keeps validity and appends the character to the
-- contents if fewer than 256 wait, and drops it otherwise.
pub add_refines :
    {b : KeyBuffer} (c : ℕ)
    → IsValid b
    → contents (keyboard_buffer_add c b) ≡ enqueue c (contents b)
unfolding keyboard_buffer_add enqueue
add_refines {b} c v =
    ground (
      arith,
      length-contents b,
      window-set b.key_buffer c b.buffer_count b.buffer_tail b.buffer_head,
    )

pub get_refines :
    {b : KeyBuffer}
    → IsValid b
    → let (c, b') = keyboard_buffer_get b in (c, contents b') ≡ dequeue (contents b)
unfolding keyboard_buffer_get dequeue
get_refines {b} v = ground (arith, window_of_pos b.key_buffer b.buffer_tail b.buffer_count)

-- The calls that the driver's clients make, and what each returns: 0 where C returns nothing,
-- 1 for `true`.
pub data Op : Type 0 where
  add : ℕ → Op
  get : Op
  has_key : Op
  clear : Op

unfoldable pub run : List Op → KeyBuffer → List ℕ
run [] b = []
run (add c ∷ ops) b = 0 ∷ run ops (keyboard_buffer_add c b)
run (get ∷ ops) b = let (c, b') = keyboard_buffer_get b in c ∷ run ops b'
run (has_key ∷ ops) b = (if keyboard_has_key b then 1 else 0) ∷ run ops b
run (clear ∷ ops) b = 0 ∷ run ops (keyboard_clear_buffer b)

unfoldable pub run_queue : List Op → Queue → List ℕ
run_queue [] q = []
run_queue (add c ∷ ops) q = 0 ∷ run_queue ops (enqueue c q)
run_queue (get ∷ ops) q = let (c, q') = dequeue q in c ∷ run_queue ops q'
run_queue (has_key ∷ ops) [] = 0 ∷ run_queue ops []
run_queue (has_key ∷ ops) (c ∷ q) = 1 ∷ run_queue ops (c ∷ q)
run_queue (clear ∷ ops) q = 0 ∷ run_queue ops []

-- `keyboard_has_key` tells whether the queue holds a character.
has_key_refines :
    (ops : List Op) (b : KeyBuffer)
    → run_queue (has_key ∷ ops) (contents b)
      ≡ (if keyboard_has_key b then 1 else 0) ∷ run_queue ops (contents b)
unfolding run_queue keyboard_has_key
has_key_refines ops b = elim (Bool-cases (ltb 0 b.buffer_count)) [
  | inl some_wait ↦
      rw (some_wait, window_of_pos b.key_buffer b.buffer_tail b.buffer_count (ground arith))
  | inr none_wait ↦ let e : b.buffer_count ≡ 0 = ground arith in rw e
]

-- From a valid buffer, every sequence of additions, removals, polls and clearings returns what the
-- bounded queue of the buffer's contents returns.
pub run_refines :
    (ops : List Op) {b : KeyBuffer} → IsValid b → run ops b ≡ run_queue ops (contents b)
unfolding run run_queue
run_refines [] v = refl
run_refines (add c ∷ ops) v = rw (run_refines ops (add-IsValid c v), add_refines c v)
run_refines (get ∷ ops) v = rw (run_refines ops (get-IsValid v), ← get_refines v)
run_refines (has_key ∷ ops) {b} v = rw (run_refines ops v, has_key_refines ops b)
run_refines (clear ∷ ops) {b} v =
    rw (run_refines ops (clear-IsValid v)) (unfold keyboard_clear_buffer in refl)
