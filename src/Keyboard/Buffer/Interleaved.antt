-- ===== src/Keyboard/Buffer/Interleaved.antt =====
-- The reads of the key buffer of src/keyboard.c with keyboard interrupts between their accesses of the
-- counters, which are volatile. One load or store is atomic, and the handler runs to its end, so that
-- its own `buffer_count++` is not broken into.
use valern.Prelude.{
  ℕ, ◌+◌, ◌-◌, ◌%◌, ◌<◌, List, ◌++◌, Bool-cases, inl, inr, ◌≡◌, ◌↔◌, refl, ap, ◌∙◌, arith, ltb,
  if◌then◌else◌, length, get_or, true, ap₂, length-append,
}
use valern.Keyboard.Buffer.{KeyBuffer, key_buffer_size, keyboard_buffer_get}
use valern.Keyboard.Buffer.Queue.{IsValid}
use valern.Keyboard.Buffer.Arrivals.{
  arrive, arrive-with_tail, arrive-tail, arrive-append, arrive-Keeps, arrive-Adds,
}

-- `keyboard_buffer_get` with arrivals behind its test, behind its read, behind its step of the tail,
-- and, in `buffer_count--`, behind the load of the count, before the store. The tail, which the handler
-- does not use, may be loaded and stored at once.
unfoldable pub get_with : List ℕ → List ℕ → List ℕ → List ℕ → KeyBuffer → ℕ × KeyBuffer
unfolding arrive
get_with tested taken moved loaded b =
    if ltb 0 b.buffer_count
    then (let b1 = arrive tested b in
        let b2 = arrive taken b1 in
        let b3 =
          arrive moved (record b2 { buffer_tail = (b2.buffer_tail + 1) % key_buffer_size }) in
        let count = b3.buffer_count in
        let b4 = arrive loaded b3 in
        (get_or b1.key_buffer b1.buffer_tail 0, record b4 { buffer_count = count - 1 }))
    else (0, b)

-- `keyboard_clear_buffer`, and the reset at the start of `keyboard_init`, with arrivals behind the
-- first and the second of their three statements.
unfoldable pub clear_with : List ℕ → List ℕ → KeyBuffer → KeyBuffer
unfolding arrive
clear_with headless tailless b =
    let b1 = arrive headless (record b { buffer_head = 0 }) in
    let b2 = arrive tailless (record b1 { buffer_tail = 0 }) in record b2 { buffer_count = 0 }

-- The buffer that a read leaves which finds these before its load of the count, and these behind it.
abbrev left_by : List ℕ → List ℕ → KeyBuffer → KeyBuffer
left_by before loaded b =
    let last = arrive (before ++ loaded) b in
    record last {
      buffer_tail = (b.buffer_tail + 1) % key_buffer_size;
      buffer_count = (arrive before b).buffer_count - 1;
    }

get_with_leaves :
    (tested taken moved loaded : List ℕ) (b : KeyBuffer)
    → IsValid b
    → ltb 0 b.buffer_count ≡ true
    → get_with tested taken moved loaded b
      ≡ (get_or b.key_buffer b.buffer_tail 0, left_by (tested ++ (taken ++ moved)) loaded b)
unfolding get_with
get_with_leaves tested taken moved loaded b v some_wait =
    let waits : 0 < b.buffer_count = ground arith in
    let b1 = arrive tested b in
    let b2 = arrive taken b1 in
    let b3 = arrive moved b2 in
    let moved_on = (b2.buffer_tail + 1) % key_buffer_size in
    let k1 = arrive-Keeps tested b v waits in
    let before : arrive (tested ++ (taken ++ moved)) b ≡ b3 =
      arrive-append tested (taken ++ moved) b ∙ arrive-append taken moved b1 in
    let all : arrive ((tested ++ (taken ++ moved)) ++ loaded) b ≡ arrive loaded b3 =
      arrive-append (tested ++ (taken ++ moved)) loaded b ∙ ap (arrive loaded) before in
    let step = arrive-with_tail moved moved_on b2 in
    let last_step = arrive-with_tail loaded moved_on b3 in
    let tail = arrive-tail taken b1 ∙ arrive-tail tested b in
    rw (some_wait, all, before, step, last_step)
      (ap₂
        (λ c t. (
          c,
          record (arrive loaded b3) {
            buffer_tail = (t + 1) % key_buffer_size;
            buffer_count = b3.buffer_count - 1;
          },
        ))
        k1.oldest tail)

-- A read of the buffer that interrupts break into returns what an unbroken one would have returned: the
-- oldest character, or 0 if none waits, and then it leaves the buffer alone. Else it leaves the array and
-- the head and tail that a read after all the arrivals leaves, but in the count it loses those that
-- came between its load and its store.
pub get_with_lem :
    (tested taken moved loaded : List ℕ) (b : KeyBuffer)
    → IsValid b
    → get_with tested taken moved loaded b ≡ (
        let before = tested ++ (taken ++ moved) in
        if ltb 0 b.buffer_count
        then (
          (keyboard_buffer_get b).0,
          record (keyboard_buffer_get (arrive (before ++ loaded) b)).1 {
            buffer_count = (arrive before b).buffer_count - 1;
          },
        )
        else (0, b))
unfolding get_with keyboard_buffer_get
get_with_lem tested taken moved loaded b v = elim (Bool-cases (ltb 0 b.buffer_count)) [
  | inr none_wait ↦ rw none_wait refl
  | inl some_wait ↦
      let waits : 0 < b.buffer_count = ground arith in
      let all = (tested ++ (taken ++ moved)) ++ loaded in
      let last = arrive all b in
      let kept = arrive-Keeps all b v waits in
      let some_left : ltb 0 last.buffer_count ≡ true = ground (arith, kept.waits) in
      let leaves = get_with_leaves tested taken moved loaded b v some_wait in
      rw (leaves, some_wait, some_left, arrive-tail all b) refl
]

-- A reset of the buffer with room for what arrives leaves it valid exactly if no character arrives
-- between its statements.
pub clear_with-IsValid_iff :
    (headless tailless : List ℕ) (b : KeyBuffer)
    → IsValid b
    → b.buffer_count + length headless + length tailless < key_buffer_size
    → IsValid (clear_with headless tailless b) ↔ (length headless + length tailless ≡ 0)
unfolding clear_with
clear_with-IsValid_iff headless tailless b v r =
    let one = arrive-Adds headless (record b { buffer_head = 0 }) (omega arith) (omega arith) in
    let b1 = arrive headless (record b { buffer_head = 0 }) in
    let two =
      arrive-Adds tailless (record b1 { buffer_tail = 0 }) (omega (arith, one.head))
        (omega (arith, one.count)) in
    let b2 = arrive tailless (record b1 { buffer_tail = 0 }) in
    let tail : b2.buffer_tail ≡ 0 = arrive-tail tailless (record b1 { buffer_tail = 0 }) in
    let head : b2.buffer_head ≡ (length headless + length tailless) % 256 =
      omega (arith, two.head, one.head) in
    let stored : length b2.key_buffer ≡ 256 = two.storage ∙ one.storage ∙ v.storage in
    (
      λ w.
          let at : b2.buffer_head ≡ (b2.buffer_tail + 0) % 256 = w.head_at in
          omega (arith, at, head, tail),
      λ e. record {
        storage = stored;
        tail_in = omega (arith, tail);
        count_in = omega arith;
        head_at = omega (arith, head, tail);
      },
    )

-- A read that finds a character, with room for what arrives, leaves a valid buffer exactly if no
-- character arrives between its load and its store of the count.
pub get_with-IsValid_iff :
    (tested taken moved loaded : List ℕ) (b : KeyBuffer)
    → IsValid b
    → 0 < b.buffer_count
    → b.buffer_count + length ((tested ++ (taken ++ moved)) ++ loaded) < key_buffer_size
    → IsValid (get_with tested taken moved loaded b).1 ↔ (length loaded ≡ 0)
get_with-IsValid_iff tested taken moved loaded b v w r =
    let before = tested ++ (taken ++ moved) in
    let b' = left_by before loaded b in
    let split : length (before ++ loaded) ≡ length before + length loaded =
      length-append before loaded in
    let inside = v.tail_in in
    let placed : b.buffer_head ≡ (b.buffer_tail + b.buffer_count) % 256 = v.head_at in
    let early = arrive-Adds before b (omega (arith, v.head_at)) (omega arith) in
    let all = arrive-Adds (before ++ loaded) b (omega (arith, v.head_at)) r in
    let stored : length b'.key_buffer ≡ 256 = all.storage ∙ v.storage in
    let head : b'.buffer_head ≡ (b.buffer_head + length before + length loaded) % 256 =
      omega (arith, all.head, split) in
    let count : b'.buffer_count ≡ b.buffer_count + length before - 1 = omega (arith, early.count) in
    let tail : b'.buffer_tail ≡ (b.buffer_tail + 1) % 256 = refl in
    rw (get_with_leaves tested taken moved loaded b v (ground arith)) (
      λ k.
          let at : b'.buffer_head ≡ (b'.buffer_tail + b'.buffer_count) % 256 = k.head_at in
          omega (arith, at, head, tail, count, placed, split),
      λ e. record {
        storage = stored;
        tail_in = omega (arith, tail);
        count_in = omega (arith, count, split);
        head_at = omega (arith, head, tail, count, placed);
      },
    )
