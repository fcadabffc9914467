-- ===== src/Console/Shell/Loop.antt =====
-- The loop of `shell` in src/console.c with `keyboard_getchar` of src/keyboard.c: what the keyboard's
-- interrupts make the shell do.
use valern.Prelude.{
  ℕ, zero, suc, ◌+◌, ◌-◌, ◌%◌, ◌<◌, ◌≡◌, refl, sym, ap, ◌∙◌, arith, List, [], ◌∷◌, ◌++◌, Option,
  none, some, length, true, false, Bool-cases, ◌⊎◌, inl, inr, Option-cases,
}
use valern.Port.{Event}
use valern.Keyboard.Buffer.{key_buffer_size, keyboard_has_key, keyboard_buffer_get}
use valern.Keyboard.Buffer.Queue.{contents, get_refines, dequeue}
use valern.Keyboard.Driver.{Keyboard, Irq, deliver, keyboard_getchar, keyboard_getchar_nonblock}
use valern.Keyboard.Driver.Characters.{IsReady}
use valern.Keyboard.Driver.Blocking.{first-waiting, none-waiting}
use valern.Keyboard.Driver.Reach.{deliver-IsReady, nonblock-IsReady}
use valern.Console.Shell.{Shell, shell_key, shell_keys}

-- Where the loop stands: in a `hlt` that no interrupt of the schedule ends, after a read of memory that
-- C leaves undefined, or at the rounds' end. Also the port accesses made so far, oldest first.
pub data Progress : Type 0 where
  waits : Shell → List Event → Progress
  undefined : Progress
  runs : List Irq → Keyboard → Shell → List Event → Progress

abbrev after : List Event → Progress → Progress
after events (waits s later) = waits s (events ++ later)
after events undefined = undefined
after events (runs irqs kb s later) = runs irqs kb s (events ++ later)

-- At most so many rounds.
unfoldable pub shell_loop : ℕ → List Irq → Keyboard → Shell → Progress
shell_loop zero irqs kb s = runs irqs kb s []
shell_loop (suc rounds) irqs kb s = elim (keyboard_getchar irqs kb) [
  | none ↦ waits s []
  | some (c, irqs', kb') ↦ elim (shell_key c s) [
    | none ↦ undefined
    | some (s', events) ↦ after events (shell_loop rounds irqs' kb' s')
  ]
]

-- The driver after its characters have been read.
abbrev pub drained : Keyboard → Keyboard
drained kb =
    let b = kb.buffer in
    record kb {
      buffer = record b {
        buffer_tail = (b.buffer_tail + b.buffer_count) % key_buffer_size;
        buffer_count = 0;
      };
    }

-- The characters that the interrupts put into the buffer, if each finds the earlier ones read.
abbrev pub characters : List Irq → Keyboard → List ℕ
characters [] kb = contents kb.buffer
characters (irq ∷ irqs) kb = contents kb.buffer ++ characters irqs (deliver irq (drained kb))

-- What `keyboard_getchar` takes is the first of the characters, and it leaves the others.
abbrev Takes : List Irq → Keyboard → Type 0
Takes irqs kb =
    ((keyboard_getchar irqs kb ≡ none) × (characters irqs kb ≡ []))
    ⊎ ((c : ℕ) × (irqs' : List Irq) × (kb' : Keyboard) × (keyboard_getchar irqs kb
          ≡ some (c, irqs', kb'))
        × (characters irqs kb ≡ c ∷ characters irqs' kb')
        × IsReady kb')

read_splits :
    (kb : Keyboard)
    → IsReady kb
    → keyboard_has_key kb.buffer ≡ true
    → contents kb.buffer
      ≡ (keyboard_getchar_nonblock kb).0 ∷ contents (keyboard_getchar_nonblock kb).1.buffer
unfolding keyboard_getchar_nonblock dequeue
read_splits kb r waiting =
    let (q, e) = first-waiting kb r waiting in
    let rest : contents (keyboard_buffer_get kb.buffer).1 ≡ q =
      ap (λ (p : ℕ × List ℕ). p.1) (get_refines r.valid) ∙ rw e refl in
    e ∙ ap (λ l. (keyboard_buffer_get kb.buffer).0 ∷ l) (sym rest)

drained-read :
    (kb : Keyboard)
    → keyboard_has_key kb.buffer ≡ true
    → drained (keyboard_getchar_nonblock kb).1 ≡ drained kb
unfolding keyboard_getchar_nonblock keyboard_buffer_get keyboard_has_key
drained-read kb waiting =
    let b = kb.buffer in
    let more : 0 < b.buffer_count = ground arith in
    let end : ((b.buffer_tail + 1) % 256 + (b.buffer_count - 1)) % 256
        ≡ (b.buffer_tail + b.buffer_count) % 256 =
      omega arith in
    rw (waiting, end) refl

drained-empty : (kb : Keyboard) → IsReady kb → keyboard_has_key kb.buffer ≡ false → drained kb ≡ kb
unfolding keyboard_has_key
drained-empty kb r empty =
    let none_left : kb.buffer.buffer_count ≡ 0 = ground arith in
    let same : (kb.buffer.buffer_tail + 0) % 256 ≡ kb.buffer.buffer_tail =
      omega (arith, r.valid.tail_in) in
    rw (none_left, same) refl

getchar-Takes : (irqs : List Irq) (kb : Keyboard) → IsReady kb → Takes irqs kb
unfolding keyboard_getchar
getchar-Takes [] kb r = elim (Bool-cases (keyboard_has_key kb.buffer)) [
  | inl waiting ↦
      let (c, kb') = keyboard_getchar_nonblock kb in
      inr (c, [], kb', rw waiting refl, read_splits kb r waiting, nonblock-IsReady kb r)
  | inr empty ↦ inl (rw empty refl, none-waiting kb empty)
]
getchar-Takes (irq ∷ irqs) kb r = elim (Bool-cases (keyboard_has_key kb.buffer)) [
  | inl waiting ↦
      let (c, kb') = keyboard_getchar_nonblock kb in
      inr (
        c,
        irq ∷ irqs,
        kb',
        rw waiting refl,
        rw (read_splits kb r waiting, ← drained-read kb waiting) refl,
        nonblock-IsReady kb r,
      )
  | inr empty ↦
      rw (empty, none-waiting kb empty, drained-empty kb r empty)
        (getchar-Takes irqs (deliver irq kb) (deliver-IsReady irq kb r))
]

-- The result of a run that ends, as the loop's.
abbrev pub settled : Option (Shell × List Event) → Progress
settled none = undefined
settled (some (s, events)) = waits s events

after-settled :
    (events : List Event) (o : Option (Shell × List Event))
    → after events (settled o)
      ≡ settled (elim o [ none ↦ none | some (s'', later) ↦ some (s'', events ++ later) ])
after-settled events none = refl
after-settled events (some (s'', later)) = refl

-- With more rounds than characters, the loop is the run of the shell on exactly the characters that
-- the interrupts put into the buffer, in their order, and then waits in `hlt`.
pub shell_loop_refines :
    (rounds : ℕ) (irqs : List Irq) (kb : Keyboard) (s : Shell)
    → IsReady kb
    → length (characters irqs kb) < rounds
    → shell_loop rounds irqs kb s ≡ settled (shell_keys (characters irqs kb) s)
unfolding shell_loop shell_keys
shell_loop_refines zero irqs kb s r h = absurd (omega arith)
shell_loop_refines (suc rounds) irqs kb s r h = elim (getchar-Takes irqs kb r) [
  | inl (e, f) ↦ rw (shell_loop, e, f) refl
  | inr (c, irqs', kb', e, f, r') ↦ elim (Option-cases (shell_key c s)) [
    | inl bad ↦ rw (shell_loop, e, f, shell_keys, bad) refl
    | inr ((s', events), good) ↦
        let fewer : length (characters irqs' kb') < rounds = omega (arith, ap length f) in
        rw (shell_loop, e, f, shell_keys, good)
          (ap (after events) (shell_loop_refines rounds irqs' kb' s' r' fewer)
            ∙ after-settled events (shell_keys (characters irqs' kb') s'))
  ]
]
