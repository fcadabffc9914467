-- ===== src/Console/Shell/Typed.antt =====
-- The loop of `shell` in src/console.c on the scancodes that the keyboard sends.
use valern.Prelude.{
  ℕ, ◌<◌, ◌≡◌, refl, sym, ap, ◌∙◌, arith, List, [], ◌∷◌, ◌++◌, length, Every, append-nil,
}
use valern.Keyboard.Buffer.Queue.{contents}
use valern.Keyboard.Driver.{Keyboard, Irq, deliver}
use valern.Keyboard.Driver.Characters.{IsReady}
use valern.Keyboard.Driver.Reach.{deliver-IsReady}
use valern.Keyboard.Driver.Typing.{strokes, deliver-Types}
use valern.Console.Shell.{Shell, shell_keys}
use valern.Console.Shell.Loop.{characters, drained, shell_loop, settled, shell_loop_refines}

drained-IsReady : (kb : Keyboard) → IsReady kb → IsReady (drained kb)
drained-IsReady kb r = record {
  valid = record {
    storage = r.valid.storage;
    tail_in = omega arith;
    count_in = omega arith;
    head_at = omega (arith, r.valid.head_at);
  };
  typed = tt;
  no_ctrl_right = r.no_ctrl_right;
  no_alt_right = r.no_alt_right;
}

pub characters-strokes :
    (irqs : List Irq) (kb : Keyboard)
    → Every (λ (irq : Irq). irq.scancode < 256) irqs
    → IsReady kb
    → characters irqs kb ≡ contents kb.buffer ++ strokes irqs kb.key_state kb.extended_scancode
characters-strokes [] kb h r = sym (append-nil (contents kb.buffer))
characters-strokes (irq ∷ irqs) kb h r =
    let empty = drained-IsReady kb r in
    let one = deliver-Types irq (drained kb) h.0 empty refl in
    let next = deliver irq (drained kb) in
    let rest = characters-strokes irqs next h.1 (deliver-IsReady irq (drained kb) empty) in
    ap (λ l. contents kb.buffer ++ l)
      (rest
        ∙ ap (λ l. l ++ strokes irqs next.key_state next.extended_scancode) one.waits
        ∙ ap (λ k. one.typed ++ strokes irqs k next.extended_scancode) one.keys
        ∙ ap (λ e. one.typed ++ strokes irqs one.after_keys e) one.prefix
        ∙ sym (one.steps irqs))

-- On interrupts that bring byte scancodes, and with more rounds than characters, the loop of the shell
-- is its run on the characters that wait and then on those that the scancodes type: each press of a key
-- of the tables its character under the modifiers that are held at that moment, in the order of the
-- presses and none lost; then it waits in `hlt`.
pub shell_loop-strokes :
    (rounds : ℕ) (irqs : List Irq) (kb : Keyboard) (s : Shell)
    → Every (λ (irq : Irq). irq.scancode < 256) irqs
    → IsReady kb
    → length (contents kb.buffer ++ strokes irqs kb.key_state kb.extended_scancode) < rounds
    → shell_loop rounds irqs kb s
      ≡ settled
          (shell_keys (contents kb.buffer ++ strokes irqs kb.key_state kb.extended_scancode) s)
shell_loop-strokes rounds irqs kb s b r h =
    let typed = characters-strokes irqs kb b r in
    shell_loop_refines rounds irqs kb s r (rw typed h) ∙ ap (λ cs. settled (shell_keys cs s)) typed
