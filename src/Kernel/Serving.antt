-- ===== src/Kernel/Serving.antt =====
-- `kernel` of src/main.c and the loop of its shell on keyboard interrupts.
use valern.Prelude.{
  ℕ, ◌≡◌, ◌∙◌, List, [], ◌∷◌, some, length, arith, true, ◌<◌, ◌^◌, suc, Every, ap, ◌++◌, subst,
}
use valern.Port.{Io}
use valern.Keyboard.Buffer.Queue.{contents}
use valern.Keyboard.Driver.{Irq, Keyboard}
use valern.Keyboard.Driver.Init.{Session, IsSession}
use valern.Keyboard.Driver.Characters.{IsReady}
use valern.Console.Screen.{Framebuffer}
use valern.Console.Shell.{Shell, shell_keys}
use valern.Console.Shell.Line.{IsEditing}
use valern.Kernel.{System, Image, in_shell, kernel}
use valern.Psf.{PsfFont, psf_load_font}
use valern.Console.Setup.Usable.{IsSized, IsUsable}
use valern.Console.Setup.Init.{Chooses}
use valern.Console.Shell.Loop.{shell_loop, waits, settled}
use valern.Console.Shell.Session.{all_events, edit_all, shell_keys_lem}
use valern.Keyboard.Driver.Typing.{strokes}
use valern.Console.Shell.Typed.{shell_loop-strokes}
use valern.Kernel.Taken.{Taken, arrivals_of, taken_by, taken_inputs}
use valern.Kernel.Boot.{IsLoaded, IsSized-of_SameGrid, kernel_lem}

-- The characters that wait and then those that the scancodes type.
abbrev pub typed_on : List Irq → Keyboard → List ℕ
typed_on irqs kb = contents kb.buffer ++ strokes irqs kb.key_state kb.extended_scancode

pub loop_serves :
    (irqs : List Irq) (kb kb' : Keyboard) (s : Shell)
    → Every (λ (irq : Irq). irq.scancode < 256) irqs
    → kb' ≡ kb
    → IsReady kb'
    → shell_loop (suc (length (typed_on irqs kb))) irqs kb' s
      ≡ settled (shell_keys (typed_on irqs kb) s)
loop_serves irqs kb kb' s bytes e r =
    subst
      (λ k.
        shell_loop (suc (length (typed_on irqs k))) irqs kb' s
        ≡ settled (shell_keys (typed_on irqs k) s))
      e (shell_loop-strokes (suc (length (typed_on irqs kb'))) irqs kb' s bytes r (omega arith))

-- The kernel that has reached the shell, under the conditions and with the interrupts of `kernel_lem`, and
-- then gets, each at a `hlt` of the shell, any keyboard interrupts that bring bytes, carries out exactly the lines of the characters that were typed before the shell waited and then of those that
-- the scancodes type, each key's character under the modifiers held at that moment; it waits with the
-- line that the editor makes of the rest, on the grid that it started with.
pub kernel-serves :
    (taken : Taken) (image : Image) (session : Session) (a1 a2 : ℕ) (rest : List ℕ) (m : System)
    (fb : Framebuffer) (others : List Framebuffer) (font : PsfFont) (irqs : List Irq)
    → IsLoaded m
    → image.stub_address < 2 ^ 64
    → length image.garbage ≡ 256
    → Chooses m.console
        (psf_load_font (some m.console.font) (some image.default_psf) (length image.default_psf))
        font
    → IsUsable font fb
    → IsSession session
    → Every (λ (irq : Irq). irq.scancode < 256) irqs
    → let typed = typed_on irqs (taken_by taken m.keyboard) in
      (m' : System) × (s : Shell) × (io' : Io) × (s' : Shell) × (kernel
          (arrivals_of taken)
          image
          (record { base_revision_supported = true; framebuffers = some (fb ∷ others) })
          m
          (record { inputs = a1 ∷ a2 ∷ taken_inputs taken session rest; trace = [] })
        ≡ some (in_shell m' s, io'))
      × (shell_loop (suc (length typed)) irqs m'.keyboard s ≡ waits s' (all_events typed []))
      × IsEditing s' (edit_all typed [])
      × IsSized s'.console font fb
kernel-serves taken image session a1 a2 rest m fb others font irqs loaded b l choice u h bytes =
    let (m', s, io', e, _, same, serving, _) =
      kernel_lem taken image session a1 a2 rest m fb others font loaded b l choice u h in
    let kb = taken_by taken m.keyboard in
    let (s', f, v, g) = shell_keys_lem (typed_on irqs kb) s [] serving.editing in
    (
      m',
      s,
      io',
      s',
      e,
      loop_serves irqs kb m'.keyboard s bytes same serving.keyboard_ready ∙ ap settled f,
      v,
      IsSized-of_SameGrid s.console s'.console font fb g serving.sizes,
    )
