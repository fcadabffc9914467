-- ===== src/Kernel/Boot.antt =====
-- `kernel` of src/main.c: what it needs to reach the shell, and what the shell then finds.
use valern.Prelude.{
  none, ℕ, ◌≡◌, refl, ◌∙◌, List, [], ◌∷◌, some, length, Option, true, ◌<◌, ◌^◌, false, ◌⊎◌,
  Bool-cases, inr, inl, ◌++◌,
}
use valern.Port.{Io}
use valern.Keyboard.Driver.Init.{Session, IsSession}
use valern.Keyboard.Driver.Characters.{IsReady}
use valern.Console.Screen.{Console, Framebuffer}
use valern.Console.Text.Grid.{SameGrid}
use valern.Console.Text.Travel.{SameGrid-trans}
use valern.Console.Command.{plain, Message, print_lines}
use valern.Console.Command.Lines.{IsShowable-of_SameGrid, rendered}
use valern.Console.Shell.{Shell, prompt}
use valern.Console.Shell.Line.{IsEditing}
use valern.Kernel.Stages.{announce_lem, IsListening, start_interrupts_lem, interrupts_lines}
use valern.Kernel.{
  System, Image, in_shell, start_interrupts, kernel, Requests, halted, first_framebuffer, welcome,
  Arrivals,
}
use valern.Console.Setup.Unready.{IsUnready}
use valern.Psf.{PsfFont, psf_load_font}
use valern.Gdt.{gdt_init_tss, gdt_get_tss_segment}
use valern.Console.Setup.Usable.{IsSized, IsUsable}
use valern.Console.Setup.Init.{Chooses, init_shell_lem}
use valern.Console.Text.Redraw.{Redraws-trans}
use valern.Console.Setup.{blue, init_shell}
use valern.Fonts.{vga_font}
use valern.Console.Printf.Output.{print_lines-append}
use valern.Kernel.Taken.{Taken, arrivals_of, taken_by, taken_inputs, taken_by-IsReady}

-- The kernel's static variables as the bootloader loads them, as far as it reads them before it writes
-- them. The driver's are zero, with which it is ready.
pub record IsLoaded (m : System) : Type 0 where
  pub console_unready : IsUnready m.console
  pub idt_size : length m.interrupts.idt ≡ 256
  pub keyboard_ready : IsReady m.keyboard

-- What the shell finds when its loop begins.
pub record IsServing (image : Image) (font : PsfFont) (fb : Framebuffer) (m : System) (s : Shell)
    : Type 0 where
  pub task_loaded : m.segments.task_register ≡ gdt_get_tss_segment
  pub listening : IsListening image.stub_address m.interrupts
  pub keyboard_ready : IsReady m.keyboard
  pub editing : IsEditing s []
  pub sizes : IsSized s.console font fb

-- All messages of the kernel, and the shell's prompt.
abbrev pub boot_lines : List Message
boot_lines = plain "Initializing interrupts...\n" blue ∷ interrupts_lines ++ welcome ++ prompt ∷ []

-- The console that the shell finds is that of `init_shell` with the messages printed.
abbrev pub Prints : Image → Framebuffer → System → Shell → Type 0
Prints image fb m s =
    (con : Console) × (init_shell vga_font image.default_psf fb m.console ≡ some con)
    × (print_lines boot_lines con ≡ some s.console)

pub IsSized-of_SameGrid :
    (con con' : Console) (font : PsfFont) (fb : Framebuffer)
    → SameGrid con con'
    → IsSized con font fb
    → IsSized con' font fb
IsSized-of_SameGrid con con' font fb g z = record {
  font_is = g.font_same ∙ z.font_is;
  scale_is = g.scale_same ∙ z.scale_is;
  screen_is = Redraws-trans z.screen_is g.redrawn_same;
  width_is = g.width_same ∙ z.width_is;
  height_is = g.height_same ∙ z.height_is;
}

-- On a loaded machine, with a supported boot protocol, at least one framebuffer, a font that can be
-- drawn on the first one, and a keyboard controller that becomes ready at every wait, with what the
-- service routine has read gone, the kernel reaches the loop of the shell, whatever keyboard interrupts
-- come after `interrupts_init`, before and between the port accesses of `keyboard_init` and after it, but
-- for those within its reset of the key buffer and of the modifiers, which are not among them. It has
-- consumed exactly the answers of the controllers; the task register holds the task state's selector, the
-- processor takes the keyboard's interrupts, at the stub, and no other vector is present; the driver
-- is ready, and has accepted each interrupt, in their order, with its reset behind the early ones; the
-- line is empty, on a valid console of the first framebuffer, with the chosen font at double size, on
-- which `init_shell` has been followed by exactly the kernel's messages, in their order, and the prompt.
pub kernel_lem :
    (taken : Taken) (image : Image) (session : Session) (a1 a2 : ℕ) (rest : List ℕ) (m : System)
    (fb : Framebuffer) (others : List Framebuffer) (font : PsfFont)
    → IsLoaded m
    → image.stub_address < 2 ^ 64
    → length image.garbage ≡ 256
    → Chooses m.console
        (psf_load_font (some m.console.font) (some image.default_psf) (length image.default_psf))
        font
    → IsUsable font fb
    → IsSession session
    → (m' : System) × (s : Shell) × (io' : Io) × (kernel
          (arrivals_of taken)
          image
          (record { base_revision_supported = true; framebuffers = some (fb ∷ others) })
          m
          (record { inputs = a1 ∷ a2 ∷ taken_inputs taken session rest; trace = [] })
        ≡ some (in_shell m' s, io'))
      × (io'.inputs ≡ rest)
      × (m'.keyboard ≡ taken_by taken m.keyboard)
      × IsServing image font fb m' s
      × Prints image fb m s
unfolding kernel gdt_init_tss gdt_get_tss_segment
kernel_lem taken image session a1 a2 rest m fb others font loaded b l choice u h =
    let (con, e, started) =
      init_shell_lem image.default_psf fb m.console font loaded.console_unready choice u in
    let lines = plain "Initializing interrupts...\n" blue ∷ [] in
    let io : Io = record { inputs = a1 ∷ a2 ∷ taken_inputs taken session rest; trace = [] } in
    let m1 = record m { segments = gdt_init_tss image.tss_address m.segments; console = con } in
    let (con', printed, v', g, all) =
      announce_lem lines m1 (start_interrupts (arrivals_of taken) image) io started.valid
        (rendered lines refl) in
    let (m', s, io', f, used, kept) =
      start_interrupts_lem taken image session a1 a2 rest (record m1 { console = con' }) b h l
        loaded.idt_size v' (IsShowable-of_SameGrid con con' g started.showable) in
    (
      m',
      s,
      io',
      rw (kernel, e) (printed ∙ f),
      used,
      kept.keyboard_is,
      record {
        task_loaded = rw kept.segments_same refl;
        listening = kept.listening;
        keyboard_ready =
            rw kept.keyboard_is (taken_by-IsReady taken m.keyboard loaded.keyboard_ready);
        editing = kept.editing;
        sizes =
            IsSized-of_SameGrid con s.console font fb
              (SameGrid-trans con con' s.console g kept.grid_same) started.sizes;
      },
      (
        con,
        e,
        print_lines-append lines (interrupts_lines ++ welcome ++ prompt ∷ []) con all
            kept.printed_lines,
      ),
    )

first_framebuffer-none :
    (sent : Option (List Framebuffer))
    → (sent ≡ none) ⊎ (sent ≡ some [])
    → first_framebuffer sent ≡ none
first_framebuffer-none sent (inl e) = rw e refl
first_framebuffer-none sent (inr e) = rw e refl

-- Without a supported boot protocol, a response or a framebuffer, the kernel halts before it has
-- accessed a port or touched the console, the interrupts or the keyboard.
pub kernel-halts :
    (arrivals : Arrivals) (image : Image) (requests : Requests) (m : System) (io : Io)
    → (requests.base_revision_supported ≡ false)
      ⊎ ((requests.framebuffers ≡ none) ⊎ (requests.framebuffers ≡ some []))
    → (m' : System) × (kernel arrivals image requests m io ≡ some (halted m', io))
      × (m'.console ≡ m.console)
      × (m'.interrupts ≡ m.interrupts)
      × (m'.keyboard ≡ m.keyboard)
unfolding kernel
kernel-halts arrivals image requests m io (inl old) = (m, rw (kernel, old) refl, refl, refl, refl)
kernel-halts arrivals image requests m io (inr no_screen) =
    elim (Bool-cases requests.base_revision_supported) [
      | inr old ↦ (m, rw (kernel, old) refl, refl, refl, refl)
      | inl new ↦ (
        record m { segments = gdt_init_tss image.tss_address m.segments },
        rw (kernel, new, first_framebuffer-none requests.framebuffers no_screen) refl,
        refl,
        refl,
        refl,
      )
    ]
