-- ===== src/Kernel.antt =====
-- src/main.c: `kernel`, from the entry point to the shell, with the keyboard interrupts that come
-- before the shell waits for its first key.
pub mod Taken
pub mod Stages
pub mod Boot
pub mod Serving
pub mod Display
mod Tests
use valern.Prelude.{ℕ, List, [], ◌∷◌, Option, none, some, Bool, true, false, not, if◌then◌else◌}
use valern.Port.{M, pure, ◌>>=◌, Event}
use valern.Gdt.{Segments, gdt_init_tss}
use valern.Interrupts.{Interrupts, interrupts_init}
use valern.Keyboard.Driver.{Keyboard}
use valern.Interrupts.Raced.{serve, keyboard_init_with}
use valern.Fonts.{vga_font}
use valern.Console.Screen.{Framebuffer, Console}
use valern.Console.Setup.{init_shell, blue, green, gray}
use valern.Console.Command.{Message, plain, print_lines}
use valern.Console.Shell.{Shell, shell_start}

-- The static variables of all files, with the processor's tables.
pub record System : Type 0 where
  pub segments : Segments
  pub interrupts : Interrupts
  pub keyboard : Keyboard
  pub console : Console

-- What the linker decides: the addresses of the task state, of the interrupt table and of the
-- keyboard's stub, and the font file. And what the stack holds where `shell` puts its buffer.
pub record Image : Type 0 where
  pub tss_address : ℕ
  pub idt_address : ℕ
  pub stub_address : ℕ
  pub default_psf : List ℕ
  pub garbage : List ℕ

-- What the bootloader has answered: no response, or the framebuffers that it found.
pub record Requests : Type 0 where
  pub base_revision_supported : Bool
  pub framebuffers : Option (List Framebuffer)

-- `hcf`, memory that C leaves undefined, or the loop of `shell`, which does not return.
pub data Outcome : Type 0 where
  halted : System → Outcome
  undefined : Outcome
  in_shell : System → Shell → Outcome

abbrev pub first_framebuffer : Option (List Framebuffer) → Option Framebuffer
first_framebuffer none = none
first_framebuffer (some []) = none
first_framebuffer (some (fb ∷ others)) = some fb

-- What follows is done with the console that was left.
abbrev pub on_console : Option Console → System → (System → M Outcome) → M Outcome
on_console none m next = pure undefined
on_console (some con) m next = next (record m { console = con })

-- `printf` in turn, and then the rest.
abbrev pub announce : List Message → System → (System → M Outcome) → M Outcome
announce lines m next = on_console (print_lines lines m.console) m next

abbrev pub call_shell : List ℕ → System → M Outcome
call_shell garbage m = elim (shell_start garbage m.console) [
  | none ↦ pure undefined
  | some (s, _) ↦ pure (in_shell m s)
]

abbrev pub welcome : List Message
welcome =
    plain "Keyboard initialized!\n" green
    ∷ plain "GDT TSS Started!\n\n" blue
    ∷ plain "Welcome to Valern!\n" gray
    ∷ plain "A minimal operating system.\n\n" gray
    ∷ []

-- The interrupts that come before the shell waits: how many before `keyboard_init`, between its accesses
-- of the ports, and after it. They may come while a message is printed; the service routine and the
-- console share no state.
pub record Arrivals : Type 0 where
  pub before_init : ℕ
  pub during_init : ℕ → ℕ
  pub after_init : ℕ

-- From `keyboard_init` on.
unfoldable pub start_keyboard : Arrivals → Image → System → M Outcome
start_keyboard arrivals image m = do
  early ← serve arrivals.before_init m.keyboard
  kb ← keyboard_init_with arrivals.during_init early
  late ← serve arrivals.after_init kb
  announce welcome (record m { keyboard = late }) (call_shell image.garbage)

-- From `interrupts_init` on.
unfoldable pub start_interrupts : Arrivals → Image → System → M Outcome
start_interrupts arrivals image m = do
  interrupts ← interrupts_init image.stub_address image.idt_address m.interrupts
  announce (plain "Interrupts initialized!\n" green ∷ plain "Initializing keyboard...\n" blue ∷ [])
      (record m { interrupts = interrupts }) (start_keyboard arrivals image)

unfoldable pub kernel : Arrivals → Image → Requests → System → M Outcome
kernel arrivals image requests m =
    if not requests.base_revision_supported
    then pure (halted m)
    else (let m' = record m { segments = gdt_init_tss image.tss_address m.segments } in
        elim (first_framebuffer requests.framebuffers) [
          | none ↦ pure (halted m')
          | some framebuffer ↦
              on_console (init_shell vga_font image.default_psf framebuffer m'.console) m' (λ ready.
                announce (plain "Initializing interrupts...\n" blue ∷ []) ready
                  (start_interrupts arrivals image))
        ])
