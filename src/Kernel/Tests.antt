-- ===== src/Kernel/Tests.antt =====
-- `kernel` of src/main.c with the linked font's header and without it, on one screen and on none.
use valern.Prelude.{◌≡◌, refl, arith, List, [], ◌∷◌, some, true, replicate, codes, ◌++◌}
use valern.Port.{Io, inb}
use valern.Psf.{psf_load_font, load_psf1}
use valern.Psf.Version1.{psf1_font}
use valern.Keyboard.Driver.{
  static_keyboard, Irq, deliver, keyboard_interrupt_handler, accept_scancode, process_scancode,
  dispatch_key, process_key,
}
use valern.Keyboard.Tests.{session, session-IsSession, press, static-IsReady}
use valern.Console.Setup.Usable.{IsSized}
use valern.Console.Setup.Init.{psf_font, vga}
use valern.Console.Setup.Fallback.{fallback, fallback-IsUsable}
use valern.Console.Setup.Tests.{
  bundled, bundled_rows, bundled-IsUsable, screen, static_console, static-IsUnready,
}
use valern.Console.Shell.{Shell}
use valern.Console.Shell.Line.{IsEditing}
use valern.Console.Shell.Session.{all_events}
use valern.Console.Shell.Loop.{shell_loop, waits}
use valern.Interrupts.Tests.{fresh, answer_irqs}
use valern.Gdt.Tests.{loaded}
use valern.Kernel.{System, Image, Requests, in_shell, kernel}
use valern.Kernel.Boot.{IsLoaded, IsServing, kernel_lem, Prints}
use valern.Kernel.Serving.{kernel-serves}
use valern.Keyboard.Layout.{ascii_of}
use valern.Console.Text.Memory.{IsScreen}
use valern.Console.Terminal.{Output, Shows, prints, after_all, clears}
use valern.Console.Setup.{white, black, red, gray, green}
use valern.Kernel.Display.{boot_outputs, kernel-Shows}
use valern.Console.Terminal.Facts.{say}
use valern.Console.Terminal.Start.{first_page, fallback-HasBytes}
use valern.Kernel.Taken.{Taken, arrivals_of, taken_inputs, taken_by}
use valern.Keyboard.Modifiers.{handle_modifier}
use valern.Keyboard.Buffer.{keyboard_buffer_add, keyboard_clear_buffer}

abbrev image : Image
image = record {
  tss_address = 0xFFFF_FFFF_8000_4000;
  idt_address = 0xFFFF_FFFF_8000_5000;
  stub_address = 0xFFFF_FFFF_8000_1230;
  default_psf = bundled;
  garbage = replicate 256 7;
}

abbrev system : System
system = record {
  segments = loaded;
  interrupts = fresh;
  keyboard = static_keyboard;
  console = static_console;
}

system-IsLoaded : IsLoaded system
system-IsLoaded = record {
  console_unready = static-IsUnready;
  idt_size = refl;
  keyboard_ready = static-IsReady;
}

abbrev one_screen : Requests
one_screen = record { base_revision_supported = true; framebuffers = some (screen ∷ []) }

-- Shift is pressed before the reset of the driver, and h while the kernel prints its last messages; i
-- and Enter come when the shell waits. The controller's answers raise interrupts too.
abbrev taken : Taken
taken = record { early = press 0x2A ∷ []; during = answer_irqs; late = press 0x23 ∷ [] }

abbrev typed : List Irq
typed = press 0x17 ∷ press 0x1C ∷ []

kernel_example :
    (m' : System) × (s : Shell) × (io' : Io) × (kernel
        (arrivals_of taken)
        image
        one_screen
        system
        (record { inputs = 0xB8 ∷ 0x8E ∷ taken_inputs taken session []; trace = [] })
      ≡ some (in_shell m' s, io'))
    × (io'.inputs ≡ [])
    × (m'.keyboard ≡ taken_by taken static_keyboard)
    × IsServing image (psf1_font 2 16 bundled_rows) screen m' s
    × Prints image screen system s
unfolding psf_load_font load_psf1
kernel_example =
    kernel_lem taken image session 0xB8 0x8E [] system screen [] (psf1_font 2 16 bundled_rows)
      system-IsLoaded (omega arith) refl (psf_font (psf1_font 2 16 bundled_rows)) bundled-IsUsable
      session-IsSession

abbrev no_screen : Requests
no_screen = record { base_revision_supported = true; framebuffers = some [] }

-- An empty font file is rejected, and the built-in font is used.
abbrev image_without_font : Image
image_without_font = record image { default_psf = [] }

kernel-serves_example :
    (m' : System) × (s : Shell) × (io' : Io) × (s' : Shell) × (kernel
        (arrivals_of taken)
        image_without_font
        one_screen
        system
        (record { inputs = 0xB8 ∷ 0x8E ∷ taken_inputs taken session []; trace = [] })
      ≡ some (in_shell m' s, io'))
    × (shell_loop 4 typed m'.keyboard s ≡ waits s' (all_events (b'h' ∷ b'i' ∷ 10 ∷ []) []))
    × IsEditing s' []
    × IsSized s'.console (fallback static_console) screen
unfolding psf_load_font ascii_of deliver inb keyboard_interrupt_handler accept_scancode
    process_scancode dispatch_key process_key handle_modifier keyboard_buffer_add
    keyboard_clear_buffer
kernel-serves_example =
    kernel-serves taken image_without_font session 0xB8 0x8E [] system screen []
      (fallback static_console) typed system-IsLoaded (omega arith) refl vga
      (fallback-IsUsable static_console screen (omega arith) (omega arith) (omega arith)
        (omega arith))
      session-IsSession (omega arith)

screen-IsScreen : IsScreen screen
screen-IsScreen = record { rows_fit = omega arith; no_wrap = omega arith }

-- The typed line, with the output that no such command brings.
abbrev hi_outputs : List Output
hi_outputs =
    prints white black (codes "h")
    ∷ prints white black (codes "i")
    ∷ say white "\n"
    ∷ say red "Unknown command: hi\n"
    ∷ say gray "Type 'help' for available commands.\n"
    ∷ say green "valern> "
    ∷ []

kernel-Shows_example :
    (m' : System) × (s : Shell) × (io' : Io) × (s' : Shell) × (kernel
        (arrivals_of taken)
        image_without_font
        one_screen
        system
        (record { inputs = 0xB8 ∷ 0x8E ∷ taken_inputs taken session []; trace = [] })
      ≡ some (in_shell m' s, io'))
    × (shell_loop 4 typed m'.keyboard s ≡ waits s' (all_events (b'h' ∷ b'i' ∷ 10 ∷ []) []))
    × Shows s'.console (
        after_all
          ((clears ∷ boot_outputs) ++ hi_outputs)
          (first_page (fallback static_console) screen))
unfolding psf_load_font ascii_of deliver inb keyboard_interrupt_handler accept_scancode
    process_scancode dispatch_key process_key handle_modifier keyboard_buffer_add
    keyboard_clear_buffer
kernel-Shows_example =
    kernel-Shows taken image_without_font session 0xB8 0x8E [] system screen []
      (fallback static_console) typed system-IsLoaded (omega arith) refl vga
      (fallback-IsUsable static_console screen (omega arith) (omega arith) (omega arith)
        (omega arith))
      screen-IsScreen (fallback-HasBytes static_console) session-IsSession (omega arith)
