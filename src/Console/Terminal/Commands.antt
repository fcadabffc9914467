-- ===== src/Console/Terminal/Commands.antt =====
-- `process_command` of src/console.c on a page: what each command makes the screen show.
use valern.Prelude.{ℕ, ◌≡◌, refl, ap, subst, List, [], ◌∷◌, ◌++◌, some, codes, Every}
use valern.Stdmem.Strings.{IsText}
use valern.Format.{int_to_str, uint_to_str, uint_to_hex_upper, to_text, digits_loop}
use valern.Console.Screen.{Console, console_clear}
use valern.Console.Text.Grid.{SameGrid}
use valern.Console.Printf.{text}
use valern.Console.Printf.Output.{Renders, string_of_lem}
use valern.Console.Setup.{white, gray, green, black, red, blue}
use valern.Console.Command.{
  Message, Command, help, clear, hello, test, info, reboot, unknown, empty, perform,
  process_command, help_lines, test_lines, info_lines, plain, filled, quiet, rebooted, print_lines,
}
use valern.Console.Command.Find.{command_of, find_command_lem}
use valern.Console.Command.Perform.{events_of}
use valern.Console.Command.Lines.{
  IsShowable, rendered, help-Renders, test-Renders, info-Renders, unknown-Renders,
}
use valern.Console.Terminal.{Page, Output, prints, clears, after_all, Shows, Draws}
use valern.Console.Terminal.Facts.{say, info_outputs, info_lem}
use valern.Console.Terminal.Print.{
  text_of, printed, print_lines-Draws, console_clear-Draws, Draws-refl,
}

abbrev help_outputs : List Output
help_outputs =
    say white "Available commands:\n"
    ∷ say gray "  help    - Show this help message\n"
    ∷ say gray "  clear   - Clear the screen\n"
    ∷ say gray "  hello   - Say hello\n"
    ∷ say gray "  test    - Test printf formatting\n"
    ∷ say gray "  info    - Show system information\n"
    ∷ say gray "  reboot  - Reboot the system\n"
    ∷ []

abbrev test_outputs : List Output
test_outputs =
    say blue "Testing printf formatting:\n"
    ∷ say white "Integer: 42\n"
    ∷ say white "Negative: -123\n"
    ∷ say white "Unsigned: 3000000000\n"
    ∷ say white "Hex lowercase: 0xff\n"
    ∷ say white "Hex uppercase: 0xFF\n"
    ∷ say white "Character: A\n"
    ∷ say white "String: Hello World!\n"
    ∷ say white "Pointer: 0x12345678\n"
    ∷ say white "Percent: 100%\n"
    ∷ []

-- What a command prints; `facts` is what `info` prints.
abbrev pub command_outputs : List Output → Command → List ℕ → List Output
command_outputs facts help line = help_outputs
command_outputs facts clear line = clears ∷ []
command_outputs facts hello line = say green "Hello from Valern OS!\n" ∷ []
command_outputs facts test line = test_outputs
command_outputs facts info line = facts
command_outputs facts reboot line = say blue "Rebooting...\n" ∷ []
command_outputs facts unknown line =
    prints red black (codes "Unknown command: " ++ line ++ codes "\n")
    ∷ say gray "Type 'help' for available commands.\n"
    ∷ []
command_outputs facts empty line = []

-- The facts depend on the grid only.
pub facts-of_SameGrid :
    (con con' : Console) → SameGrid con con' → printed (info_lines con') ≡ printed (info_lines con)
facts-of_SameGrid con con' g =
    rw
      (
        g.width_same, g.height_same, g.font_same, g.scale_same, g.redrawn_same.width_same,
        g.redrawn_same.height_same,
      )
      refl

abbrev Performs : Command → List ℕ → List ℕ → List Output → Console → Page → Type 0
Performs it line rest outputs con page =
    (con' : Console) × (perform it (line ++ 0 ∷ rest) con ≡ some (con', events_of it))
    × Draws con con' (after_all outputs page)

-- A command that only prints.
quiet_lem :
    (ls : List Message) (outputs : List Output) (con : Console) (page : Page)
    → Shows con page
    → Every Renders ls
    → printed ls ≡ outputs
    → (con' : Console) × (quiet (print_lines ls con) ≡ some (con', []))
      × Draws con con' (after_all outputs page)
quiet_lem ls outputs con page s r e =
    let (con', f, d) = print_lines-Draws ls con page s r in
    (con', ap quiet f, subst (λ o. Draws con con' (after_all o page)) e d)

test_lem : printed test_lines ≡ test_outputs
unfolding int_to_str uint_to_str uint_to_hex_upper to_text digits_loop
test_lem = refl

abbrev hello_lines : List Message
hello_lines = plain "Hello from Valern OS!\n" green ∷ []

abbrev reboot_lines : List Message
reboot_lines = plain "Rebooting...\n" blue ∷ []

perform-Performs :
    (it : Command) (line rest : List ℕ) (con : Console) (page : Page)
    → IsText line
    → IsShowable con
    → Shows con page
    → Performs it line rest (command_outputs (printed (info_lines con)) it line) con page
unfolding perform
perform-Performs help line rest con page h n s =
    quiet_lem help_lines help_outputs con page s help-Renders refl
perform-Performs clear line rest con page h n s =
    (console_clear con, refl, console_clear-Draws con page s)
perform-Performs hello line rest con page h n s =
    quiet_lem hello_lines (say green "Hello from Valern OS!\n" ∷ []) con page s
      (rendered hello_lines refl) refl
perform-Performs test line rest con page h n s =
    quiet_lem test_lines test_outputs con page s test-Renders test_lem
perform-Performs info line rest con page h n s =
    quiet_lem (info_lines con) (printed (info_lines con)) con page s (info-Renders con n) refl
perform-Performs reboot line rest con page h n s =
    let (con', e, d) = print_lines-Draws reboot_lines con page s (rendered reboot_lines refl) in
    (con', ap rebooted e, d)
perform-Performs unknown line rest con page h n s =
    quiet_lem
      (filled "Unknown command: %s\n" red (text (line ++ 0 ∷ rest) ∷ [])
        ∷ plain "Type 'help' for available commands.\n" gray
        ∷ [])
      (command_outputs [] unknown line) con page s (unknown-Renders line rest h)
      (rw (text_of, string_of_lem line rest h) refl)
perform-Performs empty line rest con page h n s = (con, refl, Draws-refl con page s)

-- A command in its buffer, with the facts as the code prints them.
pub process_command-prints :
    (line rest : List ℕ) (con : Console) (page : Page)
    → IsText line
    → IsShowable con
    → Shows con page
    → (con' : Console) × (process_command (line ++ 0 ∷ rest) con
        ≡ some (con', events_of (command_of line)))
      × Draws con con'
          (after_all (command_outputs (printed (info_lines con)) (command_of line) line) page)
unfolding process_command
process_command-prints line rest con page h n s =
    let (con', e, d) = perform-Performs (command_of line) line rest con page h n s in
    (con', rw (process_command, find_command_lem line rest h) e, d)

-- A command in its buffer, ended by a NUL, makes the screen show its outputs on the page that was there,
-- for `info` the facts about the console under their labels, and accesses no port but for the reset of
-- the machine.
pub process_command-Draws :
    (line rest : List ℕ) (con : Console) (page : Page)
    → IsText line
    → IsShowable con
    → Shows con page
    → (con' : Console) × (process_command (line ++ 0 ∷ rest) con
        ≡ some (con', events_of (command_of line)))
      × Draws con con' (after_all (command_outputs (info_outputs con) (command_of line) line) page)
process_command-Draws line rest con page h n s =
    let (con', e, d) = process_command-prints line rest con page h n s in
    (
      con',
      e,
      subst
          (λ facts. Draws con con' (after_all (command_outputs facts (command_of line) line) page))
          (info_lem con n) d,
    )
