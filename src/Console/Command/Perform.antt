-- ===== src/Console/Command/Perform.antt =====
-- The commands of src/console.c run to their ends on a valid console.
use valern.Prelude.{some, ℕ, ◌≡◌, refl, List, [], ◌∷◌, ◌++◌, ap, Every}
use valern.Stdmem.Strings.{IsText}
use valern.Port.{Event, write}
use valern.Console.Screen.{Console, console_clear}
use valern.Console.Text.Cursor.{console_clear-IsValid}
use valern.Console.Text.Grid.{IsValid, SameGrid}
use valern.Console.Printf.Output.{Renders, print_lines-prints}
use valern.Console.Command.{
  help, clear, hello, test, info, reboot, unknown, empty, Command, Message, perform,
  process_command, help_lines, test_lines, info_lines, plain, quiet, print_lines, rebooted,
}
use valern.Console.Command.Find.{command_of, find_command_lem}
use valern.Console.Setup.{green, blue}
use valern.Console.Text.Travel.{SameGrid-refl}
use valern.Console.Command.Lines.{
  IsShowable, rendered, help-Renders, test-Renders, info-Renders, unknown-Renders,
}

-- What a command may do to the ports.
abbrev pub events_of : Command → List Event
events_of Command.reboot = write 0x64 0xFE ∷ []
events_of _ = []

-- A command that only prints.
prints :
    (ls : List Message) (con : Console)
    → IsValid con
    → Every Renders ls
    → (con' : Console) × (quiet (print_lines ls con) ≡ some (con', []))
      × IsValid con'
      × SameGrid con con'
prints ls con v r =
    let (con', e, v', g) = print_lines-prints ls con v r in (con', ap quiet e, v', g)

perform_lem :
    (it : Command) (line rest : List ℕ) (con : Console)
    → IsText line
    → IsValid con
    → IsShowable con
    → (con' : Console) × (perform it (line ++ 0 ∷ rest) con ≡ some (con', events_of it))
      × IsValid con'
      × SameGrid con con'
unfolding perform
perform_lem help line rest con h v n = prints help_lines con v help-Renders
perform_lem clear line rest con h v n =
    let (v', g) = console_clear-IsValid con v in (console_clear con, refl, v', g)
perform_lem hello line rest con h v n =
    prints (plain "Hello from Valern OS!\n" green ∷ []) con v
      (rendered (plain "Hello from Valern OS!\n" green ∷ []) refl)
perform_lem test line rest con h v n = prints test_lines con v test-Renders
perform_lem info line rest con h v n = prints (info_lines con) con v (info-Renders con n)
perform_lem reboot line rest con h v n =
    let (con', e, v', g) =
      print_lines-prints (plain "Rebooting...\n" blue ∷ []) con v
        (rendered (plain "Rebooting...\n" blue ∷ []) refl) in
    (con', ap rebooted e, v', g)
perform_lem unknown line rest con h v n = prints _ con v (unknown-Renders line rest h)
perform_lem empty line rest con h v n = (con, refl, v, SameGrid-refl con)

-- A command on a valid console, ended by a NUL in its buffer, runs to its end, with no read past the
-- buffer: the console stays valid with the grid that it had, and the ports see the reset of the
-- machine if the line is `reboot`, and else nothing.
pub process_command_lem :
    (line rest : List ℕ) (con : Console)
    → IsText line
    → IsValid con
    → IsShowable con
    → (con' : Console) × (process_command (line ++ 0 ∷ rest) con
        ≡ some (con', events_of (command_of line)))
      × IsValid con'
      × SameGrid con con'
unfolding process_command
process_command_lem line rest con h v n =
    let (con', e, v', g) = perform_lem (command_of line) line rest con h v n in
    (con', rw (process_command, find_command_lem line rest h) e, v', g)
