-- ===== src/Console/Command.antt =====
-- src/console.c: `process_command`, the commands of the shell.
pub mod Find
pub mod Lines
pub mod Perform
use valern.Prelude.{
  ℕ, zero, suc, ◌-◌, ◌^◌, Bool, true, false, List, [], ◌∷◌, Option, none, some, String, ℤ, pos,
  negsuc, ltb, if◌then◌else◌,
}
use valern.Stdmem.{strcmp, strlen}
use valern.Port.{Event, write}
use valern.Console.Screen.{Console, console_clear}
use valern.Console.Printf.{Argument, word, text, printf, literal}
use valern.Console.Setup.{white, gray, green, black, red, blue}

-- What `printf` is called with: format, colour, arguments. Every call has a black ground.
pub record Message : Type 0 where
  pub format : List ℕ
  pub color : ℕ
  pub arguments : List Argument

abbrev pub plain : String → ℕ → Message
plain s color = record { format = literal s; color = color; arguments = [] }

abbrev pub filled : String → ℕ → List Argument → Message
filled s color args = record { format = literal s; color = color; arguments = args }

-- The calls of `printf` in turn.
unfoldable pub print_lines : List Message → Console → Option Console
print_lines [] con = some con
print_lines (l ∷ ls) con = elim (printf l.format l.color black l.arguments con) [
  | none ↦ none
  | some con' ↦ print_lines ls con'
]

abbrev pub help_lines : List Message
help_lines =
    plain "Available commands:\n" white
    ∷ plain "  help    - Show this help message\n" gray
    ∷ plain "  clear   - Clear the screen\n" gray
    ∷ plain "  hello   - Say hello\n" gray
    ∷ plain "  test    - Test printf formatting\n" gray
    ∷ plain "  info    - Show system information\n" gray
    ∷ plain "  reboot  - Reboot the system\n" gray
    ∷ []

-- An `int` argument fills the low half of its slot.
abbrev pub test_lines : List Message
test_lines =
    plain "Testing printf formatting:\n" blue
    ∷ filled "Integer: %d\n" white (word 42 ∷ [])
    ∷ filled "Negative: %d\n" white (word (2 ^ 32 - 123) ∷ [])
    ∷ filled "Unsigned: %u\n" white (word 3000000000 ∷ [])
    ∷ filled "Hex lowercase: 0x%x\n" white (word 255 ∷ [])
    ∷ filled "Hex uppercase: 0x%X\n" white (word 255 ∷ [])
    ∷ filled "Character: %c\n" white (word b'A' ∷ [])
    ∷ filled "String: %s\n" white (text (literal "Hello World!") ∷ [])
    ∷ filled "Pointer: %p\n" white (word 0x12345678 ∷ [])
    ∷ plain "Percent: 100%%\n" white
    ∷ []

abbrev pub info_lines : Console → List Message
info_lines con =
    plain "Valern OS System Information:\n" green
    ∷ filled "Console dimensions: %dx%d characters\n" white (word con.width ∷ word con.height ∷ [])
    ∷ filled "Font size: %dx%d pixels\n" white (word con.font.width ∷ word con.font.height ∷ [])
    ∷ filled "Framebuffer: %dx%d pixels\n" white (word con.fb.width ∷ word con.fb.height ∷ [])
    ∷ filled "Scale factor: %dx\n" white (word con.scale ∷ [])
    ∷ filled "Font version: %d\n" white (word con.font.version ∷ [])
    ∷ filled "Glyph count: %d\n" white (word con.font.glyph_count ∷ [])
    ∷ []

-- `strcmp(command, name) == 0`
abbrev pub is_zero : Option ℤ → Option Bool
is_zero none = none
is_zero (some (pos zero)) = some true
is_zero (some (pos (suc n))) = some false
is_zero (some (negsuc n)) = some false

-- The tests of `process_command`, in their order.
pub data Command : Type 0 where
  help clear hello test info reboot unknown empty : Command

abbrev pub names : List (List ℕ × Command)
names =
    (literal "help", help)
    ∷ (literal "clear", clear)
    ∷ (literal "hello", hello)
    ∷ (literal "test", test)
    ∷ (literal "info", info)
    ∷ (literal "reboot", reboot)
    ∷ []

abbrev pub length_test : Option ℕ → Option Command
length_test none = none
length_test (some n) = some (if ltb 0 n then unknown else empty)

unfoldable pub find_command : List (List ℕ × Command) → List ℕ → Option Command
find_command [] command = length_test (strlen command)
find_command ((name, it) ∷ rest) command = elim (is_zero (strcmp command name)) [
  | none ↦ none
  | some true ↦ some it
  | some false ↦ find_command rest command
]

-- The port accesses of a command, newest first, beside the console.
abbrev pub quiet : Option Console → Option (Console × List Event)
quiet none = none
quiet (some con) = some (con, [])

abbrev pub rebooted : Option Console → Option (Console × List Event)
rebooted none = none
rebooted (some con) = some (con, write 0x64 0xFE ∷ [])

unfoldable pub perform : Command → List ℕ → Console → Option (Console × List Event)
perform help command con = quiet (print_lines help_lines con)
perform clear command con = some (console_clear con, [])
perform hello command con = quiet (print_lines (plain "Hello from Valern OS!\n" green ∷ []) con)
perform test command con = quiet (print_lines test_lines con)
perform info command con = quiet (print_lines (info_lines con) con)
perform reboot command con = rebooted (print_lines (plain "Rebooting...\n" blue ∷ []) con)
perform unknown command con = quiet (
    print_lines
      (filled "Unknown command: %s\n" red (text command ∷ [])
        ∷ plain "Type 'help' for available commands.\n" gray
        ∷ [])
      con)
perform empty command con = some (con, [])

unfoldable pub process_command : List ℕ → Console → Option (Console × List Event)
process_command command con = elim (find_command names command) [
  | none ↦ none
  | some it ↦ perform it command con
]
