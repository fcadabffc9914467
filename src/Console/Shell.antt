-- ===== src/Console/Shell.antt =====
-- src/console.c: the loop of `shell`, one key at a time.
pub mod Line
pub mod Entering
pub mod Editor
pub mod Session
pub mod Loop
pub mod Typed
use valern.Prelude.{
  ℕ, zero, suc, ◌+◌, ◌-◌, ◌&&◌, List, [], ◌∷◌, ◌++◌, Option, none, some, ltb, leb, ◌==◌,
  if◌then◌else◌, get_elem?, set,
}
use valern.Port.{Event}
use valern.Console.Screen.{Console, console_clear}
use valern.Console.Printf.{word, printf}
use valern.Console.Setup.{white, green, black, red}
use valern.Console.Command.{print_lines, plain, filled, Message, process_command}

abbrev pub input_size : ℕ
input_size = 256

-- The locals of `shell`, and the console.
pub record Shell : Type 0 where
  pub input_buffer : List ℕ
  pub buffer_pos : ℕ
  pub console : Console

abbrev pub key_enter : ℕ
key_enter = 10

abbrev pub key_backspace : ℕ
key_backspace = 8

abbrev pub ctrl_c : ℕ
ctrl_c = 3

abbrev pub ctrl_l : ℕ
ctrl_l = 12

abbrev pub prompt : Message
prompt = plain "valern> " green

abbrev pub typed : ℕ → Message
typed c = filled "%c" white (word c ∷ [])

abbrev pub with_console : Shell → Option Console → Option (Shell × List Event)
with_console s none = none
with_console s (some con) = some (record s { console = con }, [])

-- `for (int i = 0; i < buffer_pos; i++) printf("%c", ..., input_buffer[i]);`
unfoldable pub retype : ℕ → ℕ → List ℕ → Console → Option Console
retype zero i buffer con = some con
retype (suc left) i buffer con = elim (get_elem? buffer i) [
  | none ↦ none
  | some c ↦ elim (print_lines (typed c ∷ []) con) [
    | none ↦ none
    | some con' ↦ retype left (i + 1) buffer con'
  ]
]

-- Enter: the line is closed by a NUL and carried out, and the buffer starts again.
unfoldable pub enter : Shell → Option (Shell × List Event)
enter s =
    let command = set s.input_buffer s.buffer_pos 0 in
    elim (print_lines (plain "\n" white ∷ []) s.console) [
      | none ↦ none
      | some con ↦ elim (process_command command con) [
        | none ↦ none
        | some (con', events) ↦ elim (print_lines (prompt ∷ []) con') [
          | none ↦ none
          | some con'' ↦
              some (record { input_buffer = command; buffer_pos = 0; console = con'' }, events)
        ]
      ]
    ]

unfoldable pub clear_line : Shell → Option (Shell × List Event)
clear_line s = elim (print_lines (prompt ∷ []) (console_clear s.console)) [
  | none ↦ none
  | some con ↦ with_console s (retype s.buffer_pos 0 s.input_buffer con)
]

-- One round of the loop, on the character that `keyboard_getchar` returned. A `char` from 128 on is
-- negative, and fails `c >= 32`.
unfoldable pub shell_key : ℕ → Shell → Option (Shell × List Event)
unfolding enter clear_line
shell_key c s =
    if c == key_enter
    then enter s
    else if c == key_backspace
    then (if ltb 0 s.buffer_pos
        then with_console (record s { buffer_pos = s.buffer_pos - 1 })
            (printf (8 ∷ 32 ∷ 8 ∷ 0 ∷ []) white black [] s.console)
        else some (s, []))
    else if c == ctrl_c
    then with_console (record s { buffer_pos = 0 })
        (print_lines (plain "^C\n" red ∷ prompt ∷ []) s.console)
    else if c == ctrl_l
    then clear_line s
    else if leb 32 c && leb c 126 && ltb s.buffer_pos (input_size - 1)
    then with_console
        (record s {
          input_buffer = set s.input_buffer s.buffer_pos c;
          buffer_pos = s.buffer_pos + 1;
        })
        (print_lines (typed c ∷ []) s.console)
    else some (s, [])

-- Before the loop: the prompt, an empty line, and a buffer that holds anything.
unfoldable pub shell_start : List ℕ → Console → Option (Shell × List Event)
shell_start garbage con =
    with_console (record { input_buffer = garbage; buffer_pos = 0; console = con })
      (print_lines (prompt ∷ []) con)

-- The loop on the keys to come; the port accesses in their order.
unfoldable pub shell_keys : List ℕ → Shell → Option (Shell × List Event)
shell_keys [] s = some (s, [])
shell_keys (c ∷ cs) s = elim (shell_key c s) [
  | none ↦ none
  | some (s', events) ↦ elim (shell_keys cs s') [
    | none ↦ none
    | some (s'', later) ↦ some (s'', events ++ later)
  ]
]
