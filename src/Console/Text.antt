-- ===== src/Console/Text.antt =====
-- src/console.c: `putChar`, the cursor.
pub mod Redraw
pub mod Draw
pub mod Grid
pub mod Place
pub mod Cursor
pub mod Travel
pub mod Memory
use valern.Prelude.{
  ℕ, ◌+◌, ◌-◌, ◌%◌, List, [], ◌∷◌, Option, none, some, ltb, leb, ◌==◌, if◌then◌else◌,
}
use valern.Console.Screen.{Console, size_mod, console_clear, draw_char}

-- The newline, the carriage return and the backspace.
abbrev pub newline : ℕ
newline = 10

abbrev pub carriage_return : ℕ
carriage_return = 13

abbrev pub backspace : ℕ
backspace = 8

abbrev pub inc : ℕ → ℕ
inc n = (n + 1) % size_mod

-- A step of the cursor to the right of what was drawn.
abbrev pub advance : Option Console → Option Console
advance none = none
advance (some con) = some (record con { cursor_x = inc con.cursor_x })

-- `console.width - 1` wraps at width 0.
abbrev pub step_back : Console → Console
step_back con =
    if ltb 0 con.cursor_x
    then record con { cursor_x = con.cursor_x - 1 }
    else if ltb 0 con.cursor_y
    then record con {
      cursor_y = con.cursor_y - 1;
      cursor_x = (con.width + size_mod - 1) % size_mod;
    }
    else con

-- The first chain of tests.
unfoldable pub place : ℕ → ℕ → ℕ → Console → Option Console
place c fg_color bg_color con =
    if c == newline
    then some (record con { cursor_x = 0; cursor_y = inc con.cursor_y })
    else if c == carriage_return
    then some (record con { cursor_x = 0 })
    else if c == backspace
    then some (step_back con)
    else advance (draw_char c con.cursor_x con.cursor_y fg_color bg_color con)

unfoldable pub wrap_column : Console → Console
wrap_column con =
    if leb con.width con.cursor_x
    then record con { cursor_x = 0; cursor_y = inc con.cursor_y }
    else con

unfoldable pub wrap_screen : Console → Console
wrap_screen con = if leb con.height con.cursor_y then console_clear con else con

abbrev pub wrapped : Option Console → Option Console
wrapped none = none
wrapped (some con) = some (wrap_screen (wrap_column con))

unfoldable pub put_char : ℕ → ℕ → ℕ → Console → Option Console
put_char c fg_color bg_color con = wrapped (place c fg_color bg_color con)

-- The characters one after the other.
unfoldable pub put_text : List ℕ → ℕ → ℕ → Console → Option Console
put_text [] fg_color bg_color con = some con
put_text (c ∷ text) fg_color bg_color con = elim (put_char c fg_color bg_color con) [
  | none ↦ none
  | some con' ↦ put_text text fg_color bg_color con'
]
