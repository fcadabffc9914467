-- ===== src/Console/Terminal/Tests.antt =====
-- src/console.c on the page of a small screen: three by two cells of the built-in font.
use valern.Prelude.{ℕ, ◌≡◌, refl, arith, List, [], ◌∷◌, ◌++◌, some, codes, replicate, inl}
use valern.Fonts.{vga_font}
use valern.Fonts.Glyphs.{length-vga_font}
use valern.Fonts.Tests.{vga}
use valern.Console.Screen.{Framebuffer, Console}
use valern.Console.Text.Grid.{IsValid}
use valern.Console.Text.Draw.{IsDrawable-of_HoldsGlyphs}
use valern.Console.Printf.{printf, literal, word}
use valern.Console.Setup.{white, black, green, red}
use valern.Console.Command.{process_command, info_lines}
use valern.Console.Command.Lines.{IsShowable}
use valern.Console.Shell.{Shell, shell_keys}
use valern.Console.Shell.Line.{IsEditing}
use valern.Console.Pixels.Page.{blank, shows, Fits}
use valern.Console.Terminal.{Page, prints, clears, after, after_all, Shows, Draws}
use valern.Console.Terminal.Print.{printed, printf-Draws}
use valern.Console.Terminal.Facts.{say}
use valern.Console.Terminal.Commands.{process_command-Draws}
use valern.Console.Terminal.Keys.{prompts}
use valern.Console.Terminal.Session.{session_outputs, shell_keys-Draws}
use valern.Console.Terminal.Undone.{with_space, shell_keys-undone}

-- All of one colour.
abbrev page_screen : Framebuffer
page_screen = record { pixels = λ at. 7; width = 24; height = 32; pitch = 96 }

abbrev page_console : Console
page_console = record {
  fb = page_screen;
  cursor_x = 2;
  cursor_y = 0;
  width = 3;
  height = 2;
  fg_color = 5;
  bg_color = 0;
  scale = 1;
  font = vga;
}

page-IsValid : IsValid page_console
page-IsValid = record {
  x_in = omega arith;
  y_in = omega arith;
  width_small = omega arith;
  height_small = omega arith;
  drawable =
      IsDrawable-of_HoldsGlyphs vga vga_font 256
        (record {
          at_buffer = refl;
          room = omega (arith, length-vga_font);
          no_wrap = omega arith;
          enough = inl (omega arith);
        })
        (omega arith) (omega arith);
}

page-Fits : Fits page_console
page-Fits = record {
  screen = record { rows_fit = omega arith; no_wrap = omega arith };
  columns_fit = omega arith;
  rows_fit = omega arith;
  width_int = omega arith;
  height_int = omega arith;
  buffer = vga_font;
  at_buffer = refl;
  glyphs = omega arith;
}

abbrev page : Page
page = record { columns = 3; rows = 2; ground = 0; cells = λ q. blank 7; place = 2 }

page-Shows : Shows page_console page
page-Shows = record {
  fits = page-Fits;
  valid = page-IsValid;
  page_is = refl;
  displays = λ x y a b r k i j h l m n. refl;
}

printf-Draws_example :
    (con' : Console) × (printf (literal "A\n%c") 5 0 (word b'B' ∷ []) page_console ≡ some con')
    × Draws page_console con' (after (prints 5 0 (codes "A\nB")) page)
printf-Draws_example =
    printf-Draws (literal "A\n%c") 5 0 (word b'B' ∷ []) page_console (codes "A\nB") page page-Shows
      refl

-- The character A ends its row, and the newline then goes past the last row: the page is blank, with B
-- in its first cell.
page_turned : (after (prints 5 0 (codes "A\nB")) page).cells 0 ≡ shows b'B' 5 0
page_turned = refl

page-IsShowable : IsShowable page_console
page-IsShowable = omega arith

process_command-Draws_example :
    (con' : Console) × (process_command (codes "hello" ++ 0 ∷ 7 ∷ []) page_console
      ≡ some (con', []))
    × Draws page_console con' (after (say green "Hello from Valern OS!\n") page)
process_command-Draws_example =
    process_command-Draws (codes "hello") (7 ∷ []) page_console page (omega arith) page-IsShowable
      page-Shows

abbrev waiting : Shell
waiting = record { input_buffer = replicate 256 7; buffer_pos = 0; console = page_console }

waiting-IsEditing : IsEditing waiting []
waiting-IsEditing = record {
  behind = replicate 256 7;
  stored = refl;
  room = refl;
  at_end = refl;
  short = omega arith;
  is_text = tt;
  valid = page-IsValid;
  showable = page-IsShowable;
}

-- A key, its deletion, the screen cleared, and an unknown command.
abbrev keys : List ℕ
keys = b'a' ∷ 8 ∷ 12 ∷ codes "x\n"

shell_keys-Draws_example :
    (s' : Shell) × (shell_keys keys waiting ≡ some (s', []))
    × IsEditing s' []
    × Draws page_console s'.console
        (after_all (session_outputs (printed (info_lines page_console)) keys []) page)
shell_keys-Draws_example = shell_keys-Draws keys waiting [] page waiting-IsEditing page-Shows

keys_shown :
    session_outputs [] keys []
    ≡ prints white black (codes "a")
      ∷ prints white black (8 ∷ 32 ∷ 8 ∷ [])
      ∷ clears
      ∷ prompts
      ∷ prints white black []
      ∷ prints white black (codes "x")
      ∷ say white "\n"
      ∷ say red "Unknown command: x\n"
      ∷ say 0xAAAAAA "Type 'help' for available commands.\n"
      ∷ prompts
      ∷ []
keys_shown = refl

-- The key x and the backspace on the third cell of six.
shell_keys-undone_example :
    (s' : Shell) × (shell_keys (b'x' ∷ 8 ∷ []) waiting ≡ some (s', []))
    × IsEditing s' []
    × Shows s'.console (with_space page)
shell_keys-undone_example =
    shell_keys-undone b'x' waiting [] page waiting-IsEditing page-Shows (omega arith) (omega arith)
      (omega arith) (omega arith)
