-- ===== src/Console/Tests.antt =====
-- src/console.c at concrete inputs: a grid of three columns and two rows.
use valern.Keyboard.Driver.Typing.{strokes}
use valern.Console.Shell.Typed.{shell_loop-strokes}
use valern.Keyboard.Modifiers.{no_keys}
use valern.Prelude.{
  ℕ, ◌≡◌, refl, arith, List, [], ◌∷◌, some, none, codes, ◌++◌, replicate, ap, length, false,
}
use valern.Psf.{PsfFont, psf_get_glyph}
use valern.Psf.Glyph.{HasGlyphs}
use valern.Console.Screen.{
  Framebuffer, Console, draw_char, put_pixel, draw_line, draw_block, draw_columns, draw_rows,
}
use valern.Console.Text.{put_char, put_text, place, wrap_column, wrap_screen}
use valern.Console.Text.Draw.{IsDrawable-of_HoldsGlyphs, HoldsGlyphs-of_HasGlyphs}
use valern.Console.Text.Cursor.{put_char_lem}
use valern.Console.Text.Grid.{IsValid, SameGrid, position}
use valern.Console.Printf.{word, text, literal, printf, put_buffer}
use valern.Console.Printf.Render.{printf_lem}
use valern.Console.Printf.Rendering.{render, string_of}
use valern.Format.{int_to_str, uint_to_str, digits_loop, to_text}
use valern.Console.Command.Lines.{IsShowable}
use valern.Port.{write}
use valern.Console.Shell.{Shell, shell_keys}
use valern.Console.Shell.Line.{IsEditing}
use valern.Console.Shell.Session.{shell_keys_lem}
use valern.Keyboard.Driver.{Irq, static_keyboard}
use valern.Console.Shell.Loop.{shell_loop, settled}
use valern.Keyboard.Driver.Reach.{Reach-IsReady, here}
use valern.Keyboard.Layout.{ascii_of}

abbrev pub glyphs : List ℕ
glyphs = 0x00 ∷ 0x18 ∷ []

-- Two glyphs of one row and eight columns.
abbrev pub font : PsfFont
font = record {
  header = none;
  glyph_buffer = some glyphs;
  glyph_count = 2;
  glyph_size = 1;
  width = 8;
  height = 1;
  version = 1;
}

abbrev pub screen : Framebuffer
screen = record { pixels = λ at. 7; width = 24; height = 2; pitch = 96 }

abbrev pub console : Console
console = record {
  fb = screen;
  cursor_x = 2;
  cursor_y = 0;
  width = 3;
  height = 2;
  fg_color = 5;
  bg_color = 0;
  scale = 1;
  font = font;
}

font-HasGlyphs : HasGlyphs font glyphs
font-HasGlyphs = record { at_buffer = refl; room = omega arith; no_wrap = omega arith }

pub console-IsValid : IsValid console
console-IsValid = record {
  x_in = omega arith;
  y_in = omega arith;
  width_small = omega arith;
  height_small = omega arith;
  drawable =
      IsDrawable-of_HoldsGlyphs font glyphs 2 (HoldsGlyphs-of_HasGlyphs font glyphs font-HasGlyphs)
        (omega arith) (omega arith);
}

-- The fourth pixel of the second glyph in the third cell has the colour, its neighbour the ground.
abbrev pixel_of : List ℕ → ℕ → ℕ
pixel_of cs at = elim (put_text cs 5 0 console) [ none ↦ 9 | some con ↦ con.fb.pixels at ]

pixel_set : pixel_of (1 ∷ []) 19 ≡ 5
unfolding put_text put_char place draw_char draw_rows draw_columns draw_block draw_line put_pixel
    psf_get_glyph wrap_column wrap_screen
pixel_set = refl

pixel_ground : pixel_of (1 ∷ []) 18 ≡ 0
unfolding put_text put_char place draw_char draw_rows draw_columns draw_block draw_line put_pixel
    psf_get_glyph wrap_column wrap_screen
pixel_ground = refl

put_char_example :
    (con' : Console) × (put_char 1 5 0 console ≡ some con')
    × IsValid con'
    × SameGrid console con'
    × (position con' ≡ 3)
put_char_example = put_char_lem 1 5 0 console console-IsValid

printf_example :
    printf (literal "%d of %s: %u%%\n") 5 0 (word 7 ∷ text (literal "us") ∷ word 33 ∷ []) console
    ≡ put_buffer
        (render (literal "%d of %s: %u%%\n") (word 7 ∷ text (literal "us") ∷ word 33 ∷ []))
        5
        0
        console
printf_example =
    printf_lem (literal "%d of %s: %u%%\n") 5 0 (word 7 ∷ text (literal "us") ∷ word 33 ∷ [])
      console

rendered :
    render (literal "%d of %s: %u%%\n") (word 7 ∷ text (literal "us") ∷ word 33 ∷ [])
    ≡ string_of (literal "7 of us: 33%\n")
unfolding int_to_str uint_to_str digits_loop to_text
rendered = refl

console-IsShowable : IsShowable console
console-IsShowable = omega arith

-- A shell that waits for its first key.
abbrev waiting : Shell
waiting = record { input_buffer = replicate 256 0; buffer_pos = 0; console = console }

waiting-IsEditing : IsEditing waiting []
waiting-IsEditing = record {
  behind = replicate 256 0;
  stored = refl;
  room = refl;
  at_end = refl;
  short = omega arith;
  is_text = tt;
  valid = console-IsValid;
  showable = console-IsShowable;
}

-- A typing error, corrected, and Enter.
abbrev session : List ℕ
session = codes "rebu" ++ 8 ∷ codes "oot\n"

shell_keys_example :
    (s' : Shell) × (shell_keys session waiting ≡ some (s', write 0x64 0xFE ∷ []))
    × IsEditing s' []
    × SameGrid console s'.console
shell_keys_example = shell_keys_lem session waiting [] waiting-IsEditing

-- The keys h, i and enter.
abbrev keys : List Irq
keys =
    record { status = 0x1D; scancode = 0x23 }
    ∷ record { status = 0x1D; scancode = 0x17 }
    ∷ record { status = 0x1D; scancode = 0x1C }
    ∷ []

-- They type what their scancodes say.
keys_type : strokes keys no_keys false ≡ b'h' ∷ b'i' ∷ 10 ∷ []
unfolding ascii_of
keys_type = refl

shell_loop_example :
    shell_loop 4 keys static_keyboard waiting
    ≡ settled (shell_keys (strokes keys no_keys false) waiting)
shell_loop_example =
    shell_loop-strokes 4 keys static_keyboard waiting (omega arith) (Reach-IsReady here)
      (omega (arith, ap length keys_type))
