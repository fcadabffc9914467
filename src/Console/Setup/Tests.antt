-- ===== src/Console/Setup/Tests.antt =====
-- A screen, the header of the font file that is linked in, and the static console of src/console.c.
use valern.Prelude.{ℕ, refl, arith, List, none, replicate, inl}
use valern.Psf.{PsfFont}
use valern.Psf.Version1.{psf1_file, psf1_font}
use valern.Console.Screen.{Framebuffer, Console}
use valern.Console.Text.Draw.{IsDrawable-of_HoldsGlyphs}
use valern.Console.Setup.Unready.{IsUnready}
use valern.Console.Setup.Usable.{IsUsable}

-- src/fonts/default.psf has mode 2, 16 rows for a glyph, and 5,666 bytes behind its header; the pixels
-- are left out here.
abbrev pub bundled_rows : List ℕ
bundled_rows = replicate 5666 0

abbrev pub bundled : List ℕ
bundled = psf1_file 2 16 bundled_rows

abbrev pub screen : Framebuffer
screen = record { pixels = λ at. 7; width = 1280; height = 800; pitch = 5120 }

abbrev pub static_font : PsfFont
static_font = record {
  header = none;
  glyph_buffer = none;
  glyph_count = 0;
  glyph_size = 0;
  width = 0;
  height = 0;
  version = 0;
}

abbrev pub static_console : Console
static_console = record {
  fb = screen;
  cursor_x = 0;
  cursor_y = 0;
  width = 0;
  height = 0;
  fg_color = 0;
  bg_color = 0;
  scale = 0;
  font = static_font;
}

pub static-IsUnready : IsUnready static_console
static-IsUnready = record { no_font = refl; no_width = refl; no_height = refl }

-- The file holds 256 glyphs and is counted as 512; every byte has one all the same.
pub bundled-IsUsable : IsUsable (psf1_font 2 16 bundled_rows) screen
bundled-IsUsable = record {
  drawable =
      IsDrawable-of_HoldsGlyphs (psf1_font 2 16 bundled_rows) bundled_rows 256
        (record {
          at_buffer = refl;
          room = omega arith;
          no_wrap = omega arith;
          enough = inl (omega arith);
        })
        (omega arith) (omega arith);
  width_pos = omega arith;
  height_pos = omega arith;
  height_int = omega arith;
  version_int = omega arith;
  count_int = omega arith;
  one_column = omega arith;
  one_row = omega arith;
  fb_width_int = omega arith;
  fb_height_int = omega arith;
}
