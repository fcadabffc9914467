-- ===== src/Fonts/Tests.antt =====
-- The built-in font of src/fonts.c at the letter A.
use valern.Prelude.{ℕ, ◌<◌, ◌≡◌, refl, arith, List, ◌++◌, some, none, true, length}
use valern.Psf.{PsfFont, psf_get_glyph}
use valern.Fonts.{designators, rows_of, vga_font}
use valern.Fonts.Glyphs.{IsVga, is_blank, is_left_out, are_bytes, vga_glyph_lem}

abbrev pub vga : PsfFont
vga = record {
  header = none;
  glyph_buffer = some vga_font;
  glyph_count = 256;
  glyph_size = 16;
  width = 8;
  height = 16;
  version = 0;
}

vga-IsVga : IsVga vga
vga-IsVga = record { at_buffer = refl; count = refl; size = refl; width8 = refl; height16 = refl }

vga_glyph_example :
    (behind : List ℕ) × (psf_get_glyph (some vga) b'A' ≡ some (rows_of designators b'A' ++ behind))
    × (length (rows_of designators b'A') ≡ 16)
    × (are_bytes (rows_of designators b'A') ≡ true)
    × (32 < b'A' → b'A' < 128 → is_blank (rows_of designators b'A') ≡ is_left_out b'A')
vga_glyph_example = vga_glyph_lem vga b'A' vga-IsVga (omega arith)
