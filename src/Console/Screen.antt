-- ===== src/Console/Screen.antt =====
-- src/console.c: the console's state, `console_clear` and `draw_char`. `size_t` arithmetic is modulo
-- 2 ^ 64. A result `none` is undefined behaviour: a read past a glyph, or a shift by a negative count.
use valern.Prelude.{
  ℕ, zero, suc, ◌+◌, ◌-◌, ◌*◌, ◌/◌, ◌%◌, ◌^◌, bit_and, not, ◌||◌, List, Option, none, some, ltb,
  leb, ◌==◌, if◌then◌else◌, get_elem?,
}
use valern.Psf.{PsfFont, psf_get_glyph}

-- What the console uses of the bootloader's framebuffer: `pixels` is the memory at `address`, in units
-- of 32 bits, and `pitch` the bytes from one row to the next.
pub record Framebuffer : Type 0 where
  pub pixels : ℕ → ℕ
  pub width : ℕ
  pub height : ℕ
  pub pitch : ℕ

pub record Console : Type 0 where
  pub fb : Framebuffer
  pub cursor_x : ℕ
  pub cursor_y : ℕ
  pub width : ℕ
  pub height : ℕ
  pub fg_color : ℕ
  pub bg_color : ℕ
  pub scale : ℕ
  pub font : PsfFont

abbrev pub size_mod : ℕ
size_mod = 2 ^ 64

-- The index of a pixel in the memory.
abbrev pub index_of : ℕ → ℕ → Framebuffer → ℕ
index_of x y fb = (y * (fb.pitch / 4) + x) % size_mod

-- `fb[y * (pitch / 4) + x] = color;`
unfoldable pub put_pixel : ℕ → ℕ → ℕ → Framebuffer → Framebuffer
put_pixel x y color fb = record fb {
  pixels = λ at. if at == index_of x y fb then color else fb.pixels at;
}

-- The inner loop of `console_clear` from column `j` on.
unfoldable pub clear_row : ℕ → ℕ → ℕ → ℕ → Framebuffer → Framebuffer
clear_row zero j i color fb = fb
clear_row (suc left) j i color fb = clear_row left (j + 1) i color (put_pixel j i color fb)

-- The outer loop from row `i` on.
unfoldable pub clear_rows : ℕ → ℕ → ℕ → Framebuffer → Framebuffer
clear_rows zero i color fb = fb
clear_rows (suc left) i color fb = clear_rows left (i + 1) color (clear_row fb.width 0 i color fb)

unfoldable pub console_clear : Console → Console
console_clear con = record con {
  fb = clear_rows con.fb.height 0 con.bg_color con.fb;
  cursor_x = 0;
  cursor_y = 0;
}

-- The loop over `scale_x`: the clipped pixels from column `px` on in row `py`.
unfoldable pub draw_line : ℕ → ℕ → ℕ → ℕ → ℕ → Framebuffer → Framebuffer
draw_line zero scale_x px py color fb = fb
draw_line (suc left) scale_x px py color fb =
    let pixel_x = (px + scale_x) % size_mod in
    draw_line left (scale_x + 1) px py color
      (if leb fb.width pixel_x || leb fb.height py then fb else put_pixel pixel_x py color fb)

-- The loop over `scale_y`.
unfoldable pub draw_block : ℕ → ℕ → ℕ → ℕ → ℕ → ℕ → Framebuffer → Framebuffer
draw_block zero scale_y scale px py color fb = fb
draw_block (suc left) scale_y scale px py color fb =
    draw_block left (scale_y + 1) scale px py color
      (draw_line scale 0 px ((py + scale_y) % size_mod) color fb)

-- What a glyph is drawn with.
pub record Pen : Type 0 where
  pub fb_x : ℕ
  pub fb_y : ℕ
  pub scale : ℕ
  pub fg_color : ℕ
  pub bg_color : ℕ

abbrev pub pen_color : Pen → ℕ → ℕ → ℕ
pen_color pen glyph_row col =
    if not (bit_and glyph_row (2 ^ (7 - col)) == 0) then pen.fg_color else pen.bg_color

-- The loop over `col`. From column 8 on the shift count `7 - col` is out of range.
unfoldable pub draw_columns : ℕ → ℕ → ℕ → ℕ → Pen → Framebuffer → Option Framebuffer
draw_columns zero col row glyph_row pen fb = some fb
draw_columns (suc left) col row glyph_row pen fb =
    let next = draw_columns left (col + 1) row glyph_row pen (
      draw_block pen.scale 0 pen.scale (pen.fb_x + col * pen.scale) (pen.fb_y + row * pen.scale)
        (pen_color pen glyph_row col) fb) in
    if ltb 7 col then none else next

-- The loop over `row`.
unfoldable pub draw_rows : ℕ → ℕ → ℕ → List ℕ → Pen → Framebuffer → Option Framebuffer
draw_rows zero row width glyph pen fb = some fb
draw_rows (suc left) row width glyph pen fb = elim (get_elem? glyph row) [
  | none ↦ none
  | some glyph_row ↦ elim (draw_columns width 0 row glyph_row pen fb) [
    | none ↦ none
    | some fb' ↦ draw_rows left (row + 1) width glyph pen fb'
  ]
]

abbrev pub with_fb : Console → Option Framebuffer → Option Console
with_fb con none = none
with_fb con (some fb) = some (record con { fb = fb })

abbrev pub pen_at : ℕ → ℕ → ℕ → ℕ → Console → Pen
pen_at x y fg_color bg_color con = record {
  fb_x = x * con.font.width * con.scale % size_mod;
  fb_y = y * con.font.height * con.scale % size_mod;
  scale = con.scale;
  fg_color = fg_color;
  bg_color = bg_color;
}

-- Without a font, and for a character that the font lacks, nothing is drawn. The cast to `unsigned
-- char` is written out. (`psf_get_glyph` tests the buffer once more.)
unfoldable pub draw_char : ℕ → ℕ → ℕ → ℕ → ℕ → Console → Option Console
draw_char c x y fg_color bg_color con = elim con.font.glyph_buffer [
  | none ↦ some con
  | some buffer ↦ elim (psf_get_glyph (some con.font) (c % 2 ^ 8)) [
    | none ↦ some con
    | some glyph ↦
        with_fb con (
          draw_rows con.font.height 0 con.font.width glyph (pen_at x y fg_color bg_color con)
            con.fb)
  ]
]
