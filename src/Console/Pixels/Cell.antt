-- ===== src/Console/Pixels/Cell.antt =====
-- `draw_char` of src/console.c on a cell that lies on the screen.
use valern.Prelude.{
  refl, ℕ, ◌+◌, ◌-◌, ◌*◌, ◌≤◌, ◌<◌, ◌^◌, ◌%◌, ◌≡◌, arith, ◌⊎◌, List, some, get_elem?, bit_and,
  if◌then◌else◌, not, ◌==◌,
}
use valern.Psf.{psf_get_glyph}
use valern.Console.Screen.{Framebuffer, Console, draw_char, pen_at, Pen}
use valern.Console.Text.Draw.{IsDrawable}
use valern.Console.Text.Memory.{IsScreen}
use valern.Console.Pixels.{pixel}
use valern.Console.Pixels.Glyph.{draw_rows-Rows}

-- The cell in column `x` and row `y` lies on the screen.
pub record IsCell (x y : ℕ) (con : Console) : Type 0 where
  pub screen : IsScreen con.fb
  pub drawable : IsDrawable con.font
  pub columns_fit : x * con.font.width * con.scale + con.font.width * con.scale ≤ con.fb.width
  pub rows_fit : y * con.font.height * con.scale + con.font.height * con.scale ≤ con.fb.height
  pub width_int : con.fb.width ≤ 2 ^ 63
  pub height_int : con.fb.height ≤ 2 ^ 63

-- The pixel `i` of the columns and `j` of the rows of the square of the glyph's bit `k` in row `r`.
abbrev pub column_of : ℕ → ℕ → ℕ → Console → ℕ
column_of x k i con = x * con.font.width * con.scale + k * con.scale + i

abbrev pub row_of : ℕ → ℕ → ℕ → Console → ℕ
row_of y r j con = y * con.font.height * con.scale + r * con.scale + j

abbrev pub IsOutside : ℕ → ℕ → ℕ → ℕ → Console → Type 0
IsOutside x y px py con =
    (px < x * con.font.width * con.scale)
    ⊎ ((x * con.font.width * con.scale + con.font.width * con.scale ≤ px)
        ⊎ ((py < y * con.font.height * con.scale)
            ⊎ (y * con.font.height * con.scale + con.font.height * con.scale ≤ py)))

-- The pen of `draw_char`, its corner without the wrap-around.
abbrev pen_on : ℕ → ℕ → ℕ → ℕ → Console → Pen
pen_on x y fg_color bg_color con = record {
  fb_x = x * con.font.width * con.scale;
  fb_y = y * con.font.height * con.scale;
  scale = con.scale;
  fg_color = fg_color;
  bg_color = bg_color;
}

pen_at-on_cell :
    (x y fg_color bg_color : ℕ) (con : Console)
    → IsCell x y con
    → pen_at x y fg_color bg_color con ≡ pen_on x y fg_color bg_color con
pen_at-on_cell x y fg_color bg_color con cell =
    let left : x * con.font.width * con.scale % 2 ^ 64 ≡ x * con.font.width * con.scale =
      omega (arith, cell.columns_fit, cell.width_int) in
    let top : y * con.font.height * con.scale % 2 ^ 64 ≡ y * con.font.height * con.scale =
      omega (arith, cell.rows_fit, cell.height_int) in
    rw (left, top) refl

pub in_square : (a k n s i w : ℕ) → k < n → i < s → a + n * s ≤ w → a + k * s + i < w
in_square a k n s i w h l m = grind arith

-- On a cell of the screen, and with a glyph for the character, `draw_char` paints the squares of
-- the glyph's bits, a set bit with the foreground colour and a clear one with the background colour,
-- the leftmost column from bit 7, and leaves every pixel outside the cell alone.
pub draw_char-paints :
    (c x y fg_color bg_color : ℕ) (con : Console) (buffer glyph : List ℕ)
    → IsCell x y con
    → con.font.glyph_buffer ≡ some buffer
    → psf_get_glyph (some con.font) (c % 2 ^ 8) ≡ some glyph
    → (fb' : Framebuffer) × (draw_char c x y fg_color bg_color con ≡ some (record con { fb = fb' }))
      × ((r k i j bits : ℕ)
          → r < con.font.height
          → k < con.font.width
          → i < con.scale
          → j < con.scale
          → get_elem? glyph r ≡ some bits
          → pixel (column_of x k i con) (row_of y r j con) fb'
            ≡ (if not (bit_and bits (2 ^ (7 - k)) == 0) then fg_color else bg_color))
      × ((px py : ℕ)
          → px < con.fb.width
          → py < con.fb.height
          → IsOutside x y px py con
          → pixel px py fb' ≡ pixel px py con.fb)
unfolding draw_char
draw_char-paints c x y fg_color bg_color con buffer glyph cell at e =
    let pen = pen_on x y fg_color bg_color con in
    let from_zero : 0 + con.font.height ≡ con.font.height = omega arith in
    let full = cell.drawable.rows (c % 2 ^ 8) glyph (omega arith) e in
    let (fb', f, drawn) =
      draw_rows-Rows con.font.height 0 con.font.width glyph pen con.fb cell.screen
        cell.drawable.narrow (omega (arith, full)) (omega (arith, cell.columns_fit, cell.width_int))
        (rw from_zero (omega (arith, cell.rows_fit, cell.height_int))) in
    (
      fb',
      ground (arith, at, e, pen_at-on_cell x y fg_color bg_color con cell, f),
      λ r k i j bits h l m n g.
          let first : 0 + r ≡ r = omega arith in
          let a =
            in_square pen.fb_x k con.font.width con.scale i con.fb.width l m cell.columns_fit in
          let b =
            in_square pen.fb_y r con.font.height con.scale j con.fb.height h n cell.rows_fit in
          drawn.inside r k bits (column_of x k i con) (row_of y r j con) (h, l) (rw first g) (a, b)
            (omega arith) (rw first (omega arith)),
      λ px py a b off. drawn.outside px py (a, b) (rw from_zero (omega arith)),
    )
