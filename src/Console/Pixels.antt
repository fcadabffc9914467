-- ===== src/Console/Pixels.antt =====
-- Which pixels `draw_char` of src/console.c paints, from one pixel up to a whole glyph.
pub mod Block
pub mod Columns
pub mod Glyph
pub mod Cell
pub mod Clear
pub mod Page
mod Tests
use valern.Prelude.{
  ℕ, ◌+◌, ◌<◌, ◌≡◌, arith, Bool, ◌&&◌, leb, ltb, ◌==◌, if◌then◌else◌, ap, refl, ◌∙◌,
}
use valern.Console.Screen.{Framebuffer, index_of, put_pixel}
use valern.Console.Text.Redraw.{Redraws}
use valern.Console.Text.Memory.{IsScreen, stride, index_inside, index_of_inj}

-- The colour of a pixel.
abbrev pub pixel : ℕ → ℕ → Framebuffer → ℕ
pixel x y fb = fb.pixels (index_of x y fb)

-- The rectangle of `xn` columns from `x0` on and `yn` rows from `y0` on.
abbrev pub in_rect : ℕ → ℕ → ℕ → ℕ → ℕ → ℕ → Bool
in_rect x0 xn y0 yn x y = leb x0 x && ltb x (x0 + xn) && (leb y0 y && ltb y (y0 + yn))
