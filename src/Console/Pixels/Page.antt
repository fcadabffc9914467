-- ===== src/Console/Pixels/Page.antt =====
-- What the screen shows, as src/console.c prints on it: a cell of the grid is blank, shows a character,
-- or still has the pixels that it had.
pub mod Drawn
pub mod Place
pub mod Print
use valern.Prelude.{
  ℕ, ◌+◌, ◌-◌, ◌*◌, ◌/◌, ◌%◌, ◌^◌, ◌≤◌, ◌<◌, ◌≡◌, Bool, false, ◌||◌, List, [], ◌∷◌, some, none,
  bit_and, get_or, if◌then◌else◌, not, ◌==◌, leb,
}
use valern.Psf.{PsfFont, psf_get_glyph}
use valern.Console.Screen.{Framebuffer, Console}
use valern.Console.Text.{newline, carriage_return, backspace}
use valern.Console.Text.Travel.{travel}
use valern.Console.Text.Memory.{IsScreen}
use valern.Console.Pixels.{pixel}

-- A cell in one colour, a character with its colours, or the given pixels.
pub data Cell : Type 0 where
  blank : ℕ → Cell
  shows : ℕ → ℕ → ℕ → Cell
  remains : (ℕ → ℕ → ℕ → ℕ → ℕ) → Cell

-- The colour of the pixel `i`, `j` in the square of the bit `k` in row `r` of a cell.
abbrev pub color_at : PsfFont → Cell → ℕ → ℕ → ℕ → ℕ → ℕ
color_at font (blank color) r k i j = color
color_at font (remains pixels) r k i j = pixels r k i j
color_at font (shows c fg_color bg_color) r k i j = elim (psf_get_glyph (some font) (c % 2 ^ 8)) [
  | none ↦ bg_color
  | some glyph ↦ if not (bit_and (get_or glyph r 0) (2 ^ (7 - k)) == 0) then fg_color else bg_color
]

-- The squares of the cell in column `x` and row `y` have its colours.
abbrev pub IsShown : PsfFont → ℕ → Framebuffer → ℕ → ℕ → Cell → Type 0
IsShown font scale fb x y cell =
    (r k i j : ℕ)
    → r < font.height
    → k < font.width
    → i < scale
    → j < scale
    → pixel (x * font.width * scale + k * scale + i) (y * font.height * scale + r * scale + j) fb
      ≡ color_at font cell r k i j

-- The grid of a console shows the cells, which are numbered row by row.
abbrev pub Displays : Console → (ℕ → Cell) → Type 0
Displays con cells =
    (x y : ℕ)
    → x < con.width
    → y < con.height
    → IsShown con.font con.scale con.fb x y (cells (y * con.width + x))

-- Does the character take a cursor past the last cell of a grid of `w` by `h`?
abbrev pub overruns : ℕ → ℕ → ℕ → ℕ → Bool
overruns w h c p =
    if c == newline
    then leb (h * w) ((p / w + 1) * w)
    else if (c == carriage_return) || (c == backspace)
    then false
    else leb (h * w) (p + 1)

abbrev pub is_control : ℕ → Bool
is_control c = (c == newline) || (c == carriage_return) || (c == backspace)

-- The cells after a character at the cell `p`: past the last cell the page starts again, blank.
abbrev pub after_char : ℕ → ℕ → ℕ → ℕ → Cell → ℕ → (ℕ → Cell) → ℕ → Cell
after_char w h color c new p cells q =
    if overruns w h c p
    then blank color
    else if is_control c
    then cells q
    else if q == p
    then new
    else cells q

abbrev pub after_text : ℕ → ℕ → ℕ → ℕ → ℕ → List ℕ → ℕ → (ℕ → Cell) → ℕ → Cell
after_text w h color fg_color bg_color [] p cells = cells
after_text w h color fg_color bg_color (c ∷ text) p cells =
    after_text w h color fg_color bg_color text (travel w h c p)
      (after_char w h color c (shows c fg_color bg_color) p cells)

-- A grid whose cells all lie on the screen, and a font with a glyph for every byte.
pub record Fits (con : Console) : Type 0 where
  pub screen : IsScreen con.fb
  pub columns_fit : con.width * con.font.width * con.scale ≤ con.fb.width
  pub rows_fit : con.height * con.font.height * con.scale ≤ con.fb.height
  pub width_int : con.fb.width ≤ 2 ^ 63
  pub height_int : con.fb.height ≤ 2 ^ 63
  pub buffer : List ℕ
  pub at_buffer : con.font.glyph_buffer ≡ some buffer
  pub glyphs : 2 ^ 8 ≤ con.font.glyph_count
