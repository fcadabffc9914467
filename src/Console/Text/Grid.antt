-- ===== src/Console/Text/Grid.antt =====
-- The grid of character cells of src/console.c, and a cursor on it.
use valern.Prelude.{ℕ, ◌+◌, ◌-◌, ◌*◌, ◌<◌, ◌^◌, ◌≡◌, refl, arith, if◌then◌else◌, ◌==◌, ltb}
use valern.Console.Screen.{Console, Framebuffer}
use valern.Console.Text.{newline, carriage_return, backspace}
use valern.Console.Text.Draw.{IsDrawable}
use valern.Console.Text.Redraw.{Redraws}

-- A console whose cursor is on its grid, and whose font can be drawn.
pub record IsValid (con : Console) : Type 0 where
  pub x_in : con.cursor_x < con.width
  pub y_in : con.cursor_y < con.height
  pub width_small : con.width < 2 ^ 63
  pub height_small : con.height < 2 ^ 63
  pub drawable : IsDrawable con.font

-- What `putChar` never changes.
pub record SameGrid (con con' : Console) : Type 0 where
  pub width_same : con'.width ≡ con.width
  pub height_same : con'.height ≡ con.height
  pub font_same : con'.font ≡ con.font
  pub scale_same : con'.scale ≡ con.scale
  pub redrawn_same : Redraws con.fb con'.fb

-- The number of cells before the cursor, in reading order.
abbrev pub position : Console → ℕ
position con = con.cursor_y * con.width + con.cursor_x

-- A cell of the grid, or the first one from its end on.
abbrev pub on_grid : ℕ → Console → ℕ
on_grid p con = if ltb p (con.height * con.width) then p else 0

-- Where a character takes the cursor.
abbrev pub next_position : ℕ → Console → ℕ
next_position c con =
    if c == newline
    then on_grid ((con.cursor_y + 1) * con.width) con
    else if c == carriage_return
    then con.cursor_y * con.width
    else if c == backspace
    then position con - 1
    else on_grid (position con + 1) con

-- A console with the cursor elsewhere, and anything drawn.
abbrev pub moved_to : ℕ → ℕ → Framebuffer → Console → Console
moved_to x y fb con = record con { fb = fb; cursor_x = x; cursor_y = y }

pub moved_to-IsValid :
    (x y : ℕ) (fb : Framebuffer) (con : Console)
    → IsValid con
    → x < con.width
    → y < con.height
    → IsValid (moved_to x y fb con)
moved_to-IsValid x y fb con v h k = record {
  x_in = h;
  y_in = k;
  width_small = v.width_small;
  height_small = v.height_small;
  drawable = v.drawable;
}

pub moved_to-SameGrid :
    (x y : ℕ) (fb : Framebuffer) (con : Console)
    → Redraws con.fb fb
    → SameGrid con (moved_to x y fb con)
moved_to-SameGrid x y fb con k = record {
  width_same = refl;
  height_same = refl;
  font_same = refl;
  scale_same = refl;
  redrawn_same = k;
}

-- A cell of the grid has a number below the number of cells.
pub inside_grid : (x y w h : ℕ) → x < w → y < h → y * w + x < h * w
inside_grid x y w h a b = grind arith

pub row_start : (y w : ℕ) → (y + 1) * w ≡ y * w + w
row_start y w = grind arith
