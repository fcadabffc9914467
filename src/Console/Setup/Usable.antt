-- ===== src/Console/Setup/Usable.antt =====
-- The fonts and the screens that `init_shell` of src/console.c can use, and the grid that they give.
use valern.Prelude.{ℕ, ◌*◌, ◌/◌, ◌%◌, ◌^◌, ◌≤◌, ◌<◌, ◌≡◌, refl, arith, some, ◌==◌, ◌||◌, false}
use valern.Psf.{PsfFont}
use valern.Console.Text.Grid.{IsValid}
use valern.Console.Screen.{Framebuffer, Console}
use valern.Console.Text.Draw.{IsDrawable}
use valern.Console.Text.Redraw.{Redraws}
use valern.Console.Setup.{set_dimensions}
use valern.Console.Command.Lines.{IsShowable}

-- A font that can be drawn at double size on a screen that has room for at least one cell.
pub record IsUsable (font : PsfFont) (fb : Framebuffer) : Type 0 where
  pub drawable : IsDrawable font
  pub width_pos : 0 < font.width
  pub height_pos : 0 < font.height
  pub height_int : font.height < 2 ^ 31
  pub version_int : font.version < 2 ^ 31
  pub count_int : font.glyph_count < 2 ^ 31
  pub one_column : font.width * 2 ≤ fb.width
  pub one_row : font.height * 2 ≤ fb.height
  pub fb_width_int : fb.width < 2 ^ 31
  pub fb_height_int : fb.height < 2 ^ 31

-- Whole cells in so many pixels.
abbrev pub cells : ℕ → ℕ → ℕ
cells pixels size = pixels / (size * 2)

pub one_cell : (pixels size : ℕ) → 0 < size → size * 2 ≤ pixels → 0 < cells pixels size
one_cell pixels size p h = grind arith

cells-le : (pixels size : ℕ) → cells pixels size ≤ pixels
cells-le pixels size = grind arith

-- The console's grid is the one that its font and its screen give.
pub record IsSized (con : Console) (font : PsfFont) (fb : Framebuffer) : Type 0 where
  pub font_is : con.font ≡ font
  pub scale_is : con.scale ≡ 2
  pub screen_is : Redraws fb con.fb
  pub width_is : con.width ≡ cells fb.width font.width
  pub height_is : con.height ≡ cells fb.height font.height

abbrev pub sized : Console → Console
sized con = record con {
  width = cells con.fb.width con.font.width;
  height = cells con.fb.height con.font.height;
}

pub set_dimensions-sized :
    (con : Console)
    → con.scale ≡ 2
    → IsUsable con.font con.fb
    → set_dimensions con ≡ some (sized con)
unfolding set_dimensions
set_dimensions-sized con e u =
    let w : con.font.width * con.scale % 2 ^ 32 ≡ con.font.width * 2 =
      rw e (omega (arith, u.drawable.narrow)) in
    let h : con.font.height * con.scale % 2 ^ 32 ≡ con.font.height * 2 =
      rw e (omega (arith, u.height_int)) in
    let test : ((con.font.width * 2 == 0) || (con.font.height * 2 == 0)) ≡ false =
      ground (arith, u.width_pos, u.height_pos) in
    rw (w, h, test) refl

pub IsUsable-Redraws :
    (font font' : PsfFont) (fb fb' : Framebuffer)
    → font' ≡ font
    → Redraws fb fb'
    → IsUsable font fb
    → IsUsable font' fb'
IsUsable-Redraws font font' fb fb' e k u = record {
  drawable = rw e u.drawable;
  width_pos = rw e u.width_pos;
  height_pos = rw e u.height_pos;
  height_int = rw e u.height_int;
  version_int = rw e u.version_int;
  count_int = rw e u.count_int;
  one_column = rw (e, k.width_same) u.one_column;
  one_row = rw (e, k.height_same) u.one_row;
  fb_width_int = rw k.width_same u.fb_width_int;
  fb_height_int = rw k.height_same u.fb_height_int;
}

-- The grid of a usable font is valid wherever the cursor stands on it.
pub sized-IsValid :
    (con : Console)
    → IsUsable con.font con.fb
    → con.cursor_x < cells con.fb.width con.font.width
    → con.cursor_y < cells con.fb.height con.font.height
    → IsValid (sized con)
sized-IsValid con u x y = record {
  x_in = x;
  y_in = y;
  width_small = omega (arith, cells-le con.fb.width con.font.width, u.fb_width_int);
  height_small = omega (arith, cells-le con.fb.height con.font.height, u.fb_height_int);
  drawable = u.drawable;
}

pub sized-IsShowable :
    (con : Console) → con.scale ≡ 2 → IsUsable con.font con.fb → IsShowable (sized con)
sized-IsShowable con e u = record {
  width_int = omega (arith, cells-le con.fb.width con.font.width, u.fb_width_int);
  height_int = omega (arith, cells-le con.fb.height con.font.height, u.fb_height_int);
  font_width_int = omega (arith, u.drawable.narrow);
  font_height_int = u.height_int;
  fb_width_int = u.fb_width_int;
  fb_height_int = u.fb_height_int;
  scale_int = omega (arith, e);
  version_int = u.version_int;
  count_int = u.count_int;
}

-- What `init_shell` is to leave.
pub record IsStarted (con : Console) (font : PsfFont) (fb : Framebuffer) : Type 0 where
  pub valid : IsValid con
  pub showable : IsShowable con
  pub sizes : IsSized con font fb
