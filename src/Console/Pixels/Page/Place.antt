-- ===== src/Console/Pixels/Page/Place.antt =====
-- The first tests of `putChar` in src/console.c on a grid that shows cells.
use valern.Console.Pixels.Page.Drawn.{draw_char-shows}
use native.Mathlib.Decide.{dec_lt, ℕ_discrete}
use valern.Prelude.{
  ◌≢◌, ℕ, ◌+◌, ◌*◌, ◌≤◌, ◌<◌, ◌≡◌, sym, arith, Bool, true, some, if◌then◌else◌, ◌==◌, leb, ◌^◌,
  false, ◌-◌, ◌%◌, ◌∙◌, refl,
}
use valern.Console.Screen.{Framebuffer, Console, size_mod}
use valern.Console.Text.{inc, place, newline, carriage_return, backspace}
use valern.Console.Pixels.Page.{Cell, shows, Displays, overruns, is_control, Fits}
use valern.Console.Text.Travel.{row_of}
use valern.Console.Text.Grid.{IsValid, position, moved_to, inside_grid}
use valern.Console.Text.Redraw.{Redraws, Redraws-refl}

-- Does a cursor that is at most one column or one row too far begin a new page?
abbrev pub wipes : ℕ → ℕ → ℕ → ℕ → Bool
wipes w h x y = if leb w x then leb h (inc y) else leb h y

rows_le : (a b w : ℕ) → 0 < w → leb (a * w) (b * w) ≡ leb a b
rows_le a b w p = elim (dec_lt b a) [
  | yes h ↦ let e : b * w + w ≤ a * w = grind arith in ground (arith, e)
  | no h ↦ let e : a * w ≤ b * w = grind arith in ground (arith, e)
]

row_after : (y w : ℕ) → y * w + w ≡ (y + 1) * w
row_after y w = grind arith

-- A character to the right of the cursor's cell.
wipes-next :
    (x y w h : ℕ) → x < w → y < h → h < 2 ^ 63 → wipes w h (x + 1) y ≡ leb (h * w) (y * w + x + 1)
wipes-next x y w h a b k = elim (dec_lt (x + 1) w) [
  | yes inside ↦ let below = inside_grid (x + 1) y w h inside b in ground (arith, below)
  | no last ↦
      let next : inc y ≡ y + 1 = omega (arith, b, k) in
      let start : y * w + x + 1 ≡ (y + 1) * w = omega (arith, row_after y w) in
      let wide : leb w (x + 1) ≡ true = ground arith in
      rw (wide, next, start) (sym (rows_le h (y + 1) w (omega arith)))
]

abbrev pub written : ℕ → Cell → ℕ → (ℕ → Cell) → ℕ → Cell
written c new p cells q = if is_control c then cells q else if q == p then new else cells q

-- Where the first chain of tests leaves the cursor, and the cells.
pub record Places (c fg_color bg_color : ℕ) (con : Console) (cells : ℕ → Cell) : Type 0 where
  pub x : ℕ
  pub y : ℕ
  pub fb : Framebuffer
  pub placed : place c fg_color bg_color con ≡ some (moved_to x y fb con)
  pub redraws : Redraws con.fb fb
  pub new_page : wipes con.width con.height x y ≡ overruns con.width con.height c (position con)
  pub shown :
      Displays (record con { fb = fb }) (written c (shows c fg_color bg_color) (position con) cells)

module _ (c fg_color bg_color : ℕ) (con : Console) (cells : ℕ → Cell) (f : Fits con)
    (v : IsValid con) (d : Displays con cells) where
  stays : (x y : ℕ) → x < con.width → y < con.height → wipes con.width con.height x y ≡ false
  stays x y a b = ground arith

  -- A control character moves the cursor and leaves the cells alone.
  moves :
      (x y : ℕ)
      → is_control c ≡ true
      → place c fg_color bg_color con ≡ some (moved_to x y con.fb con)
      → wipes con.width con.height x y ≡ overruns con.width con.height c (position con)
      → Places c fg_color bg_color con cells
  moves x y control e n = record {
    x = x;
    y = y;
    fb = con.fb;
    placed = e;
    redraws = Redraws-refl con.fb;
    new_page = n;
    shown = λ x y a b. rw control (d x y a b);
  }

  newline-Places : c ≡ newline → Places c fg_color bg_color con cells
  unfolding place
  newline-Places e =
      let next : inc con.cursor_y ≡ con.cursor_y + 1 = omega (arith, v.y_in, v.height_small) in
      let row = row_of con.cursor_x con.cursor_y con.width v.x_in in
      let narrow : wipes con.width con.height 0 (con.cursor_y + 1)
          ≡ leb con.height (con.cursor_y + 1) =
        ground (arith, v.x_in) in
      moves 0 (con.cursor_y + 1) (ground (arith, e)) (rw (e, next) refl) (
        narrow
        ∙ sym (rows_le con.height (con.cursor_y + 1) con.width (omega (arith, v.x_in)))
        ∙ rw (e, row) refl)

  return-Places : c ≡ carriage_return → Places c fg_color bg_color con cells
  unfolding place
  return-Places g =
      moves 0 con.cursor_y (ground (arith, g)) (rw g refl)
        (rw g (stays 0 con.cursor_y (omega (arith, v.x_in)) v.y_in))

  backspace-Places : c ≡ backspace → Places c fg_color bg_color con cells
  unfolding place
  backspace-Places h =
      let control : is_control c ≡ true = ground (arith, h) in
      let same_page : overruns con.width con.height c (position con) ≡ false = rw h refl in
      elim (dec_lt 0 con.cursor_x) [
        | yes p ↦
            moves (con.cursor_x - 1) con.cursor_y control (ground (arith, h))
              (stays (con.cursor_x - 1) con.cursor_y (omega (arith, v.x_in)) v.y_in ∙ sym same_page)
        | no p ↦ elim (dec_lt 0 con.cursor_y) [
          | yes q ↦
              let last : (con.width + size_mod - 1) % size_mod ≡ con.width - 1 =
                omega (arith, v.x_in, v.width_small) in
              moves (con.width - 1) (con.cursor_y - 1) control (ground (arith, h, last)) (
                stays (con.width - 1) (con.cursor_y - 1) (omega (arith, v.x_in))
                  (omega (arith, v.y_in))
                ∙ sym same_page)
          | no q ↦
              moves con.cursor_x con.cursor_y control (ground (arith, h))
                (stays con.cursor_x con.cursor_y v.x_in v.y_in ∙ sym same_page)
        ]
      ]

  printed-Places :
      c ≢ newline → c ≢ carriage_return → c ≢ backspace → Places c fg_color bg_color con cells
  unfolding place
  printed-Places e g h =
      let (fb, r, k, s) = draw_char-shows c fg_color bg_color con cells f v d in
      let plain : is_control c ≡ false = ground arith in
      let next : inc con.cursor_x ≡ con.cursor_x + 1 = omega (arith, v.x_in, v.width_small) in
      record {
        x = con.cursor_x + 1;
        y = con.cursor_y;
        fb = fb;
        placed = ground (arith, r, next);
        redraws = k;
        new_page =
            wipes-next con.cursor_x con.cursor_y con.width con.height v.x_in v.y_in v.height_small
            ∙ ground arith;
        shown = λ x y a b. rw plain (s x y a b);
      }

  pub place-Places : Places c fg_color bg_color con cells
  place-Places = elim (ℕ_discrete c newline) [
    | yes e ↦ newline-Places e
    | no e ↦ elim (ℕ_discrete c carriage_return) [
      | yes g ↦ return-Places g
      | no g ↦ elim (ℕ_discrete c backspace) [
        | yes h ↦ backspace-Places h
        | no h ↦ printed-Places e g h
      ]
    ]
  ]
