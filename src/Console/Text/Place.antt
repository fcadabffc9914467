-- ===== src/Console/Text/Place.antt =====
-- The first chain of tests of `putChar` in src/console.c: where it takes the cursor.
use valern.Prelude.{zero, suc, ℕ, ◌+◌, ◌*◌, ◌≤◌, ◌<◌, ◌≡◌, arith, some, ◌-◌, ◌≢◌, ap, ◌%◌}
use valern.Console.Screen.{Console, Framebuffer, size_mod}
use valern.Console.Text.{newline, carriage_return, place, inc, backspace}
use valern.Console.Text.Redraw.{Redraws, Redraws-refl}
use valern.Console.Text.Grid.{IsValid, inside_grid, moved_to, next_position, on_grid, position}
use native.Mathlib.Decide.{ℕ_discrete, dec_lt}
use valern.Console.Text.Draw.{draw_char-some}

-- The cursor before it is wrapped: at most one column or one row too far, and what was drawn.
pub record Moves (c fg_color bg_color : ℕ) (con : Console) : Type 0 where
  pub x : ℕ
  pub y : ℕ
  pub fb : Framebuffer
  pub placed : place c fg_color bg_color con ≡ some (moved_to x y fb con)
  pub redraws : Redraws con.fb fb
  pub column : x ≤ con.width
  pub row : y ≤ con.height
  pub not_both : x ≡ con.width → y < con.height
  pub at : on_grid (y * con.width + x) con ≡ next_position c con

last_of_row : (x y w : ℕ) → 0 < w → x ≡ 0 → 0 < y → (y - 1) * w + (w - 1) ≡ y * w + x - 1
last_of_row x zero w p e h = absurd (omega arith)
last_of_row x (suc y) w p e h =
    let k : suc y * w ≡ y * w + w = grind arith in
    let same : (suc y - 1) * w ≡ y * w = ap (λ k. k * w) (omega arith) in omega (arith, k, same)

module _ (c fg_color bg_color : ℕ) (con : Console) (v : IsValid con) where
  here : position con < con.height * con.width
  here = inside_grid con.cursor_x con.cursor_y con.width con.height v.x_in v.y_in

  newline-Moves : c ≡ newline → Moves c fg_color bg_color con
  unfolding place
  newline-Moves e =
      let next : inc con.cursor_y ≡ con.cursor_y + 1 = omega (arith, v.y_in, v.height_small) in
      let start : (con.cursor_y + 1) * con.width + 0 ≡ (con.cursor_y + 1) * con.width =
        omega arith in
      record {
        x = 0;
        y = con.cursor_y + 1;
        fb = con.fb;
        placed = rw (e, next);
        redraws = Redraws-refl con.fb;
        column = omega arith;
        row = omega (arith, v.y_in);
        not_both = λ w. absurd (omega (arith, v.x_in));
        at = rw (e, start);
      }

  -- A move that draws nothing, on the grid.
  stays :
      (x y : ℕ)
      → x < con.width
      → y < con.height
      → place c fg_color bg_color con ≡ some (moved_to x y con.fb con)
      → y * con.width + x ≡ next_position c con
      → Moves c fg_color bg_color con
  stays x y h l e p =
      let inside = inside_grid x y con.width con.height h l in
      record {
        x = x;
        y = y;
        fb = con.fb;
        placed = e;
        redraws = Redraws-refl con.fb;
        column = omega arith;
        row = omega arith;
        not_both = λ w. l;
        at = ground (arith, inside, p);
      }

  return-Moves : c ≡ carriage_return → Moves c fg_color bg_color con
  unfolding place
  return-Moves e = stays 0 con.cursor_y (omega (arith, v.x_in)) v.y_in (rw e) (rw e (omega arith))

  -- Back in the row, to the end of the row above, or nowhere.
  backspace-Moves : c ≡ backspace → Moves c fg_color bg_color con
  unfolding place
  backspace-Moves e = elim (dec_lt 0 con.cursor_x) [
    | yes p ↦
        stays (con.cursor_x - 1) con.cursor_y (omega (arith, v.x_in)) v.y_in (ground (arith, e))
          (ground (arith, e))
    | no p ↦ elim (dec_lt 0 con.cursor_y) [
      | yes q ↦
          let last : (con.width + size_mod - 1) % size_mod ≡ con.width - 1 =
            omega (arith, v.x_in, v.width_small) in
          let k =
            last_of_row con.cursor_x con.cursor_y con.width (omega (arith, v.x_in)) (omega arith)
              q in
          stays (con.width - 1) (con.cursor_y - 1) (omega (arith, v.x_in)) (omega (arith, v.y_in))
            (ground (arith, e, last)) (ground (arith, e, k))
      | no q ↦
          let top : con.cursor_y ≡ 0 = omega arith in
          let start : con.cursor_y * con.width ≡ 0 = rw top (omega arith) in
          stays con.cursor_x con.cursor_y v.x_in v.y_in (ground (arith, e))
            (ground (arith, e, start))
    ]
  ]

  printed-Moves : c ≢ newline → c ≢ carriage_return → c ≢ backspace → Moves c fg_color bg_color con
  unfolding place
  printed-Moves e f g =
      let (fb, r, k) =
        draw_char-some c con.cursor_x con.cursor_y fg_color bg_color con v.drawable in
      let next : inc con.cursor_x ≡ con.cursor_x + 1 = omega (arith, v.x_in, v.width_small) in
      record {
        x = con.cursor_x + 1;
        y = con.cursor_y;
        fb = fb;
        placed = ground (arith, r, next);
        redraws = k;
        column = omega (arith, v.x_in);
        row = omega (arith, v.y_in);
        not_both = λ w. v.y_in;
        at = ground arith;
      }

  pub place-Moves : Moves c fg_color bg_color con
  place-Moves = elim (ℕ_discrete c newline) [
    | yes e ↦ newline-Moves e
    | no e ↦ elim (ℕ_discrete c carriage_return) [
      | yes f ↦ return-Moves f
      | no f ↦ elim (ℕ_discrete c backspace) [
        | yes g ↦ backspace-Moves g
        | no g ↦ printed-Moves e f g
      ]
    ]
  ]
