-- ===== src/Console/Setup/Unready.antt =====
-- The console of src/console.c before it has a font and a grid: what `init_shell` prints then.
use valern.Prelude.{
  inl, inr, ℕ, ◌≡◌, refl, arith, List, [], ◌∷◌, none, some, leb, true, Bool-cases, ◌==◌,
}
use valern.Console.Screen.{Framebuffer, Console, draw_char, console_clear, clear_rows}
use valern.Console.Text.{
  newline, carriage_return, backspace, inc, step_back, place, wrap_column, wrap_screen, put_char,
  put_text,
}
use valern.Console.Text.Grid.{moved_to}
use valern.Console.Text.Redraw.{Redraws, Redraws-refl, Redraws-trans, clear_rows-Redraws}

-- As the kernel is loaded: static storage is zero.
pub record IsUnready (con : Console) : Type 0 where
  pub no_font : con.font.glyph_buffer ≡ none
  pub no_width : con.width ≡ 0
  pub no_height : con.height ≡ 0

-- The whole screen is cleared after each character.
abbrev blanked : Console → Framebuffer
blanked con = clear_rows con.fb.height 0 con.bg_color con.fb

place-unready :
    (c f b : ℕ) (con : Console)
    → IsUnready con
    → (x : ℕ) × (y : ℕ) × (place c f b con ≡ some (moved_to x y con.fb con))
unfolding place draw_char
place-unready c f b con u = elim (Bool-cases (c == newline)) [
  | inl e ↦ (0, inc con.cursor_y, rw e refl)
  | inr n10 ↦ elim (Bool-cases (c == carriage_return)) [
    | inl e ↦ (0, con.cursor_y, rw (n10, e) refl)
    | inr n13 ↦ elim (Bool-cases (c == backspace)) [
      | inl e ↦
          ((step_back con).cursor_x, (step_back con).cursor_y, rw (n10, n13, e) (ground arith))
      | inr n8 ↦ (inc con.cursor_x, con.cursor_y, rw (n10, n13, n8, u.no_font) refl)
    ]
  ]
]

put_char-unready :
    (c f b : ℕ) (con : Console)
    → IsUnready con
    → put_char c f b con ≡ some (moved_to 0 0 (blanked con) con)
unfolding put_char wrap_column wrap_screen console_clear
put_char-unready c f b con u =
    let (x, y, e) = place-unready c f b con u in
    let wide : leb con.width x ≡ true = ground (arith, u.no_width) in
    let high : (k : ℕ) → leb con.height k ≡ true = λ k. ground (arith, u.no_height) in
    rw (e, wide, high (inc y)) refl

IsUnready-moved_to :
    (fb : Framebuffer) (con : Console) → IsUnready con → IsUnready (moved_to 0 0 fb con)
IsUnready-moved_to fb con u = record {
  no_font = u.no_font;
  no_width = u.no_width;
  no_height = u.no_height;
}

-- Whatever is printed, the cursor is back in the corner and nothing but pixels has changed: the screen
-- has just been cleared.
pub put_text-unready :
    (c : ℕ) (text : List ℕ) (f b : ℕ) (fb : Framebuffer) (con : Console)
    → IsUnready con
    → (fb' : Framebuffer) × (put_text (c ∷ text) f b (moved_to 0 0 fb con)
        ≡ some (moved_to 0 0 (clear_rows fb'.height 0 con.bg_color fb') con))
      × Redraws fb fb'
unfolding put_text
put_text-unready c [] f b fb con u =
    let e = put_char-unready c f b (moved_to 0 0 fb con) (IsUnready-moved_to fb con u) in
    (fb, rw (put_text, e) refl, Redraws-refl fb)
put_text-unready c (d ∷ text) f b fb con u =
    let corner = moved_to 0 0 fb con in
    let e = put_char-unready c f b corner (IsUnready-moved_to fb con u) in
    let (fb', r, k) = put_text-unready d text f b (blanked corner) con u in
    (fb', rw (put_text, e) r, Redraws-trans (clear_rows-Redraws con.bg_color fb) k)
