-- ===== src/Console/Pixels/Page/Drawn.antt =====
-- `draw_char` and `console_clear` of src/console.c on a grid that shows cells.
use valern.Prelude.{
  zero, suc, ◌∷◌, [], ap₂, ℕ, ◌+◌, ◌-◌, ◌*◌, ◌%◌, ◌^◌, ◌≤◌, ◌<◌, ◌≡◌, ◌≢◌, refl, sym, arith, List,
  some, false, get_or, get_elem?, drop, if◌then◌else◌, ◌==◌, ◌∙◌, ◌⊎◌, inl, inr, leb, length,
  Bool-cases, not, bit_and, ap, same_result,
}
use valern.Console.Text.Draw.{draw_char-some}
use valern.Console.Text.Redraw.{Redraws}
use native.Mathlib.Decide.{ℕ_discrete}
use valern.Psf.{PsfFont, psf_get_glyph}
use valern.Console.Screen.{Framebuffer, Console, draw_char, clear_rows}
use valern.Console.Text.Grid.{IsValid, position}
use valern.Console.Text.Memory.{cell_inj}
use valern.Console.Pixels.{pixel}
use valern.Console.Pixels.Cell.{IsCell, IsOutside, column_of, row_of, in_square, draw_char-paints}
use valern.Console.Pixels.Clear.{clear_rows-pixel}
use valern.Console.Pixels.Page.{Cell, blank, shows, color_at, Displays, Fits}

-- A cell ends where the next one begins, and inside the grid.
cell_end : (x w n s : ℕ) → x < w → x * n * s + n * s ≤ w * n * s
cell_end x w n s h = grind arith

Fits-IsCell :
    (x y : ℕ) (con : Console)
    → Fits con
    → IsValid con
    → x < con.width
    → y < con.height
    → IsCell x y con
Fits-IsCell x y con f v a b = record {
  screen = f.screen;
  drawable = v.drawable;
  columns_fit = omega (arith, cell_end x con.width con.font.width con.scale a, f.columns_fit);
  rows_fit = omega (arith, cell_end y con.height con.font.height con.scale b, f.rows_fit);
  width_int = f.width_int;
  height_int = f.height_int;
}

-- Every byte has a glyph.
Fits-glyph :
    (c : ℕ) (con : Console)
    → Fits con
    → (glyph : List ℕ) × (psf_get_glyph (some con.font) (c % 2 ^ 8) ≡ some glyph)
unfolding psf_get_glyph
Fits-glyph c con f =
    let counted : leb con.font.glyph_count (c % 2 ^ 8) ≡ false = ground (arith, f.glyphs) in
    (drop (c % 2 ^ 8 * con.font.glyph_size % 2 ^ 32) f.buffer, rw (f.at_buffer, counted) refl)

-- A pixel of one cell lies outside every other one.
apart :
    (x y cx cy k r i j : ℕ) (con : Console)
    → k < con.font.width
    → r < con.font.height
    → i < con.scale
    → j < con.scale
    → (x ≢ cx) ⊎ (y ≢ cy)
    → IsOutside cx cy (column_of x k i con) (row_of y r j con) con
apart x y cx cy k r i j con h l m n other = elim (sides x cx y cy other) [
  | inl left ↦ inl (
      in_square (x * con.font.width * con.scale) k con.font.width con.scale i
        (cx * con.font.width * con.scale) h m (cell_end x cx con.font.width con.scale left))
  | inr (inl right) ↦
      let e = cell_end cx x con.font.width con.scale right in inr (inl (omega (arith, e)))
  | inr (inr (inl above)) ↦ inr (
      inr (
        inl (
          in_square (y * con.font.height * con.scale) r con.font.height con.scale j
            (cy * con.font.height * con.scale) l n
            (cell_end y cy con.font.height con.scale above))))
  | inr (inr (inr below)) ↦
      let e = cell_end cy y con.font.height con.scale below in inr (inr (inr (omega (arith, e))))
]
  where
    sides : (a b c d : ℕ) → (a ≢ b) ⊎ (c ≢ d) → (a < b) ⊎ ((b < a) ⊎ ((c < d) ⊎ (d < c)))
    sides a b c d (inl e) = ground (arith, e)
    sides a b c d (inr e) = ground (arith, e)

get_elem?-some : (xs : List ℕ) (n : ℕ) → n < length xs → get_elem? xs n ≡ some (get_or xs n 0)
get_elem?-some [] n h = absurd (omega arith)
get_elem?-some (x ∷ xs) zero h = refl
get_elem?-some (x ∷ xs) (suc n) h = get_elem?-some xs n (omega arith)

color_at-shows :
    (font : PsfFont) (c fg_color bg_color r k i j : ℕ) (glyph : List ℕ)
    → psf_get_glyph (some font) (c % 2 ^ 8) ≡ some glyph
    → color_at font (shows c fg_color bg_color) r k i j
      ≡ (if not (bit_and (get_or glyph r 0) (2 ^ (7 - k)) == 0) then fg_color else bg_color)
color_at-shows font c fg_color bg_color r k i j glyph e = rw (color_at, e) refl

other_cell : (w x y cx cy : ℕ) → (y * w + x == cy * w + cx) ≡ false → (x ≢ cx) ⊎ (y ≢ cy)
other_cell w x y cx cy differ = elim (ℕ_discrete x cx) [
  | yes e ↦ inr (λ f.
      let same : y * w + x ≡ cy * w + cx = ap₂ (λ a b. b * w + a) e f in
      absurd (ground (arith, differ, same)))
  | no e ↦ inl e
]

-- The character appears in the cursor's cell, and no other cell changes.
pub draw_char-shows :
    (c fg_color bg_color : ℕ) (con : Console) (cells : ℕ → Cell)
    → Fits con
    → IsValid con
    → Displays con cells
    → (fb' : Framebuffer) × (draw_char c con.cursor_x con.cursor_y fg_color bg_color con
        ≡ some (record con { fb = fb' }))
      × Redraws con.fb fb'
      × Displays
          (record con { fb = fb' })
          (λ q. if q == position con then shows c fg_color bg_color else cells q)
draw_char-shows c fg_color bg_color con cells f v d =
    let (glyph, g) = Fits-glyph c con f in
    let here = Fits-IsCell con.cursor_x con.cursor_y con f v v.x_in v.y_in in
    let rows = v.drawable.rows (c % 2 ^ 8) glyph (omega arith) g in
    let (fb', e, inside, outside) =
      draw_char-paints c con.cursor_x con.cursor_y fg_color bg_color con f.buffer glyph here
        f.at_buffer g in
    let (fb1, e1, k1) =
      draw_char-some c con.cursor_x con.cursor_y fg_color bg_color con v.drawable in
    let same_fb : fb' ≡ fb1 = ap (λ (k : Console). k.fb) (same_result e e1) in
    (
      fb',
      e,
      rw same_fb k1,
      λ x y a b r k i j h l m n. elim (Bool-cases (y * con.width + x == position con)) [
        | inl same ↦
            let (p, q) =
              cell_inj con.width x y con.cursor_x con.cursor_y a v.x_in (ground (arith, same)) in
            let it =
              inside r k i j (get_or glyph r 0) h l m n (get_elem?-some glyph r (omega arith)) in
            let drawn : (if y * con.width + x == position con
                  then shows c fg_color bg_color
                  else cells (y * con.width + x))
                ≡ shows c fg_color bg_color =
              rw same refl in
            rw drawn (
              ap₂ (λ s t. pixel (column_of s k i con) (row_of t r j con) fb') p q
              ∙ it
              ∙ sym (color_at-shows con.font c fg_color bg_color r k i j glyph g))
        | inr other ↦
            let cell = Fits-IsCell x y con f v a b in
            let px =
              in_square (x * con.font.width * con.scale) k con.font.width con.scale i con.fb.width l
                m cell.columns_fit in
            let py =
              in_square (y * con.font.height * con.scale) r con.font.height con.scale j
                con.fb.height h n cell.rows_fit in
            rw other (
              outside (column_of x k i con) (row_of y r j con) px py (
                apart x y con.cursor_x con.cursor_y k r i j con l h m n
                  (other_cell con.width x y con.cursor_x con.cursor_y other))
              ∙ d x y a b r k i j h l m n)
      ],
    )

-- The cleared grid is blank.
pub clear_rows-blank :
    (con : Console) (color : ℕ)
    → Fits con
    → IsValid con
    → Displays (record con { fb = clear_rows con.fb.height 0 color con.fb }) (λ q. blank color)
clear_rows-blank con color f v x y a b r k i j h l m n =
    let cell = Fits-IsCell x y con f v a b in
    let px =
      in_square (x * con.font.width * con.scale) k con.font.width con.scale i con.fb.width l m
        cell.columns_fit in
    let py =
      in_square (y * con.font.height * con.scale) r con.font.height con.scale j con.fb.height h n
        cell.rows_fit in
    clear_rows-pixel (column_of x k i con) (row_of y r j con) color con.fb f.screen px py
