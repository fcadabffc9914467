-- ===== src/Console/Text/Draw.antt =====
-- `draw_char` of src/console.c has a defined result on fonts that are at most 8 pixels wide.
use valern.Prelude.{
  ℕ, zero, suc, ◌+◌, ◌≤◌, ◌<◌, ◌*◌, ◌≡◌, refl, arith, List, some, none, length, get_elem?-lt, ltb,
  ◌⊎◌, false, inl, inr, Option-cases, ◌%◌, ◌^◌, drop, length-drop,
}
use valern.Psf.{PsfFont, psf_get_glyph}
use valern.Psf.Glyph.{HasGlyphs}
use valern.Console.Screen.{
  Framebuffer, Console, Pen, draw_block, pen_color, draw_columns, draw_rows, draw_char, pen_at,
}
use native.Mathlib.Decide.{dec_lt}
use valern.Console.Text.Redraw.{Redraws, Redraws-refl, draw_block-Redraws, Redraws-trans}

-- The font has at most 8 columns, and every glyph that it hands out for a byte has all its rows.
pub record IsDrawable (font : PsfFont) : Type 0 where
  pub narrow : font.width ≤ 8
  pub rows :
      (c : ℕ) (glyph : List ℕ)
      → c < 2 ^ 8
      → psf_get_glyph (some font) c ≡ some glyph
      → font.height ≤ length glyph

draw_columns-some :
    (left col row glyph_row : ℕ) (pen : Pen) (fb : Framebuffer)
    → col + left ≤ 8
    → (fb' : Framebuffer) × (draw_columns left col row glyph_row pen fb ≡ some fb') × Redraws fb fb'
unfolding draw_columns
draw_columns-some zero col row glyph_row pen fb h = (fb, refl, Redraws-refl fb)
draw_columns-some (suc left) col row glyph_row pen fb h =
    let drawn =
      draw_block pen.scale 0 pen.scale (pen.fb_x + col * pen.scale) (pen.fb_y + row * pen.scale)
        (pen_color pen glyph_row col) fb in
    let first =
      draw_block-Redraws pen.scale 0 pen.scale (pen.fb_x + col * pen.scale)
        (pen.fb_y + row * pen.scale) (pen_color pen glyph_row col) fb in
    let (fb', e, k) = draw_columns-some left (col + 1) row glyph_row pen drawn (omega arith) in
    let inside : ltb 7 col ≡ false = ground arith in (fb', rw inside e, Redraws-trans first k)

draw_rows-some :
    (left row width : ℕ) (glyph : List ℕ) (pen : Pen) (fb : Framebuffer)
    → width ≤ 8
    → row + left ≤ length glyph
    → (fb' : Framebuffer) × (draw_rows left row width glyph pen fb ≡ some fb') × Redraws fb fb'
unfolding draw_rows
draw_rows-some zero row width glyph pen fb n h = (fb, refl, Redraws-refl fb)
draw_rows-some (suc left) row width glyph pen fb n h =
    let (glyph_row, e) = get_elem?-lt glyph row (omega arith) in
    let (mid, f, k) = draw_columns-some width 0 row glyph_row pen fb (omega arith) in
    let (fb', g, k') = draw_rows-some left (row + 1) width glyph pen mid n (omega arith) in
    (fb', ground (arith, e, f, g), Redraws-trans k k')

pub draw_char-some :
    (c x y fg_color bg_color : ℕ) (con : Console)
    → IsDrawable con.font
    → (fb' : Framebuffer) × (draw_char c x y fg_color bg_color con ≡ some (record con { fb = fb' }))
      × Redraws con.fb fb'
unfolding draw_char
draw_char-some c x y fg_color bg_color con d =
    with_buffer (Option-cases con.font.glyph_buffer)
      (Option-cases (psf_get_glyph (some con.font) (c % 2 ^ 8)))
  where
    with_buffer :
        (con.font.glyph_buffer ≡ none) ⊎ ((b : List ℕ) × (con.font.glyph_buffer ≡ some b))
        → (psf_get_glyph (some con.font) (c % 2 ^ 8) ≡ none)
          ⊎ ((g : List ℕ) × (psf_get_glyph (some con.font) (c % 2 ^ 8) ≡ some g))
        → (fb' : Framebuffer) × (draw_char c x y fg_color bg_color con
            ≡ some (record con { fb = fb' }))
          × Redraws con.fb fb'
    with_buffer (inl e) _ = (con.fb, ground (arith, e), Redraws-refl con.fb)
    with_buffer (inr (b, e)) (inl f) = (con.fb, ground (arith, e, f), Redraws-refl con.fb)
    with_buffer (inr (b, e)) (inr (glyph, f)) =
        let (fb', r, k) =
          draw_rows-some con.font.height 0 con.font.width glyph (pen_at x y fg_color bg_color con)
            con.fb d.narrow (omega (arith, d.rows (c % 2 ^ 8) glyph (omega arith) f)) in
        (fb', ground (arith, e, f, r), k)

-- A buffer that holds `n` glyphs: all that the font counts, or one for each byte.
pub record HoldsGlyphs (font : PsfFont) (buffer : List ℕ) (n : ℕ) : Type 0 where
  pub at_buffer : font.glyph_buffer ≡ some buffer
  pub room : n * font.glyph_size ≤ length buffer
  pub no_wrap : n * font.glyph_size ≤ 2 ^ 32
  pub enough : (2 ^ 8 ≤ n) ⊎ (font.glyph_count ≤ n)

glyph_end : (c g k : ℕ) → c < k → c * g + g ≤ k * g
glyph_end c g k l = grind arith

-- Glyphs that lie inside the buffer have all their rows.
pub IsDrawable-of_HoldsGlyphs :
    (font : PsfFont) (buffer : List ℕ) (n : ℕ)
    → HoldsGlyphs font buffer n
    → font.width ≤ 8
    → font.height ≤ font.glyph_size
    → IsDrawable font
IsDrawable-of_HoldsGlyphs font buffer n v narrow h = record { narrow = narrow; rows = rows }
  where
    rows_of :
        (c : ℕ) (glyph : List ℕ)
        → psf_get_glyph (some font) c ≡ some glyph
        → c < font.glyph_count
        → c < n
        → Dec (0 < font.glyph_size)
        → font.height ≤ length glyph
    rows_of c glyph e counted inside (no z) = omega (arith, z)
    rows_of c glyph e counted inside (yes p) =
        unfold psf_get_glyph in
        let fits = glyph_end c font.glyph_size n inside in
        let offset : c * font.glyph_size % 2 ^ 32 ≡ c * font.glyph_size =
          omega (arith, fits, v.room, v.no_wrap) in
        let at : drop (c * font.glyph_size) buffer ≡ glyph =
          ground (arith, v.at_buffer, e, offset) in
        rw (← at) (omega (arith, length-drop (c * font.glyph_size) buffer, fits, v.room))

    rows :
        (c : ℕ) (glyph : List ℕ)
        → c < 2 ^ 8
        → psf_get_glyph (some font) c ≡ some glyph
        → font.height ≤ length glyph
    rows c glyph b e =
        unfold psf_get_glyph in
        let counted : c < font.glyph_count = ground (arith, v.at_buffer, e) in
        rows_of c glyph e counted (omega (arith, v.enough, counted)) (dec_lt 0 font.glyph_size)

pub HoldsGlyphs-of_HasGlyphs :
    (font : PsfFont) (buffer : List ℕ)
    → HasGlyphs font buffer
    → HoldsGlyphs font buffer font.glyph_count
HoldsGlyphs-of_HasGlyphs font buffer v = record {
  at_buffer = v.at_buffer;
  room = v.room;
  no_wrap = v.no_wrap;
  enough = inr (omega arith);
}
