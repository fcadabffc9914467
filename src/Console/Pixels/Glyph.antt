-- ===== src/Console/Pixels/Glyph.antt =====
-- The loop of `draw_char` in src/console.c over the rows of a glyph.
use valern.Prelude.{
  ℕ, zero, suc, ◌+◌, ◌≤◌, ◌<◌, ◌^◌, ◌≡◌, refl, arith, ◌⊎◌, inl, inr, List, some, get_elem?, length,
  ◌∙◌, get_elem?-lt,
}
use valern.Console.Screen.{Framebuffer, Pen, pen_color, draw_rows}
use valern.Console.Text.Redraw.{Redraws, Redraws-refl, Redraws-trans}
use valern.Console.Text.Memory.{IsScreen}
use valern.Console.Pixels.{pixel}
use valern.Console.Pixels.Block.{IsScreen-Redraws}
use valern.Console.Pixels.Columns.{
  Columns, left_of, top_of, next_left, next_within, skip_suc, draw_columns-Columns,
}

-- The squares of `n` rows from `row` on, of `width` columns each, have the colours of the bits of the
-- glyph, and every other pixel keeps its own.
pub record Rows (n row width : ℕ) (glyph : List ℕ) (pen : Pen) (fb fb' : Framebuffer) : Type 0 where
  pub redraws : Redraws fb fb'
  pub inside :
      (r k bits x y : ℕ)
      → (r < n) × (k < width)
      → get_elem? glyph (row + r) ≡ some bits
      → (x < fb.width) × (y < fb.height)
      → (left_of pen k ≤ x) × (x < left_of pen k + pen.scale)
      → (top_of pen (row + r) ≤ y) × (y < top_of pen (row + r) + pen.scale)
      → pixel x y fb' ≡ pen_color pen bits k
  pub outside :
      (x y : ℕ)
      → (x < fb.width) × (y < fb.height)
      → (x < left_of pen 0)
        ⊎ ((left_of pen width ≤ x) ⊎ ((y < top_of pen row) ⊎ (top_of pen (row + n) ≤ y)))
      → pixel x y fb' ≡ pixel x y fb

Rows-suc :
    (n row width bits : ℕ) (glyph : List ℕ) (pen : Pen) (fb fb1 fb' : Framebuffer)
    → get_elem? glyph row ≡ some bits
    → Columns width 0 row bits pen fb fb1
    → Rows n (row + 1) width glyph pen fb1 fb'
    → Rows (suc n) row width glyph pen fb fb'
Rows-suc n row width bits glyph pen fb fb1 fb' at first rest = record {
  redraws = Redraws-trans first.redraws rest.redraws;
  inside = inside;
  outside = outside;
}
  where
    on_fb1 : (x y : ℕ) → (x < fb.width) × (y < fb.height) → (x < fb1.width) × (y < fb1.height)
    on_fb1 x y (a, b) = (rw first.redraws.width_same a, rw first.redraws.height_same b)

    inside :
        (r k b x y : ℕ)
        → (r < suc n) × (k < width)
        → get_elem? glyph (row + r) ≡ some b
        → (x < fb.width) × (y < fb.height)
        → (left_of pen k ≤ x) × (x < left_of pen k + pen.scale)
        → (top_of pen (row + r) ≤ y) × (y < top_of pen (row + r) + pen.scale)
        → pixel x y fb' ≡ pen_color pen b k
    inside zero k b x y (h, w) e on across (t, u) =
        let above : y < top_of pen (row + 1) = omega (arith, next_left pen.fb_y row pen.scale, u) in
        let same : bits ≡ b = ground (arith, at, e) in
        let from_zero : 0 + k ≡ k = omega arith in
        let here : row + 0 ≡ row = omega arith in
        rest.outside x y (on_fb1 x y on) (inr (inr (inl above)))
        ∙ (first.inside k x y w on (rw from_zero across) (rw (← here) (t, u))
            ∙ rw (from_zero, same) refl)
    inside (suc r) k b x y (h, w) e on across down =
        rest.inside r k b x y (omega arith, w) (rw (skip_suc row r) e) (on_fb1 x y on) across
          (rw (skip_suc row r) down)

    outside :
        (x y : ℕ)
        → (x < fb.width) × (y < fb.height)
        → (x < left_of pen 0)
          ⊎ ((left_of pen width ≤ x) ⊎ ((y < top_of pen row) ⊎ (top_of pen (row + suc n) ≤ y)))
        → pixel x y fb' ≡ pixel x y fb
    outside x y on off =
        let next = next_left pen.fb_y row pen.scale in
        let within = next_within pen.fb_y row n pen.scale in
        rest.outside x y (on_fb1 x y on) (rw (skip_suc row n) (ground (arith, next, off)))
        ∙ first.outside x y on (ground (arith, within, off))

pub draw_rows-Rows :
    (n row width : ℕ) (glyph : List ℕ) (pen : Pen) (fb : Framebuffer)
    → IsScreen fb
    → width ≤ 8
    → row + n ≤ length glyph
    → left_of pen width ≤ 2 ^ 63
    → top_of pen (row + n) ≤ 2 ^ 63
    → (fb' : Framebuffer) × (draw_rows n row width glyph pen fb ≡ some fb')
      × Rows n row width glyph pen fb fb'
unfolding draw_rows
draw_rows-Rows zero row width glyph pen fb s w h l t = (
  fb,
  refl,
  record {
    redraws = Redraws-refl fb;
    inside = λ r k b x y (none_left, _). absurd (omega arith);
    outside = λ x y on off. refl;
  },
)
draw_rows-Rows (suc n) row width glyph pen fb s w h l t =
    let within = next_within pen.fb_y row n pen.scale in
    let (bits, at) = get_elem?-lt glyph row (omega arith) in
    let (fb1, e, first) =
      draw_columns-Columns width 0 row bits pen fb s (omega arith) (omega (arith, l))
        (omega (arith, within, t)) in
    let s1 = IsScreen-Redraws fb fb1 first.redraws s in
    let (fb', f, rest) =
      draw_rows-Rows n (row + 1) width glyph pen fb1 s1 w (omega arith) l (rw (skip_suc row n) t) in
    (fb', ground (arith, at, e, f), Rows-suc n row width bits glyph pen fb fb1 fb' at first rest)
