-- ===== src/Console/Pixels/Columns.antt =====
-- The loop of `draw_char` in src/console.c over the columns of a row of a glyph.
use valern.Prelude.{
  ℕ, zero, suc, ◌+◌, ◌*◌, ◌≤◌, ◌<◌, ◌^◌, ◌≡◌, refl, arith, ◌⊎◌, some, ◌∙◌, ltb, false, inl,
}
use valern.Console.Screen.{Framebuffer, Pen, pen_color, draw_block, draw_columns}
use valern.Console.Text.Redraw.{Redraws, Redraws-refl, Redraws-trans}
use valern.Console.Text.Memory.{IsScreen}
use valern.Console.Pixels.{pixel}
use valern.Console.Pixels.Block.{Fills, IsScreen-Redraws, draw_block-Fills}

-- Where the square of a column and a row of the glyph begins.
abbrev pub left_of : Pen → ℕ → ℕ
left_of pen col = pen.fb_x + col * pen.scale

abbrev pub top_of : Pen → ℕ → ℕ
top_of pen row = pen.fb_y + row * pen.scale

-- The squares of `n` columns from `col` on have the colours of the bits of `bits`, in the row `row` of
-- the glyph, and every other pixel keeps its own.
pub record Columns (n col row bits : ℕ) (pen : Pen) (fb fb' : Framebuffer) : Type 0 where
  pub redraws : Redraws fb fb'
  pub inside :
      (k x y : ℕ)
      → k < n
      → (x < fb.width) × (y < fb.height)
      → (left_of pen (col + k) ≤ x) × (x < left_of pen (col + k) + pen.scale)
      → (top_of pen row ≤ y) × (y < top_of pen row + pen.scale)
      → pixel x y fb' ≡ pen_color pen bits (col + k)
  pub outside :
      (x y : ℕ)
      → (x < fb.width) × (y < fb.height)
      → (x < left_of pen col)
        ⊎ ((left_of pen (col + n) ≤ x) ⊎ ((y < top_of pen row) ⊎ (top_of pen row + pen.scale ≤ y)))
      → pixel x y fb' ≡ pixel x y fb

pub next_left : (a c s : ℕ) → a + (c + 1) * s ≡ a + c * s + s
next_left a c s = grind arith

pub next_within : (a c n s : ℕ) → a + c * s + s ≤ a + (c + suc n) * s
next_within a c n s = grind arith

pub skip_suc : (c n : ℕ) → c + 1 + n ≡ c + suc n
skip_suc c n = omega arith

Columns-suc :
    (n col row bits : ℕ) (pen : Pen) (fb fb1 fb' : Framebuffer)
    → Fills
        (left_of pen col)
        pen.scale
        (top_of pen row + 0)
        pen.scale
        (pen_color pen bits col)
        fb
        fb1
    → Columns n (col + 1) row bits pen fb1 fb'
    → Columns (suc n) col row bits pen fb fb'
Columns-suc n col row bits pen fb fb1 fb' block rest = record {
  redraws = Redraws-trans block.redraws rest.redraws;
  inside = inside;
  outside = outside;
}
  where
    on_fb1 : (x y : ℕ) → (x < fb.width) × (y < fb.height) → (x < fb1.width) × (y < fb1.height)
    on_fb1 x y (a, b) = (rw block.redraws.width_same a, rw block.redraws.height_same b)

    inside :
        (k x y : ℕ)
        → k < suc n
        → (x < fb.width) × (y < fb.height)
        → (left_of pen (col + k) ≤ x) × (x < left_of pen (col + k) + pen.scale)
        → (top_of pen row ≤ y) × (y < top_of pen row + pen.scale)
        → pixel x y fb' ≡ pen_color pen bits (col + k)
    inside zero x y h on (l, r) (t, b) =
        let before : x < left_of pen (col + 1) =
          omega (arith, next_left pen.fb_x col pen.scale, r) in
        rest.outside x y (on_fb1 x y on) (inl before)
        ∙ (block.pixels x y on.0 on.1 ∙ ground (arith, l, r, t, b))
    inside (suc k) x y h on across down =
        rw (← skip_suc col k)
          (rest.inside k x y (omega arith) (on_fb1 x y on) (rw (skip_suc col k) across) down)

    outside :
        (x y : ℕ)
        → (x < fb.width) × (y < fb.height)
        → (x < left_of pen col)
          ⊎ ((left_of pen (col + suc n) ≤ x)
              ⊎ ((y < top_of pen row) ⊎ (top_of pen row + pen.scale ≤ y)))
        → pixel x y fb' ≡ pixel x y fb
    outside x y on off =
        let next = next_left pen.fb_x col pen.scale in
        let within = next_within pen.fb_x col n pen.scale in
        rest.outside x y (on_fb1 x y on) (rw (skip_suc col n) (ground (arith, next, off)))
        ∙ (block.pixels x y on.0 on.1 ∙ ground (arith, within, off))

pub draw_columns-Columns :
    (n col row bits : ℕ) (pen : Pen) (fb : Framebuffer)
    → IsScreen fb
    → col + n ≤ 8
    → left_of pen (col + n) ≤ 2 ^ 63
    → top_of pen row + pen.scale ≤ 2 ^ 63
    → (fb' : Framebuffer) × (draw_columns n col row bits pen fb ≡ some fb')
      × Columns n col row bits pen fb fb'
unfolding draw_columns
draw_columns-Columns zero col row bits pen fb s h l t = (
  fb,
  refl,
  record {
    redraws = Redraws-refl fb;
    inside = λ k x y none_left. absurd (omega arith);
    outside = λ x y on off. refl;
  },
)
draw_columns-Columns (suc n) col row bits pen fb s h l t =
    let within = next_within pen.fb_x col n pen.scale in
    let color = pen_color pen bits col in
    let fb1 = draw_block pen.scale 0 pen.scale (left_of pen col) (top_of pen row) color fb in
    let block =
      draw_block-Fills pen.scale 0 pen.scale (left_of pen col) (top_of pen row) color fb s
        (omega (arith, within, l)) (omega (arith, t)) in
    let s1 = IsScreen-Redraws fb fb1 block.redraws s in
    let (fb', e, rest) =
      draw_columns-Columns n (col + 1) row bits pen fb1 s1 (omega arith) (rw (skip_suc col n) l)
        t in
    let drawn : ltb 7 col ≡ false = ground arith in
    (fb', rw drawn e, Columns-suc n col row bits pen fb fb1 fb' block rest)
