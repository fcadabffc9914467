-- ===== src/Console/Pixels/Block.antt =====
-- The innermost loops of `draw_char` in src/console.c fill a square, clipped to the screen.
use valern.Prelude.{
  ℕ, zero, suc, ◌+◌, ◌≤◌, ◌<◌, ◌^◌, ◌%◌, ◌≡◌, refl, arith, ◌&&◌, ◌||◌, leb, ◌==◌, if◌then◌else◌,
  ◌∙◌, Bool-cases, inl, inr, ap₂,
}
use valern.Console.Screen.{Framebuffer, index_of, put_pixel, draw_line, size_mod, draw_block}
use valern.Console.Text.Redraw.{Redraws, Redraws-refl, Redraws-trans, put_pixel-Redraws}
use valern.Console.Text.Memory.{IsScreen, index_of_inj}
use valern.Console.Pixels.{pixel, in_rect}

pub IsScreen-Redraws : (fb fb' : Framebuffer) → Redraws fb fb' → IsScreen fb → IsScreen fb'
IsScreen-Redraws fb fb' k s = record {
  rows_fit = rw (k.width_same, k.pitch_same) s.rows_fit;
  no_wrap = rw (k.height_same, k.pitch_same) s.no_wrap;
}

-- A pixel that is written, and the others.
pub put_pixel_at :
    (x y px py color : ℕ) (fb : Framebuffer)
    → IsScreen fb
    → x < fb.width
    → y < fb.height
    → px < fb.width
    → py < fb.height
    → pixel x y (put_pixel px py color fb)
      ≡ (if (x == px) && (y == py) then color else pixel x y fb)
unfolding put_pixel
put_pixel_at x y px py color fb s h k hp kp =
    elim (Bool-cases (index_of x y fb == index_of px py fb)) [
      | inl same ↦
          let at = index_of_inj x y px py fb s (h, k) (hp, kp) (ground (arith, same)) in
          rw same (ground (arith, at.0, at.1))
      | inr differ ↦ elim (Bool-cases ((x == px) && (y == py))) [
        | inl at ↦
            let e : x ≡ px = ground (arith, at) in
            let f : y ≡ py = ground (arith, at) in
            let same : index_of x y fb ≡ index_of px py fb = ap₂ (λ a b. index_of a b fb) e f in
            absurd (ground (arith, differ, same))
        | inr apart ↦ rw (differ, apart) refl
      ]
    ]

-- A rectangle gets a colour where it lies on the screen, and every other pixel keeps its own.
pub record Fills (x0 xn y0 yn color : ℕ) (fb fb' : Framebuffer) : Type 0 where
  pub redraws : Redraws fb fb'
  pub pixels :
      (x y : ℕ)
      → x < fb.width
      → y < fb.height
      → pixel x y fb' ≡ (if in_rect x0 xn y0 yn x y then color else pixel x y fb)

draw_line-Fills :
    (left scale_x px py color : ℕ) (fb : Framebuffer)
    → IsScreen fb
    → px + scale_x + left ≤ 2 ^ 63
    → Fills (px + scale_x) left py 1 color fb (draw_line left scale_x px py color fb)
unfolding draw_line
draw_line-Fills zero scale_x px py color fb s h = record {
  redraws = Redraws-refl fb;
  pixels = λ x y a b. ground arith;
}
draw_line-Fills (suc left) scale_x px py color fb s h =
    let here : (px + scale_x) % size_mod ≡ px + scale_x = omega arith in
    elim (Bool-cases (leb fb.width (px + scale_x) || leb fb.height py)) [
      | inl outside ↦
          let rest = draw_line-Fills left (scale_x + 1) px py color fb s (omega arith) in
          rw (here, outside)
            (record {
              redraws = rest.redraws;
              pixels = λ x y a b. rest.pixels x y a b ∙ ground arith;
            })
      | inr inside ↦
          let fb1 = put_pixel (px + scale_x) py color fb in
          let one = put_pixel-Redraws (px + scale_x) py color fb (ground arith) (ground arith) in
          let s1 = IsScreen-Redraws fb fb1 one s in
          let rest = draw_line-Fills left (scale_x + 1) px py color fb1 s1 (omega arith) in
          rw (here, inside)
            (record {
              redraws = Redraws-trans one rest.redraws;
              pixels = λ x y a b.
                  let it =
                    put_pixel_at x y (px + scale_x) py color fb s a b (ground arith)
                      (ground arith) in
                  rest.pixels x y (rw one.width_same a) (rw one.height_same b) ∙ ground (arith, it);
            })
    ]

pub draw_block-Fills :
    (left scale_y scale px py color : ℕ) (fb : Framebuffer)
    → IsScreen fb
    → px + scale ≤ 2 ^ 63
    → py + scale_y + left ≤ 2 ^ 63
    → Fills px scale (py + scale_y) left color fb (draw_block left scale_y scale px py color fb)
unfolding draw_block
draw_block-Fills zero scale_y scale px py color fb s h k = record {
  redraws = Redraws-refl fb;
  pixels = λ x y a b. ground arith;
}
draw_block-Fills (suc left) scale_y scale px py color fb s h k =
    let here : (py + scale_y) % size_mod ≡ py + scale_y = omega arith in
    let line = draw_line-Fills scale 0 px (py + scale_y) color fb s (omega arith) in
    let fb1 = draw_line scale 0 px (py + scale_y) color fb in
    let s1 = IsScreen-Redraws fb fb1 line.redraws s in
    let rest = draw_block-Fills left (scale_y + 1) scale px py color fb1 s1 h (omega arith) in
    rw here (record {
      redraws = Redraws-trans line.redraws rest.redraws;
      pixels = λ x y a b.
          let it = line.pixels x y a b in
          rest.pixels x y (rw line.redraws.width_same a) (rw line.redraws.height_same b)
          ∙ ground (arith, it);
    })
