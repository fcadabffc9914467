-- ===== src/Console/Text/Redraw.antt =====
-- Drawing in src/console.c changes pixels of the screen, and neither the framebuffer's dimensions nor
-- any other part of its memory.
use valern.Prelude.{
  ℕ, zero, suc, ◌+◌, ◌%◌, ◌≡◌, refl, ◌∙◌, if◌then◌else◌, leb, ◌||◌, ◌<◌, ap, Bool-cases, ◌≤◌, arith,
  ◌≢◌, ◌*◌, inl, ◌/◌, inr,
}
use valern.Console.Screen.{
  Framebuffer, size_mod, put_pixel, clear_row, clear_rows, draw_line, draw_block, index_of,
}

-- An element of the memory that is no pixel of the screen: past its end, or between its rows.
abbrev pub IsOff : Framebuffer → ℕ → Type 0
IsOff fb at = (x y : ℕ) → x < fb.width → y < fb.height → at ≢ index_of x y fb

pub record Redraws (fb fb' : Framebuffer) : Type 0 where
  pub width_same : fb'.width ≡ fb.width
  pub height_same : fb'.height ≡ fb.height
  pub pitch_same : fb'.pitch ≡ fb.pitch
  pub confined : (at : ℕ) → IsOff fb at → fb'.pixels at ≡ fb.pixels at

pub Redraws-refl : (fb : Framebuffer) → Redraws fb fb
Redraws-refl fb = record {
  width_same = refl;
  height_same = refl;
  pitch_same = refl;
  confined = λ at off. refl;
}

IsOff-Redraws : (fb fb' : Framebuffer) → Redraws fb fb' → (at : ℕ) → IsOff fb at → IsOff fb' at
IsOff-Redraws fb fb' k at off x y h l e =
    off x y (rw (← k.width_same) h) (rw (← k.height_same) l)
      (e ∙ ap (λ p. (y * (p / 4) + x) % size_mod) k.pitch_same)

pub Redraws-trans : {a b c : Framebuffer} → Redraws a b → Redraws b c → Redraws a c
Redraws-trans {a} {b} g h = record {
  width_same = h.width_same ∙ g.width_same;
  height_same = h.height_same ∙ g.height_same;
  pitch_same = h.pitch_same ∙ g.pitch_same;
  confined = λ at off. h.confined at (IsOff-Redraws a b g at off) ∙ g.confined at off;
}

pub put_pixel-Redraws :
    (x y color : ℕ) (fb : Framebuffer)
    → x < fb.width
    → y < fb.height
    → Redraws fb (put_pixel x y color fb)
unfolding put_pixel
put_pixel-Redraws x y color fb h l = record {
  width_same = refl;
  height_same = refl;
  pitch_same = refl;
  confined = λ at off. ground (arith, off x y h l);
}

clipped :
    (x y color : ℕ) (fb : Framebuffer)
    → Redraws fb (if leb fb.width x || leb fb.height y then fb else put_pixel x y color fb)
clipped x y color fb = elim (Bool-cases (leb fb.width x || leb fb.height y)) [
  | inl outside ↦ rw outside (Redraws-refl fb)
  | inr inside ↦ rw inside (put_pixel-Redraws x y color fb (ground arith) (ground arith))
]

clear_row-Redraws :
    (left j i color : ℕ) (fb : Framebuffer)
    → j + left ≤ fb.width
    → i < fb.height
    → Redraws fb (clear_row left j i color fb)
unfolding clear_row put_pixel
clear_row-Redraws zero j i color fb h l = Redraws-refl fb
clear_row-Redraws (suc left) j i color fb h l =
    Redraws-trans (put_pixel-Redraws j i color fb (omega arith) l)
      (clear_row-Redraws left (j + 1) i color (put_pixel j i color fb) (omega arith) l)

clear_rows_from :
    (left i color : ℕ) (fb : Framebuffer)
    → i + left ≤ fb.height
    → Redraws fb (clear_rows left i color fb)
unfolding clear_rows
clear_rows_from zero i color fb h = Redraws-refl fb
clear_rows_from (suc left) i color fb h =
    let row = clear_row-Redraws fb.width 0 i color fb (omega arith) (omega arith) in
    Redraws-trans row (
      clear_rows_from left (i + 1) color (clear_row fb.width 0 i color fb)
        (omega (arith, row.height_same)))

pub clear_rows-Redraws :
    (color : ℕ) (fb : Framebuffer) → Redraws fb (clear_rows fb.height 0 color fb)
clear_rows-Redraws color fb = clear_rows_from fb.height 0 color fb (omega arith)

draw_line-Redraws :
    (left scale_x px py color : ℕ) (fb : Framebuffer)
    → Redraws fb (draw_line left scale_x px py color fb)
unfolding draw_line
draw_line-Redraws zero scale_x px py color fb = Redraws-refl fb
draw_line-Redraws (suc left) scale_x px py color fb =
    let pixel_x = (px + scale_x) % size_mod in
    Redraws-trans (clipped pixel_x py color fb) (
      draw_line-Redraws left (scale_x + 1) px py color
        (if leb fb.width pixel_x || leb fb.height py then fb else put_pixel pixel_x py color fb))

pub draw_block-Redraws :
    (left scale_y scale px py color : ℕ) (fb : Framebuffer)
    → Redraws fb (draw_block left scale_y scale px py color fb)
unfolding draw_block
draw_block-Redraws zero scale_y scale px py color fb = Redraws-refl fb
draw_block-Redraws (suc left) scale_y scale px py color fb =
    let drawn = draw_line scale 0 px ((py + scale_y) % size_mod) color fb in
    Redraws-trans (draw_line-Redraws scale 0 px ((py + scale_y) % size_mod) color fb)
      (draw_block-Redraws left (scale_y + 1) scale px py color drawn)
