-- ===== src/Console/Pixels/Clear.antt =====
-- `console_clear` of src/console.c: every pixel of the screen gets the background colour.
use valern.Prelude.{ℕ, zero, suc, ◌+◌, ◌≤◌, ◌<◌, ◌≡◌, arith, ◌∙◌}
use valern.Console.Screen.{Framebuffer, put_pixel, clear_row, clear_rows}
use valern.Console.Text.Redraw.{Redraws-refl, Redraws-trans, put_pixel-Redraws}
use valern.Console.Text.Memory.{IsScreen}
use valern.Console.Pixels.{pixel}
use valern.Console.Pixels.Block.{Fills, IsScreen-Redraws, put_pixel_at}

clear_row-Fills :
    (left j i color : ℕ) (fb : Framebuffer)
    → IsScreen fb
    → j + left ≤ fb.width
    → i < fb.height
    → Fills j left i 1 color fb (clear_row left j i color fb)
unfolding clear_row
clear_row-Fills zero j i color fb s h l = record {
  redraws = Redraws-refl fb;
  pixels = λ x y a b. ground arith;
}
clear_row-Fills (suc left) j i color fb s h l =
    let fb1 = put_pixel j i color fb in
    let one = put_pixel-Redraws j i color fb (omega arith) l in
    let s1 = IsScreen-Redraws fb fb1 one s in
    let rest =
      clear_row-Fills left (j + 1) i color fb1 s1 (omega (arith, h, one.width_same))
        (rw one.height_same l) in
    record {
      redraws = Redraws-trans one rest.redraws;
      pixels = λ x y a b.
          let it = put_pixel_at x y j i color fb s a b (omega arith) l in
          rest.pixels x y (rw one.width_same a) (rw one.height_same b) ∙ ground (arith, it);
    }

clear_rows_from :
    (left i color : ℕ) (fb : Framebuffer)
    → IsScreen fb
    → i + left ≤ fb.height
    → Fills 0 fb.width i left color fb (clear_rows left i color fb)
unfolding clear_rows
clear_rows_from zero i color fb s h = record {
  redraws = Redraws-refl fb;
  pixels = λ x y a b. ground arith;
}
clear_rows_from (suc left) i color fb s h =
    let fb1 = clear_row fb.width 0 i color fb in
    let row = clear_row-Fills fb.width 0 i color fb s (omega arith) (omega arith) in
    let s1 = IsScreen-Redraws fb fb1 row.redraws s in
    let rest =
      clear_rows_from left (i + 1) color fb1 s1 (omega (arith, h, row.redraws.height_same)) in
    record {
      redraws = Redraws-trans row.redraws rest.redraws;
      pixels = λ x y a b.
          let it = row.pixels x y a b in
          let wide = row.redraws.width_same in
          rest.pixels x y (rw row.redraws.width_same a) (rw row.redraws.height_same b)
          ∙ ground (arith, it, wide);
    }

pub clear_rows-pixel :
    (x y color : ℕ) (fb : Framebuffer)
    → IsScreen fb
    → x < fb.width
    → y < fb.height
    → pixel x y (clear_rows fb.height 0 color fb) ≡ color
clear_rows-pixel x y color fb s a b =
    (clear_rows_from fb.height 0 color fb s (omega arith)).pixels x y a b ∙ ground arith
