-- ===== src/Console/Pixels/Tests.antt =====
-- `draw_char` of src/console.c on the console of the tests, 24 by 2 pixels.
use valern.Prelude.{
  ℕ, ◌≡◌, refl, arith, [], ◌∷◌, some, get_elem?, ◌+◌, ◌*◌, ◌≤◌, ◌<◌, ◌-◌, ◌^◌, ◌==◌, not, bit_and,
  if◌then◌else◌,
}
use valern.Psf.{psf_get_glyph}
use valern.Console.Screen.{Framebuffer, Console, draw_char}
use valern.Console.Text.{put_text}
use valern.Console.Text.Memory.{IsScreen, stride, put_text-confined}
use valern.Console.Tests.{console, console-IsValid, glyphs, screen}
use valern.Console.Pixels.{pixel}
use valern.Console.Pixels.Cell.{IsCell, IsOutside, column_of, row_of, draw_char-paints}

screen-IsScreen : IsScreen screen
screen-IsScreen = record { rows_fit = omega arith; no_wrap = omega arith }

console-IsCell : IsCell 2 1 console
console-IsCell = record {
  screen = screen-IsScreen;
  drawable = console-IsValid.drawable;
  columns_fit = omega arith;
  rows_fit = omega arith;
  width_int = omega arith;
  height_int = omega arith;
}

-- The second glyph in the last cell of the second row.
draw_char-paints_example :
    (fb' : Framebuffer) × (draw_char 1 2 1 5 0 console ≡ some (record console { fb = fb' }))
    × ((r k i j bits : ℕ)
        → r < 1
        → k < 8
        → i < 1
        → j < 1
        → get_elem? (0x18 ∷ []) r ≡ some bits
        → pixel (column_of 2 k i console) (row_of 1 r j console) fb'
          ≡ (if not (bit_and bits (2 ^ (7 - k)) == 0) then 5 else 0))
    × ((px py : ℕ)
        → px < 24
        → py < 2
        → IsOutside 2 1 px py console
        → pixel px py fb' ≡ pixel px py screen)
unfolding psf_get_glyph
draw_char-paints_example =
    draw_char-paints 1 2 1 5 0 console glyphs (0x18 ∷ []) console-IsCell refl refl

put_text-confined_example :
    (con' : Console) × (put_text (1 ∷ 10 ∷ 1 ∷ []) 5 0 console ≡ some con')
    × ((at : ℕ) → 2 * stride screen ≤ at → con'.fb.pixels at ≡ 7)
    × ((x y : ℕ) → 24 ≤ x → x < stride screen → y < 2 → con'.fb.pixels (y * stride screen + x) ≡ 7)
put_text-confined_example =
    put_text-confined (1 ∷ 10 ∷ 1 ∷ []) 5 0 console console-IsValid screen-IsScreen
