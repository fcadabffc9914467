-- ===== src/Console/Setup/Fallback.antt =====
-- `init_shell` of src/console.c with a font file that is rejected: the built-in font.
use valern.Console.Setup.Usable.{
  IsUsable, cells, one_cell, sized, set_dimensions-sized, IsUsable-Redraws, sized-IsValid,
  sized-IsShowable, IsStarted,
}
use valern.Prelude.{ℕ, ◌^◌, ◌≤◌, ◌<◌, ◌≡◌, refl, arith, some, List, codes, length, [], inl, ◌∙◌, ap}
use valern.Psf.{PsfFont, psf_load_font, rejected}
use valern.Console.Text.Grid.{moved_to, IsValid}
use valern.Console.Screen.{Framebuffer, Console, clear_rows}
use valern.Console.Text.Draw.{IsDrawable-of_HoldsGlyphs}
use valern.Console.Setup.{init_shell, load_font, reset_console, black, use_vga_font, red}
use valern.Console.Printf.{literal}
use valern.Console.Setup.Unready.{IsUnready, put_text-unready}
use valern.Fonts.{vga_font}
use valern.Fonts.Glyphs.{length-vga_font}
use valern.Console.Printf.Render.{printf_lem}
use valern.Console.Text.Redraw.{Redraws, Redraws-trans, clear_rows-Redraws}

abbrev pub fallback : Console → PsfFont
fallback con = (use_vga_font vga_font con).font

pub fallback-IsUsable :
    (con : Console) (fb : Framebuffer)
    → 16 ≤ fb.width
    → 32 ≤ fb.height
    → fb.width < 2 ^ 31
    → fb.height < 2 ^ 31
    → IsUsable (fallback con) fb
fallback-IsUsable con fb w h wi hi = record {
  drawable =
      IsDrawable-of_HoldsGlyphs (fallback con) vga_font 256
        (record {
          at_buffer = refl;
          room = omega (arith, length-vga_font);
          no_wrap = omega arith;
          enough = inl (omega arith);
        })
        (omega arith) (omega arith);
  width_pos = omega arith;
  height_pos = omega arith;
  height_int = omega arith;
  version_int = omega arith;
  count_int = omega arith;
  one_column = w;
  one_row = h;
  fb_width_int = wi;
  fb_height_int = hi;
}

-- The console with the built-in font, its cursor in the corner.
abbrev pub fallen_back : Framebuffer → Console → Console
fallen_back fb con = sized (use_vga_font vga_font (moved_to 0 0 fb (reset_console fb con)))

pub fallen_back-IsValid :
    (fb : Framebuffer) (con : Console) → IsUsable (fallback con) fb → IsValid (fallen_back fb con)
fallen_back-IsValid fb con u =
    sized-IsValid (use_vga_font vga_font (moved_to 0 0 fb (reset_console fb con))) u
      (one_cell fb.width 8 (omega arith) u.one_column)
      (one_cell fb.height 16 (omega arith) u.one_row)

-- The messages on a file that is rejected leave a screen that has just been cleared.
pub rejected_runs :
    (psf : List ℕ) (fb : Framebuffer) (con : Console)
    → IsUnready con
    → psf_load_font (some con.font) (some psf) (length psf) ≡ rejected
    → IsUsable (fallback con) fb
    → (fb' : Framebuffer) × (init_shell vga_font psf fb con
        ≡ some (fallen_back (clear_rows fb'.height 0 black fb') con))
      × Redraws fb fb'
unfolding init_shell load_font
rejected_runs psf fb con r e u =
    let con0 = reset_console fb con in
    let r0 : IsUnready con0 = record {
      no_font = r.no_font;
      no_width = r.no_width;
      no_height = r.no_height;
    } in
    let (fb', p, k) =
      put_text-unready b'P' (codes "SF font loading failed!\nFalling back to VGA font\n") red black
        fb con0 r0 in
    let prints =
      printf_lem (literal "PSF font loading failed!\nFalling back to VGA font\n") red black [] con0
      ∙ p in
    let last = clear_rows fb'.height 0 black fb' in
    let con2 = use_vga_font vga_font (moved_to 0 0 last con0) in
    let u2 =
      IsUsable-Redraws (fallback con) (fallback con) fb last refl
        (Redraws-trans k (clear_rows-Redraws black fb')) u in
    (fb', rw (init_shell, load_font, e, prints, set_dimensions-sized con2 refl u2) refl, k)

pub init_shell-rejected :
    (psf : List ℕ) (fb : Framebuffer) (con : Console)
    → IsUnready con
    → psf_load_font (some con.font) (some psf) (length psf) ≡ rejected
    → IsUsable (fallback con) fb
    → (con' : Console) × (init_shell vga_font psf fb con ≡ some con')
      × IsStarted con' (fallback con) fb
init_shell-rejected psf fb con r e u =
    let (fb', runs, k) = rejected_runs psf fb con r e u in
    let last = clear_rows fb'.height 0 black fb' in
    let redrawn = Redraws-trans k (clear_rows-Redraws black fb') in
    let u2 = IsUsable-Redraws (fallback con) (fallback con) fb last refl redrawn u in
    (
      fallen_back last con,
      runs,
      record {
        valid = fallen_back-IsValid last con u2;
        showable =
            sized-IsShowable (use_vga_font vga_font (moved_to 0 0 last (reset_console last con)))
              refl u2;
        sizes = record {
          font_is = refl;
          scale_is = refl;
          screen_is = redrawn;
          width_is = ap (λ n. cells n 8) redrawn.width_same;
          height_is = ap (λ n. cells n 16) redrawn.height_same;
        };
      },
    )
