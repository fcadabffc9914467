-- ===== src/Console/Terminal/Start.antt =====
-- `init_shell` of src/console.c on a page: what the screen shows before the first message of the kernel.
use native.Mathlib.Nat.{mul-add-mod_self_right, mod-eq_of_lt}
use valern.Prelude.{
  ℕ, ◌+◌, ◌*◌, ◌/◌, ◌%◌, ◌^◌, ◌≤◌, ◌<◌, ◌≡◌, refl, sym, ap, ap₂, ◌∙◌, arith, List, [], ◌∷◌, some,
  length,
}
use valern.Psf.{PsfFont, psf_load_font, LoadResult, loaded, rejected, fault}
use valern.Fonts.{vga_font}
use valern.Console.Screen.{Framebuffer, Console, clear_rows}
use valern.Console.Text.Grid.{SameGrid}
use valern.Console.Text.Redraw.{Redraws, Redraws-trans, Redraws-refl, clear_rows-Redraws}
use valern.Console.Text.Memory.{IsScreen}
use valern.Console.Text.Travel.{row_of}
use valern.Console.Printf.{literal}
use valern.Console.Pixels.{pixel}
use valern.Console.Pixels.Block.{IsScreen-Redraws}
use valern.Console.Pixels.Page.{blank, remains, Fits}
use valern.Console.Pixels.Page.Drawn.{clear_rows-blank}
use valern.Console.Setup.{init_shell, blue, black}
use valern.Console.Setup.Usable.{IsUsable, IsUsable-Redraws, cells, sized, IsSized}
use valern.Console.Setup.Unready.{IsUnready}
use valern.Console.Setup.Loaded.{opened, opened-IsValid, loaded_runs, sized_again, success}
use valern.Console.Setup.Fallback.{fallback, fallen_back, fallen_back-IsValid, rejected_runs}
use valern.Console.Setup.Init.{Chooses, psf_font, vga}
use valern.Console.Terminal.{Page, Output, clears, after_all, after, Shows}
use valern.Console.Terminal.Print.{printf-Draws, page_of-eq}
use valern.Console.Terminal.Facts.{say}
use valern.Console.Pixels.Page.Print.{Displays-of_SameGrid}

-- A glyph for every byte.
pub record HasBytes (font : PsfFont) : Type 0 where
  pub buffer : List ℕ
  pub at_buffer : font.glyph_buffer ≡ some buffer
  pub glyphs : 2 ^ 8 ≤ font.glyph_count

pub fallback-HasBytes : (con : Console) → HasBytes (fallback con)
fallback-HasBytes con = record { buffer = vga_font; at_buffer = refl; glyphs = omega arith }

whole_cells : (pixels size : ℕ) → cells pixels size * size * 2 ≤ pixels
whole_cells pixels size = grind arith

pub IsSized-Fits :
    (con : Console) (font : PsfFont) (fb : Framebuffer)
    → IsUsable font fb
    → IsScreen fb
    → HasBytes font
    → IsSized con font fb
    → Fits con
IsSized-Fits con font fb u s b z = record {
  screen = IsScreen-Redraws fb con.fb z.screen_is s;
  columns_fit =
      rw (z.width_is, z.font_is, z.scale_is, z.screen_is.width_same)
        (whole_cells fb.width font.width);
  rows_fit =
      rw (z.height_is, z.font_is, z.scale_is, z.screen_is.height_same)
        (whole_cells fb.height font.height);
  width_int = omega (arith, z.screen_is.width_same, u.fb_width_int);
  height_int = omega (arith, z.screen_is.height_same, u.fb_height_int);
  buffer = b.buffer;
  at_buffer = ap (λ (f : PsfFont). f.glyph_buffer) z.font_is ∙ b.at_buffer;
  glyphs = rw z.font_is b.glyphs;
}

-- The screen as the bootloader has left it, on the grid of a font at double size.
abbrev pub first_page : PsfFont → Framebuffer → Page
first_page font fb =
    let w = cells fb.width font.width in
    record {
      columns = w;
      rows = cells fb.height font.height;
      ground = black;
      cells = λ q. remains (λ r k i j.
          pixel (q % w * font.width * 2 + k * 2 + i) (q / w * font.height * 2 + r * 2 + j) fb);
      place = 0;
    }

-- What `init_shell` prints: the message on a rejected file is never visible.
abbrev pub greeting : LoadResult → List Output
greeting (loaded font) = say blue "PSF font loaded successfully!\n" ∷ []
greeting rejected = clears ∷ []
greeting fault = []

column_of : (x y w : ℕ) → x < w → (y * w + x) % w ≡ x
column_of x y w h = mul-add-mod_self_right y w x ∙ mod-eq_of_lt h

opened-Shows :
    (font : PsfFont) (fb : Framebuffer) (con : Console)
    → IsUsable font fb
    → IsScreen fb
    → HasBytes font
    → Shows (sized (opened font fb con)) (first_page font fb)
opened-Shows font fb con u s b =
    let w = cells fb.width font.width in
    record {
      fits = IsSized-Fits (sized (opened font fb con)) font fb u s b (record {
        font_is = refl;
        scale_is = refl;
        screen_is = Redraws-refl fb;
        width_is = refl;
        height_is = refl;
      });
      valid = opened-IsValid font fb con u;
      page_is =
          page_of-eq (sized (opened font fb con)) (first_page font fb) refl refl refl (omega arith);
      displays = λ x y a c r k i j h l m n. sym (
          ap₂ (λ p q. pixel (p * font.width * 2 + k * 2 + i) (q * font.height * 2 + r * 2 + j) fb)
            (column_of x y w a) (row_of x y w a));
    }

loaded-Shows :
    (table psf : List ℕ) (fb : Framebuffer) (con : Console) (font : PsfFont)
    → psf_load_font (some con.font) (some psf) (length psf) ≡ loaded font
    → IsUsable font fb
    → IsScreen fb
    → HasBytes font
    → (con' : Console) × (init_shell table psf fb con ≡ some con')
      × Shows con' (after_all (greeting (loaded font)) (first_page font fb))
loaded-Shows table psf fb con font e u s b =
    let (con2, p, d) =
      printf-Draws (literal "PSF font loaded successfully!\n") blue black []
        (sized (opened font fb con)) success (first_page font fb) (opened-Shows font fb con u s b)
        refl in
    (
      con2,
      loaded_runs table psf fb con font con2 e u p d.grid
          ∙ ap some (sized_again font fb con con2 d.grid),
      d.shown,
    )

rejected-Shows :
    (psf : List ℕ) (fb : Framebuffer) (con : Console)
    → IsUnready con
    → psf_load_font (some con.font) (some psf) (length psf) ≡ rejected
    → IsUsable (fallback con) fb
    → IsScreen fb
    → (con' : Console) × (init_shell vga_font psf fb con ≡ some con')
      × Shows con' (after_all (greeting rejected) (first_page (fallback con) fb))
rejected-Shows psf fb con r e u s =
    let (fb', runs, k) = rejected_runs psf fb con r e u in
    let last = clear_rows fb'.height 0 black fb' in
    let cleared = clear_rows-Redraws black fb' in
    let all = Redraws-trans k cleared in
    let before = fallen_back fb' con in
    let after_it = fallen_back last con in
    let font = fallback con in
    let u1 = IsUsable-Redraws font font fb fb' refl k u in
    let u2 = IsUsable-Redraws font font fb last refl all u in
    let b = fallback-HasBytes con in
    let fits : (fb2 : Framebuffer) → Redraws fb fb2 → Fits (fallen_back fb2 con) = λ fb2 g.
      IsSized-Fits (fallen_back fb2 con) font fb u s b (record {
        font_is = refl;
        scale_is = refl;
        screen_is = g;
        width_is = ap (λ n. cells n 8) g.width_same;
        height_is = ap (λ n. cells n 16) g.height_same;
      }) in
    let grid : SameGrid before after_it = record {
      width_same = ap (λ n. cells n 8) cleared.width_same;
      height_same = ap (λ n. cells n 16) cleared.height_same;
      font_same = refl;
      scale_same = refl;
      redrawn_same = cleared;
    } in
    (
      after_it,
      runs,
      record {
        fits = fits last all;
        valid = fallen_back-IsValid last con u2;
        page_is =
            page_of-eq after_it (after clears (first_page font fb))
              (ap (λ n. cells n 8) all.width_same) (ap (λ n. cells n 16) all.height_same) refl
              (omega arith);
        displays =
            Displays-of_SameGrid before after_it last (λ q. blank black) grid refl
              (clear_rows-blank before black (fits fb' k) (fallen_back-IsValid fb' con u1));
      },
    )

chosen-Shows :
    (psf : List ℕ) (fb : Framebuffer) (con : Console) {font : PsfFont} {r : LoadResult}
    → IsUnready con
    → psf_load_font (some con.font) (some psf) (length psf) ≡ r
    → Chooses con r font
    → IsUsable font fb
    → IsScreen fb
    → HasBytes font
    → (con' : Console) × (init_shell vga_font psf fb con ≡ some con')
      × Shows con' (after_all (greeting r) (first_page font fb))
chosen-Shows psf fb con ready e (psf_font font) u s b =
    loaded-Shows vga_font psf fb con font e u s b
chosen-Shows psf fb con ready e vga u s b = rejected-Shows psf fb con ready e u s

-- From the loaded kernel, with a font that can be drawn and has a glyph for every byte, on a screen
-- whose rows fit into its memory, `init_shell` shows on the grid of whole cells the message of success
-- on the pixels that the bootloader has left, or with the built-in font a blank page.
pub init_shell-Shows :
    (psf : List ℕ) (fb : Framebuffer) (con : Console) (font : PsfFont)
    → IsUnready con
    → Chooses con (psf_load_font (some con.font) (some psf) (length psf)) font
    → IsUsable font fb
    → IsScreen fb
    → HasBytes font
    → (con' : Console) × (init_shell vga_font psf fb con ≡ some con')
      × Shows con' (
          after_all
            (greeting (psf_load_font (some con.font) (some psf) (length psf)))
            (first_page font fb))
init_shell-Shows psf fb con font ready choice u s b =
    chosen-Shows psf fb con ready refl choice u s b
