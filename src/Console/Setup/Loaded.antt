-- ===== src/Console/Setup/Loaded.antt =====
-- `init_shell` of src/console.c with a font file that is loaded.
use valern.Console.Setup.Usable.{
  IsUsable, cells, one_cell, sized, set_dimensions-sized, IsUsable-Redraws, sized-IsValid,
  sized-IsShowable, IsStarted,
}
use valern.Prelude.{ℕ, ◌≡◌, refl, some, List, codes, length, [], ◌∙◌, ap, subst}
use valern.Psf.{PsfFont, psf_load_font, loaded}
use valern.Console.Text.Grid.{SameGrid, IsValid}
use valern.Console.Screen.{Framebuffer, Console}
use valern.Console.Setup.{init_shell, load_font, reset_console, blue, black}
use valern.Console.Printf.Output.{printf-prints}
use valern.Console.Printf.{literal, printf}
use valern.Console.Command.Lines.{IsShowable}

-- The console with the file's font, before it has a grid.
abbrev pub opened : PsfFont → Framebuffer → Console → Console
opened font fb con = record (reset_console fb con) { font = font }

pub opened-IsValid :
    (font : PsfFont) (fb : Framebuffer) (con : Console)
    → IsUsable font fb
    → IsValid (sized (opened font fb con))
opened-IsValid font fb con u =
    sized-IsValid (opened font fb con) u (one_cell fb.width font.width u.width_pos u.one_column)
      (one_cell fb.height font.height u.height_pos u.one_row)

-- The messages of `init_shell`.
abbrev pub success : List ℕ
success = codes "PSF font loaded successfully!\n"

pub loaded_runs :
    (table psf : List ℕ) (fb : Framebuffer) (con : Console) (font : PsfFont) (con2 : Console)
    → psf_load_font (some con.font) (some psf) (length psf) ≡ loaded font
    → IsUsable font fb
    → printf (literal "PSF font loaded successfully!\n") blue black [] (sized (opened font fb con))
      ≡ some con2
    → SameGrid (sized (opened font fb con)) con2
    → init_shell table psf fb con ≡ some (sized con2)
unfolding init_shell load_font
loaded_runs table psf fb con font con2 e u p g =
    let u2 = IsUsable-Redraws font con2.font fb con2.fb g.font_same g.redrawn_same u in
    rw
      (
        init_shell,
        load_font,
        e,
        set_dimensions-sized (opened font fb con) refl u,
        p,
        set_dimensions-sized con2 g.scale_same u2,
      )
      refl

-- The grid of the second reckoning is that of the first.
pub sized_again :
    (font : PsfFont) (fb : Framebuffer) (con con2 : Console)
    → SameGrid (sized (opened font fb con)) con2
    → sized con2 ≡ con2
sized_again font fb con con2 g =
    let columns : cells con2.fb.width con2.font.width ≡ con2.width =
      rw (g.font_same, g.redrawn_same.width_same, g.width_same) refl in
    let rows : cells con2.fb.height con2.font.height ≡ con2.height =
      rw (g.font_same, g.redrawn_same.height_same, g.height_same) refl in
    λ i. record con2 { width = columns i; height = rows i }

pub init_shell-loaded :
    (table psf : List ℕ) (fb : Framebuffer) (con : Console) (font : PsfFont)
    → psf_load_font (some con.font) (some psf) (length psf) ≡ loaded font
    → IsUsable font fb
    → (con' : Console) × (init_shell table psf fb con ≡ some con') × IsStarted con' font fb
init_shell-loaded table psf fb con font e u =
    let (con2, p, v2, g, _) =
      printf-prints (literal "PSF font loaded successfully!\n") blue black []
        (sized (opened font fb con)) success (opened-IsValid font fb con u) refl in
    let u2 = IsUsable-Redraws font con2.font fb con2.fb g.font_same g.redrawn_same u in
    let again = sized_again font fb con con2 g in
    (
      con2,
      loaded_runs table psf fb con font con2 e u p g ∙ ap some again,
      record {
        valid = v2;
        showable = subst IsShowable again (sized-IsShowable con2 g.scale_same u2);
        sizes = record {
          font_is = g.font_same;
          scale_is = g.scale_same;
          screen_is = g.redrawn_same;
          width_is = g.width_same;
          height_is = g.height_same;
        };
      },
    )
