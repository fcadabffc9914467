-- ===== src/Console/Setup/Init.antt =====
-- `init_shell` of src/console.c: from the loaded kernel to a console that can be used.
use valern.Console.Setup.Usable.{IsUsable, IsStarted}
use valern.Prelude.{ℕ, ◌≡◌, refl, some, List, length}
use valern.Psf.{PsfFont, psf_load_font, loaded, LoadResult, rejected}
use valern.Console.Screen.{Framebuffer, Console}
use valern.Console.Setup.{init_shell}
use valern.Console.Setup.Unready.{IsUnready}
use valern.Fonts.{vga_font}
use valern.Console.Setup.Loaded.{init_shell-loaded}
use valern.Console.Setup.Fallback.{fallback, init_shell-rejected}

-- The font that is in use after `psf_load_font` has tried the file: the file's, or the built-in one.
pub data Chooses (con : Console) : LoadResult → PsfFont → Type 0 where
  psf_font : (font : PsfFont) → Chooses con (loaded font) font
  vga : Chooses con rejected (fallback con)

chosen :
    (psf : List ℕ) (fb : Framebuffer) (con : Console) {font : PsfFont} {r : LoadResult}
    → IsUnready con
    → psf_load_font (some con.font) (some psf) (length psf) ≡ r
    → Chooses con r font
    → IsUsable font fb
    → (con' : Console) × (init_shell vga_font psf fb con ≡ some con') × IsStarted con' font fb
chosen psf fb con ready e (psf_font font) u = init_shell-loaded vga_font psf fb con font e u
chosen psf fb con ready e vga u = init_shell-rejected psf fb con ready e u

-- From the loaded kernel `init_shell` has a defined result if the font that it chooses, the file's or,
-- for a file that is rejected, the built-in one, can be drawn and has room on the screen: a valid
-- console with that font at double size, on the grid of the whole cells of the screen, and with every
-- number that `info` shows in the range of `int`.
pub init_shell_lem :
    (psf : List ℕ) (fb : Framebuffer) (con : Console) (font : PsfFont)
    → IsUnready con
    → Chooses con (psf_load_font (some con.font) (some psf) (length psf)) font
    → IsUsable font fb
    → (con' : Console) × (init_shell vga_font psf fb con ≡ some con') × IsStarted con' font fb
init_shell_lem psf fb con font ready choice u = chosen psf fb con ready refl choice u
