-- ===== src/Console/Setup.antt =====
-- src/console.c: `load_font` and `init_shell`.
pub mod Unready
pub mod Usable
pub mod Loaded
pub mod Fallback
pub mod Init
pub mod Tests
use valern.Prelude.{
  ℕ, ◌*◌, ◌/◌, ◌%◌, ◌^◌, List, [], Option, none, some, length, if◌then◌else◌, ◌==◌, ◌||◌, Bool,
  false, true,
}
use valern.Psf.{loaded, rejected, fault, psf_load_font}
use valern.Console.Screen.{Framebuffer, Console}
use valern.Console.Printf.{printf, literal}

abbrev pub font_scale : ℕ
font_scale = 2

abbrev pub white : ℕ
white = 0xFFFFFF

abbrev pub gray : ℕ
gray = 0xAAAAAA

abbrev pub green : ℕ
green = 0x008000

abbrev pub black : ℕ
black = 0x000000

abbrev pub red : ℕ
red = 0xFF0000

abbrev pub blue : ℕ
blue = 0x0000FF

-- The products are of `unsigned int`, and wrap; a division by 0 is undefined.
unfoldable pub set_dimensions : Console → Option Console
set_dimensions con =
    let w = con.font.width * con.scale % 2 ^ 32 in
    let h = con.font.height * con.scale % 2 ^ 32 in
    if (w == 0) || (h == 0)
    then none
    else some (record con { width = con.fb.width / w; height = con.fb.height / h })

-- `load_font(&console.font, ...)`: the console after it, and whether it returned 0.
unfoldable pub load_font : Option (List ℕ) → ℕ → Console → Option (Bool × Console)
load_font font_data font_size con = elim (psf_load_font (some con.font) font_data font_size) [
  | fault ↦ none
  | rejected ↦ some (false, con)
  | loaded font ↦ elim (set_dimensions (record con { font = font })) [
    | none ↦ none
    | some con' ↦ some (true, con')
  ]
]

-- The built-in font: only the fields that are assigned here change.
abbrev pub use_vga_font : List ℕ → Console → Console
use_vga_font vga_font con =
    let font = con.font in
    record con {
      font = record font {
        width = 8;
        height = 16;
        glyph_buffer = some vga_font;
        glyph_count = 256;
        glyph_size = 16;
        version = 0;
      };
    }

-- The assignments before the font is tried.
abbrev pub reset_console : Framebuffer → Console → Console
reset_console framebuffer con = record con {
  fb = framebuffer;
  cursor_x = 0;
  cursor_y = 0;
  scale = font_scale;
  fg_color = gray;
  bg_color = black;
}

-- `vga_font` and `default_psf` are the tables of fonts.c and of the linked font file. The console is
-- static, so what is not assigned here is what it was.
unfoldable pub init_shell : List ℕ → List ℕ → Framebuffer → Console → Option Console
unfolding load_font set_dimensions
init_shell vga_font default_psf framebuffer con =
    elim (load_font (some default_psf) (length default_psf) (reset_console framebuffer con)) [
      | none ↦ none
      | some (true, con') ↦
          elim (printf (literal "PSF font loaded successfully!\n") blue black [] con') [
            | none ↦ none
            | some con'' ↦ set_dimensions con''
          ]
      | some (false, con') ↦
          elim (printf (literal "PSF font loading failed!\nFalling back to VGA font\n") red black []
            con') [ none ↦ none | some con'' ↦ set_dimensions (use_vga_font vga_font con'') ]
    ]
