-- ===== src/Fonts.antt =====
-- src/fonts.c: the built-in font, as the initialiser writes it and as the array that it makes.
pub mod Glyphs
pub mod Tests
use valern.Prelude.{ℕ, zero, suc, ◌+◌, List, [], ◌∷◌, ◌++◌, replicate, ◌==◌, if◌then◌else◌}

abbrev pub vga_font_height : ℕ
vga_font_height = 16

abbrev pub vga_font_width : ℕ
vga_font_width = 8

-- The initialiser: an index, and the rows of its glyph.
abbrev pub Designators : Type 0
Designators = List (ℕ × List ℕ)

unfoldable pub designators : Designators
designators =
    (
      0x20,
      0x00 ∷ 0x00 ∷ 0x00 ∷ 0x00 ∷ 0x00 ∷ 0x00 ∷ 0x00 ∷ 0x00 ∷ 0x00 ∷ 0x00 ∷ 0x00 ∷ 0x00 ∷ 0x00
          ∷ 0x00 ∷ 0x00 ∷ 0x00 ∷ [],
    )
    ∷ (
      0x21,
      0x00 ∷ 0x00 ∷ 0x18 ∷ 0x18 ∷ 0x18 ∷ 0x18 ∷ 0x18 ∷ 0x18 ∷ 0x18 ∷ 0x00 ∷ 0x18 ∷ 0x18 ∷ 0x00
          ∷ 0x00 ∷ 0x00 ∷ 0x00 ∷ [],
    )
    ∷ (
      0x22,
      0x00 ∷ 0x00 ∷ 0x6C ∷ 0x6C ∷ 0x6C ∷ 0x6C ∷ 0x00 ∷ 0x00 ∷ 0x00 ∷ 0x00 ∷ 0x00 ∷ 0x00 ∷ 0x00
          ∷ 0x00 ∷ 0x00 ∷ 0x00 ∷ [],
    )
    ∷ (
      0x23,
      0x00 ∷ 0x00 ∷ 0x6C ∷ 0x6C ∷ 0xFE ∷ 0x6C ∷ 0x6C ∷ 0x6C ∷ 0xFE ∷ 0x6C ∷ 0x6C ∷ 0x00 ∷ 0x00
          ∷ 0x00 ∷ 0x00 ∷ 0x00 ∷ [],
    )
    ∷ (
      0x24,
      0x18 ∷ 0x18 ∷ 0x7C ∷ 0xC6 ∷ 0xC2 ∷ 0xC0 ∷ 0x7C ∷ 0x06 ∷ 0x86 ∷ 0xC6 ∷ 0x7C ∷ 0x18 ∷ 0x18
          ∷ 0x00 ∷ 0x00 ∷ 0x00 ∷ [],
    )
    ∷ (
      0x25,
      0x00 ∷ 0x00 ∷ 0x00 ∷ 0xC2 ∷ 0xC6 ∷ 0x0C ∷ 0x18 ∷ 0x30 ∷ 0x60 ∷ 0xC6 ∷ 0x86 ∷ 0x00 ∷ 0x00
          ∷ 0x00 ∷ 0x00 ∷ 0x00 ∷ [],
    )
    ∷ (
      0x26,
      0x00 ∷ 0x00 ∷ 0x38 ∷ 0x6C ∷ 0x6C ∷ 0x38 ∷ 0x76 ∷ 0xDC ∷ 0xCC ∷ 0xCC ∷ 0x76 ∷ 0x00 ∷ 0x00
          ∷ 0x00 ∷ 0x00 ∷ 0x00 ∷ [],
    )
    ∷ (
      0x27,
      0x00 ∷ 0x00 ∷ 0x18 ∷ 0x18 ∷ 0x18 ∷ 0x18 ∷ 0x00 ∷ 0x00 ∷ 0x00 ∷ 0x00 ∷ 0x00 ∷ 0x00 ∷ 0x00
          ∷ 0x00 ∷ 0x00 ∷ 0x00 ∷ [],
    )
    ∷ (
      0x28,
      0x00 ∷ 0x00 ∷ 0x0C ∷ 0x18 ∷ 0x30 ∷ 0x30 ∷ 0x30 ∷ 0x30 ∷ 0x30 ∷ 0x18 ∷ 0x0C ∷ 0x00 ∷ 0x00
          ∷ 0x00 ∷ 0x00 ∷ 0x00 ∷ [],
    )
    ∷ (
      0x29,
      0x00 ∷ 0x00 ∷ 0x30 ∷ 0x18 ∷ 0x0C ∷ 0x0C ∷ 0x0C ∷ 0x0C ∷ 0x0C ∷ 0x18 ∷ 0x30 ∷ 0x00 ∷ 0x00
          ∷ 0x00 ∷ 0x00 ∷ 0x00 ∷ [],
    )
    ∷ (
      0x2A,
      0x00 ∷ 0x00 ∷ 0x00 ∷ 0x00 ∷ 0x66 ∷ 0x3C ∷ 0xFF ∷ 0x3C ∷ 0x66 ∷ 0x00 ∷ 0x00 ∷ 0x00 ∷ 0x00
          ∷ 0x00 ∷ 0x00 ∷ 0x00 ∷ [],
    )
    ∷ (
      0x2B,
      0x00 ∷ 0x00 ∷ 0x00 ∷ 0x00 ∷ 0x18 ∷ 0x18 ∷ 0x7E ∷ 0x18 ∷ 0x18 ∷ 0x00 ∷ 0x00 ∷ 0x00 ∷ 0x00
          ∷ 0x00 ∷ 0x00 ∷ 0x00 ∷ [],
    )
    ∷ (
      0x2C,
      0x00 ∷ 0x00 ∷ 0x00 ∷ 0x00 ∷ 0x00 ∷ 0x00 ∷ 0x00 ∷ 0x00 ∷ 0x18 ∷ 0x18 ∷ 0x30 ∷ 0x00 ∷ 0x00
          ∷ 0x00 ∷ 0x00 ∷ 0x00 ∷ [],
    )
    ∷ (
      0x2D,
      0x00 ∷ 0x00 ∷ 0x00 ∷ 0x00 ∷ 0x00 ∷ 0x00 ∷ 0x7E ∷ 0x00 ∷ 0x00 ∷ 0x00 ∷ 0x00 ∷ 0x00 ∷ 0x00
          ∷ 0x00 ∷ 0x00 ∷ 0x00 ∷ [],
    )
    ∷ (
      0x2E,
      0x00 ∷ 0x00 ∷ 0x00 ∷ 0x00 ∷ 0x00 ∷ 0x00 ∷ 0x00 ∷ 0x00 ∷ 0x18 ∷ 0x18 ∷ 0x00 ∷ 0x00 ∷ 0x00
          ∷ 0x00 ∷ 0x00 ∷ 0x00 ∷ [],
    )
    ∷ (
      0x2F,
      0x00 ∷ 0x00 ∷ 0x02 ∷ 0x06 ∷ 0x0C ∷ 0x18 ∷ 0x30 ∷ 0x60 ∷ 0xC0 ∷ 0x80 ∷ 0x00 ∷ 0x00 ∷ 0x00
          ∷ 0x00 ∷ 0x00 ∷ 0x00 ∷ [],
    )
    ∷ (
      0x30,
      0x00 ∷ 0x00 ∷ 0x38 ∷ 0x6C ∷ 0xC6 ∷ 0xC6 ∷ 0xC6 ∷ 0xC6 ∷ 0xC6 ∷ 0x6C ∷ 0x38 ∷ 0x00 ∷ 0x00
          ∷ 0x00 ∷ 0x00 ∷ 0x00 ∷ [],
    )
    ∷ (
      0x31,
      0x00 ∷ 0x00 ∷ 0x18 ∷ 0x38 ∷ 0x78 ∷ 0x18 ∷ 0x18 ∷ 0x18 ∷ 0x18 ∷ 0x18 ∷ 0x7E ∷ 0x00 ∷ 0x00
          ∷ 0x00 ∷ 0x00 ∷ 0x00 ∷ [],
    )
    ∷ (
      0x32,
      0x00 ∷ 0x00 ∷ 0x7C ∷ 0xC6 ∷ 0x06 ∷ 0x0C ∷ 0x18 ∷ 0x30 ∷ 0x60 ∷ 0xC6 ∷ 0xFE ∷ 0x00 ∷ 0x00
          ∷ 0x00 ∷ 0x00 ∷ 0x00 ∷ [],
    )
    ∷ (
      0x33,
      0x00 ∷ 0x00 ∷ 0x7C ∷ 0xC6 ∷ 0x06 ∷ 0x06 ∷ 0x3C ∷ 0x06 ∷ 0x06 ∷ 0xC6 ∷ 0x7C ∷ 0x00 ∷ 0x00
          ∷ 0x00 ∷ 0x00 ∷ 0x00 ∷ [],
    )
    ∷ (
      0x34,
      0x00 ∷ 0x00 ∷ 0x0C ∷ 0x1C ∷ 0x3C ∷ 0x6C ∷ 0xCC ∷ 0xFE ∷ 0x0C ∷ 0x0C ∷ 0x1E ∷ 0x00 ∷ 0x00
          ∷ 0x00 ∷ 0x00 ∷ 0x00 ∷ [],
    )
    ∷ (
      0x35,
      0x00 ∷ 0x00 ∷ 0xFE ∷ 0xC0 ∷ 0xC0 ∷ 0xC0 ∷ 0xFC ∷ 0x06 ∷ 0x06 ∷ 0xC6 ∷ 0x7C ∷ 0x00 ∷ 0x00
          ∷ 0x00 ∷ 0x00 ∷ 0x00 ∷ [],
    )
    ∷ (
      0x36,
      0x00 ∷ 0x00 ∷ 0x38 ∷ 0x60 ∷ 0xC0 ∷ 0xC0 ∷ 0xFC ∷ 0xC6 ∷ 0xC6 ∷ 0xC6 ∷ 0x7C ∷ 0x00 ∷ 0x00
          ∷ 0x00 ∷ 0x00 ∷ 0x00 ∷ [],
    )
    ∷ (
      0x37,
      0x00 ∷ 0x00 ∷ 0xFE ∷ 0xC6 ∷ 0x06 ∷ 0x0C ∷ 0x18 ∷ 0x30 ∷ 0x30 ∷ 0x30 ∷ 0x30 ∷ 0x00 ∷ 0x00
          ∷ 0x00 ∷ 0x00 ∷ 0x00 ∷ [],
    )
    ∷ (
      0x38,
      0x00 ∷ 0x00 ∷ 0x7C ∷ 0xC6 ∷ 0xC6 ∷ 0xC6 ∷ 0x7C ∷ 0xC6 ∷ 0xC6 ∷ 0xC6 ∷ 0x7C ∷ 0x00 ∷ 0x00
          ∷ 0x00 ∷ 0x00 ∷ 0x00 ∷ [],
    )
    ∷ (
      0x39,
      0x00 ∷ 0x00 ∷ 0x7C ∷ 0xC6 ∷ 0xC6 ∷ 0xC6 ∷ 0x7E ∷ 0x06 ∷ 0x06 ∷ 0x0C ∷ 0x78 ∷ 0x00 ∷ 0x00
          ∷ 0x00 ∷ 0x00 ∷ 0x00 ∷ [],
    )
    ∷ (
      0x3A,
      0x00 ∷ 0x00 ∷ 0x00 ∷ 0x00 ∷ 0x18 ∷ 0x18 ∷ 0x00 ∷ 0x00 ∷ 0x18 ∷ 0x18 ∷ 0x00 ∷ 0x00 ∷ 0x00
          ∷ 0x00 ∷ 0x00 ∷ 0x00 ∷ [],
    )
    ∷ (
      0x3B,
      0x00 ∷ 0x00 ∷ 0x00 ∷ 0x00 ∷ 0x18 ∷ 0x18 ∷ 0x00 ∷ 0x00 ∷ 0x18 ∷ 0x18 ∷ 0x30 ∷ 0x00 ∷ 0x00
          ∷ 0x00 ∷ 0x00 ∷ 0x00 ∷ [],
    )
    ∷ (
      0x3C,
      0x00 ∷ 0x00 ∷ 0x06 ∷ 0x0C ∷ 0x18 ∷ 0x30 ∷ 0x60 ∷ 0x30 ∷ 0x18 ∷ 0x0C ∷ 0x06 ∷ 0x00 ∷ 0x00
          ∷ 0x00 ∷ 0x00 ∷ 0x00 ∷ [],
    )
    ∷ (
      0x3D,
      0x00 ∷ 0x00 ∷ 0x00 ∷ 0x00 ∷ 0x00 ∷ 0x7E ∷ 0x00 ∷ 0x7E ∷ 0x00 ∷ 0x00 ∷ 0x00 ∷ 0x00 ∷ 0x00
          ∷ 0x00 ∷ 0x00 ∷ 0x00 ∷ [],
    )
    ∷ (
      0x3E,
      0x00 ∷ 0x00 ∷ 0x60 ∷ 0x30 ∷ 0x18 ∷ 0x0C ∷ 0x06 ∷ 0x0C ∷ 0x18 ∷ 0x30 ∷ 0x60 ∷ 0x00 ∷ 0x00
          ∷ 0x00 ∷ 0x00 ∷ 0x00 ∷ [],
    )
    ∷ (
      0x3F,
      0x00 ∷ 0x00 ∷ 0x7C ∷ 0xC6 ∷ 0xC6 ∷ 0x0C ∷ 0x18 ∷ 0x18 ∷ 0x00 ∷ 0x18 ∷ 0x18 ∷ 0x00 ∷ 0x00
          ∷ 0x00 ∷ 0x00 ∷ 0x00 ∷ [],
    )
    ∷ (
      0x40,
      0x00 ∷ 0x00 ∷ 0x7C ∷ 0xC6 ∷ 0xC6 ∷ 0xDE ∷ 0xDE ∷ 0xDE ∷ 0xDC ∷ 0xC0 ∷ 0x7C ∷ 0x00 ∷ 0x00
          ∷ 0x00 ∷ 0x00 ∷ 0x00 ∷ [],
    )
    ∷ (
      0x41,
      0x00 ∷ 0x00 ∷ 0x38 ∷ 0x6C ∷ 0xC6 ∷ 0xC6 ∷ 0xFE ∷ 0xC6 ∷ 0xC6 ∷ 0xC6 ∷ 0xC6 ∷ 0x00 ∷ 0x00
          ∷ 0x00 ∷ 0x00 ∷ 0x00 ∷ [],
    )
    ∷ (
      0x42,
      0x00 ∷ 0x00 ∷ 0xFC ∷ 0x66 ∷ 0x66 ∷ 0x66 ∷ 0x7C ∷ 0x66 ∷ 0x66 ∷ 0x66 ∷ 0xFC ∷ 0x00 ∷ 0x00
          ∷ 0x00 ∷ 0x00 ∷ 0x00 ∷ [],
    )
    ∷ (
      0x43,
      0x00 ∷ 0x00 ∷ 0x3C ∷ 0x66 ∷ 0xC2 ∷ 0xC0 ∷ 0xC0 ∷ 0xC0 ∷ 0xC2 ∷ 0x66 ∷ 0x3C ∷ 0x00 ∷ 0x00
          ∷ 0x00 ∷ 0x00 ∷ 0x00 ∷ [],
    )
    ∷ (
      0x44,
      0x00 ∷ 0x00 ∷ 0xF8 ∷ 0x6C ∷ 0x66 ∷ 0x66 ∷ 0x66 ∷ 0x66 ∷ 0x66 ∷ 0x6C ∷ 0xF8 ∷ 0x00 ∷ 0x00
          ∷ 0x00 ∷ 0x00 ∷ 0x00 ∷ [],
    )
    ∷ (
      0x45,
      0x00 ∷ 0x00 ∷ 0xFE ∷ 0x66 ∷ 0x62 ∷ 0x68 ∷ 0x78 ∷ 0x68 ∷ 0x62 ∷ 0x66 ∷ 0xFE ∷ 0x00 ∷ 0x00
          ∷ 0x00 ∷ 0x00 ∷ 0x00 ∷ [],
    )
    ∷ (
      0x46,
      0x00 ∷ 0x00 ∷ 0xFE ∷ 0x66 ∷ 0x62 ∷ 0x68 ∷ 0x78 ∷ 0x68 ∷ 0x60 ∷ 0x60 ∷ 0xF0 ∷ 0x00 ∷ 0x00
          ∷ 0x00 ∷ 0x00 ∷ 0x00 ∷ [],
    )
    ∷ (
      0x47,
      0x00 ∷ 0x00 ∷ 0x3C ∷ 0x66 ∷ 0xC2 ∷ 0xC0 ∷ 0xC0 ∷ 0xDE ∷ 0xC6 ∷ 0x66 ∷ 0x3A ∷ 0x00 ∷ 0x00
          ∷ 0x00 ∷ 0x00 ∷ 0x00 ∷ [],
    )
    ∷ (
      0x48,
      0x00 ∷ 0x00 ∷ 0xC6 ∷ 0xC6 ∷ 0xC6 ∷ 0xC6 ∷ 0xFE ∷ 0xC6 ∷ 0xC6 ∷ 0xC6 ∷ 0xC6 ∷ 0x00 ∷ 0x00
          ∷ 0x00 ∷ 0x00 ∷ 0x00 ∷ [],
    )
    ∷ (
      0x49,
      0x00 ∷ 0x00 ∷ 0x3C ∷ 0x18 ∷ 0x18 ∷ 0x18 ∷ 0x18 ∷ 0x18 ∷ 0x18 ∷ 0x18 ∷ 0x3C ∷ 0x00 ∷ 0x00
          ∷ 0x00 ∷ 0x00 ∷ 0x00 ∷ [],
    )
    ∷ (
      0x4A,
      0x00 ∷ 0x00 ∷ 0x1E ∷ 0x0C ∷ 0x0C ∷ 0x0C ∷ 0x0C ∷ 0x0C ∷ 0xCC ∷ 0xCC ∷ 0x78 ∷ 0x00 ∷ 0x00
          ∷ 0x00 ∷ 0x00 ∷ 0x00 ∷ [],
    )
    ∷ (
      0x4B,
      0x00 ∷ 0x00 ∷ 0xE6 ∷ 0x66 ∷ 0x6C ∷ 0x78 ∷ 0x70 ∷ 0x78 ∷ 0x6C ∷ 0x66 ∷ 0xE6 ∷ 0x00 ∷ 0x00
          ∷ 0x00 ∷ 0x00 ∷ 0x00 ∷ [],
    )
    ∷ (
      0x4C,
      0x00 ∷ 0x00 ∷ 0xF0 ∷ 0x60 ∷ 0x60 ∷ 0x60 ∷ 0x60 ∷ 0x62 ∷ 0x66 ∷ 0x66 ∷ 0xFE ∷ 0x00 ∷ 0x00
          ∷ 0x00 ∷ 0x00 ∷ 0x00 ∷ [],
    )
    ∷ (
      0x4D,
      0x00 ∷ 0x00 ∷ 0xC6 ∷ 0xEE ∷ 0xFE ∷ 0xFE ∷ 0xD6 ∷ 0xC6 ∷ 0xC6 ∷ 0xC6 ∷ 0xC6 ∷ 0x00 ∷ 0x00
          ∷ 0x00 ∷ 0x00 ∷ 0x00 ∷ [],
    )
    ∷ (
      0x4E,
      0x00 ∷ 0x00 ∷ 0xC6 ∷ 0xE6 ∷ 0xF6 ∷ 0xFE ∷ 0xDE ∷ 0xCE ∷ 0xC6 ∷ 0xC6 ∷ 0xC6 ∷ 0x00 ∷ 0x00
          ∷ 0x00 ∷ 0x00 ∷ 0x00 ∷ [],
    )
    ∷ (
      0x4F,
      0x00 ∷ 0x00 ∷ 0x38 ∷ 0x6C ∷ 0xC6 ∷ 0xC6 ∷ 0xC6 ∷ 0xC6 ∷ 0xC6 ∷ 0x6C ∷ 0x38 ∷ 0x00 ∷ 0x00
          ∷ 0x00 ∷ 0x00 ∷ 0x00 ∷ [],
    )
    ∷ (
      0x50,
      0x00 ∷ 0x00 ∷ 0xFC ∷ 0x66 ∷ 0x66 ∷ 0x66 ∷ 0x7C ∷ 0x60 ∷ 0x60 ∷ 0x60 ∷ 0xF0 ∷ 0x00 ∷ 0x00
          ∷ 0x00 ∷ 0x00 ∷ 0x00 ∷ [],
    )
    ∷ (
      0x51,
      0x00 ∷ 0x00 ∷ 0x38 ∷ 0x6C ∷ 0xC6 ∷ 0xC6 ∷ 0xC6 ∷ 0xC6 ∷ 0xCE ∷ 0x6C ∷ 0x3E ∷ 0x00 ∷ 0x00
          ∷ 0x00 ∷ 0x00 ∷ 0x00 ∷ [],
    )
    ∷ (
      0x52,
      0x00 ∷ 0x00 ∷ 0xFC ∷ 0x66 ∷ 0x66 ∷ 0x66 ∷ 0x7C ∷ 0x78 ∷ 0x6C ∷ 0x66 ∷ 0xE6 ∷ 0x00 ∷ 0x00
          ∷ 0x00 ∷ 0x00 ∷ 0x00 ∷ [],
    )
    ∷ (
      0x53,
      0x00 ∷ 0x00 ∷ 0x3C ∷ 0x66 ∷ 0x62 ∷ 0x30 ∷ 0x18 ∷ 0x0C ∷ 0x86 ∷ 0xC6 ∷ 0x7C ∷ 0x00 ∷ 0x00
          ∷ 0x00 ∷ 0x00 ∷ 0x00 ∷ [],
    )
    ∷ (
      0x54,
      0x00 ∷ 0x00 ∷ 0x7E ∷ 0x7E ∷ 0x5A ∷ 0x18 ∷ 0x18 ∷ 0x18 ∷ 0x18 ∷ 0x18 ∷ 0x3C ∷ 0x00 ∷ 0x00
          ∷ 0x00 ∷ 0x00 ∷ 0x00 ∷ [],
    )
    ∷ (
      0x55,
      0x00 ∷ 0x00 ∷ 0xC6 ∷ 0xC6 ∷ 0xC6 ∷ 0xC6 ∷ 0xC6 ∷ 0xC6 ∷ 0xC6 ∷ 0x6C ∷ 0x38 ∷ 0x00 ∷ 0x00
          ∷ 0x00 ∷ 0x00 ∷ 0x00 ∷ [],
    )
    ∷ (
      0x56,
      0x00 ∷ 0x00 ∷ 0xC6 ∷ 0xC6 ∷ 0xC6 ∷ 0xC6 ∷ 0xC6 ∷ 0x6C ∷ 0x6C ∷ 0x38 ∷ 0x38 ∷ 0x00 ∷ 0x00
          ∷ 0x00 ∷ 0x00 ∷ 0x00 ∷ [],
    )
    ∷ (
      0x57,
      0x00 ∷ 0x00 ∷ 0xC6 ∷ 0xC6 ∷ 0xC6 ∷ 0xC6 ∷ 0xD6 ∷ 0xFE ∷ 0xFE ∷ 0x6C ∷ 0x6C ∷ 0x00 ∷ 0x00
          ∷ 0x00 ∷ 0x00 ∷ 0x00 ∷ [],
    )
    ∷ (
      0x58,
      0x00 ∷ 0x00 ∷ 0xC6 ∷ 0xC6 ∷ 0x6C ∷ 0x38 ∷ 0x38 ∷ 0x38 ∷ 0x6C ∷ 0xC6 ∷ 0xC6 ∷ 0x00 ∷ 0x00
          ∷ 0x00 ∷ 0x00 ∷ 0x00 ∷ [],
    )
    ∷ (
      0x59,
      0x00 ∷ 0x00 ∷ 0x66 ∷ 0x66 ∷ 0x66 ∷ 0x66 ∷ 0x3C ∷ 0x18 ∷ 0x18 ∷ 0x18 ∷ 0x3C ∷ 0x00 ∷ 0x00
          ∷ 0x00 ∷ 0x00 ∷ 0x00 ∷ [],
    )
    ∷ (
      0x5A,
      0x00 ∷ 0x00 ∷ 0xFE ∷ 0xC6 ∷ 0x8C ∷ 0x18 ∷ 0x30 ∷ 0x60 ∷ 0xC2 ∷ 0xC6 ∷ 0xFE ∷ 0x00 ∷ 0x00
          ∷ 0x00 ∷ 0x00 ∷ 0x00 ∷ [],
    )
    ∷ (
      0x61,
      0x00 ∷ 0x00 ∷ 0x38 ∷ 0x6C ∷ 0xC6 ∷ 0xC6 ∷ 0xFE ∷ 0xC6 ∷ 0xC6 ∷ 0xC6 ∷ 0xC6 ∷ 0x00 ∷ 0x00
          ∷ 0x00 ∷ 0x00 ∷ 0x00 ∷ [],
    )
    ∷ (
      0x62,
      0x00 ∷ 0x00 ∷ 0xFC ∷ 0x66 ∷ 0x66 ∷ 0x66 ∷ 0x7C ∷ 0x66 ∷ 0x66 ∷ 0x66 ∷ 0xFC ∷ 0x00 ∷ 0x00
          ∷ 0x00 ∷ 0x00 ∷ 0x00 ∷ [],
    )
    ∷ (
      0x63,
      0x00 ∷ 0x00 ∷ 0x3C ∷ 0x66 ∷ 0xC2 ∷ 0xC0 ∷ 0xC0 ∷ 0xC0 ∷ 0xC2 ∷ 0x66 ∷ 0x3C ∷ 0x00 ∷ 0x00
          ∷ 0x00 ∷ 0x00 ∷ 0x00 ∷ [],
    )
    ∷ (
      0x64,
      0x00 ∷ 0x00 ∷ 0xF8 ∷ 0x6C ∷ 0x66 ∷ 0x66 ∷ 0x66 ∷ 0x66 ∷ 0x66 ∷ 0x6C ∷ 0xF8 ∷ 0x00 ∷ 0x00
          ∷ 0x00 ∷ 0x00 ∷ 0x00 ∷ [],
    )
    ∷ (
      0x65,
      0x00 ∷ 0x00 ∷ 0xFE ∷ 0x66 ∷ 0x62 ∷ 0x68 ∷ 0x78 ∷ 0x68 ∷ 0x62 ∷ 0x66 ∷ 0xFE ∷ 0x00 ∷ 0x00
          ∷ 0x00 ∷ 0x00 ∷ 0x00 ∷ [],
    )
    ∷ (
      0x66,
      0x00 ∷ 0x00 ∷ 0xFE ∷ 0x66 ∷ 0x62 ∷ 0x68 ∷ 0x78 ∷ 0x68 ∷ 0x60 ∷ 0x60 ∷ 0xF0 ∷ 0x00 ∷ 0x00
          ∷ 0x00 ∷ 0x00 ∷ 0x00 ∷ [],
    )
    ∷ (
      0x67,
      0x00 ∷ 0x00 ∷ 0x3C ∷ 0x66 ∷ 0xC2 ∷ 0xC0 ∷ 0xC0 ∷ 0xDE ∷ 0xC6 ∷ 0x66 ∷ 0x3A ∷ 0x00 ∷ 0x00
          ∷ 0x00 ∷ 0x00 ∷ 0x00 ∷ [],
    )
    ∷ (
      0x68,
      0x00 ∷ 0x00 ∷ 0xC6 ∷ 0xC6 ∷ 0xC6 ∷ 0xC6 ∷ 0xFE ∷ 0xC6 ∷ 0xC6 ∷ 0xC6 ∷ 0xC6 ∷ 0x00 ∷ 0x00
          ∷ 0x00 ∷ 0x00 ∷ 0x00 ∷ [],
    )
    ∷ (
      0x69,
      0x00 ∷ 0x00 ∷ 0x3C ∷ 0x18 ∷ 0x18 ∷ 0x18 ∷ 0x18 ∷ 0x18 ∷ 0x18 ∷ 0x18 ∷ 0x3C ∷ 0x00 ∷ 0x00
          ∷ 0x00 ∷ 0x00 ∷ 0x00 ∷ [],
    )
    ∷ (
      0x6A,
      0x00 ∷ 0x00 ∷ 0x1E ∷ 0x0C ∷ 0x0C ∷ 0x0C ∷ 0x0C ∷ 0x0C ∷ 0xCC ∷ 0xCC ∷ 0x78 ∷ 0x00 ∷ 0x00
          ∷ 0x00 ∷ 0x00 ∷ 0x00 ∷ [],
    )
    ∷ (
      0x6B,
      0x00 ∷ 0x00 ∷ 0xE6 ∷ 0x66 ∷ 0x6C ∷ 0x78 ∷ 0x70 ∷ 0x78 ∷ 0x6C ∷ 0x66 ∷ 0xE6 ∷ 0x00 ∷ 0x00
          ∷ 0x00 ∷ 0x00 ∷ 0x00 ∷ [],
    )
    ∷ (
      0x6C,
      0x00 ∷ 0x00 ∷ 0xF0 ∷ 0x60 ∷ 0x60 ∷ 0x60 ∷ 0x60 ∷ 0x62 ∷ 0x66 ∷ 0x66 ∷ 0xFE ∷ 0x00 ∷ 0x00
          ∷ 0x00 ∷ 0x00 ∷ 0x00 ∷ [],
    )
    ∷ (
      0x6D,
      0x00 ∷ 0x00 ∷ 0xC6 ∷ 0xEE ∷ 0xFE ∷ 0xFE ∷ 0xD6 ∷ 0xC6 ∷ 0xC6 ∷ 0xC6 ∷ 0xC6 ∷ 0x00 ∷ 0x00
          ∷ 0x00 ∷ 0x00 ∷ 0x00 ∷ [],
    )
    ∷ (
      0x6E,
      0x00 ∷ 0x00 ∷ 0xC6 ∷ 0xE6 ∷ 0xF6 ∷ 0xFE ∷ 0xDE ∷ 0xCE ∷ 0xC6 ∷ 0xC6 ∷ 0xC6 ∷ 0x00 ∷ 0x00
          ∷ 0x00 ∷ 0x00 ∷ 0x00 ∷ [],
    )
    ∷ (
      0x6F,
      0x00 ∷ 0x00 ∷ 0x38 ∷ 0x6C ∷ 0xC6 ∷ 0xC6 ∷ 0xC6 ∷ 0xC6 ∷ 0xC6 ∷ 0x6C ∷ 0x38 ∷ 0x00 ∷ 0x00
          ∷ 0x00 ∷ 0x00 ∷ 0x00 ∷ [],
    )
    ∷ (
      0x70,
      0x00 ∷ 0x00 ∷ 0xFC ∷ 0x66 ∷ 0x66 ∷ 0x66 ∷ 0x7C ∷ 0x60 ∷ 0x60 ∷ 0x60 ∷ 0xF0 ∷ 0x00 ∷ 0x00
          ∷ 0x00 ∷ 0x00 ∷ 0x00 ∷ [],
    )
    ∷ (
      0x71,
      0x00 ∷ 0x00 ∷ 0x38 ∷ 0x6C ∷ 0xC6 ∷ 0xC6 ∷ 0xC6 ∷ 0xC6 ∷ 0xCE ∷ 0x6C ∷ 0x3E ∷ 0x00 ∷ 0x00
          ∷ 0x00 ∷ 0x00 ∷ 0x00 ∷ [],
    )
    ∷ (
      0x72,
      0x00 ∷ 0x00 ∷ 0xFC ∷ 0x66 ∷ 0x66 ∷ 0x66 ∷ 0x7C ∷ 0x78 ∷ 0x6C ∷ 0x66 ∷ 0xE6 ∷ 0x00 ∷ 0x00
          ∷ 0x00 ∷ 0x00 ∷ 0x00 ∷ [],
    )
    ∷ (
      0x73,
      0x00 ∷ 0x00 ∷ 0x3C ∷ 0x66 ∷ 0x62 ∷ 0x30 ∷ 0x18 ∷ 0x0C ∷ 0x86 ∷ 0xC6 ∷ 0x7C ∷ 0x00 ∷ 0x00
          ∷ 0x00 ∷ 0x00 ∷ 0x00 ∷ [],
    )
    ∷ (
      0x74,
      0x00 ∷ 0x00 ∷ 0x7E ∷ 0x7E ∷ 0x5A ∷ 0x18 ∷ 0x18 ∷ 0x18 ∷ 0x18 ∷ 0x18 ∷ 0x3C ∷ 0x00 ∷ 0x00
          ∷ 0x00 ∷ 0x00 ∷ 0x00 ∷ [],
    )
    ∷ (
      0x75,
      0x00 ∷ 0x00 ∷ 0xC6 ∷ 0xC6 ∷ 0xC6 ∷ 0xC6 ∷ 0xC6 ∷ 0xC6 ∷ 0xC6 ∷ 0x6C ∷ 0x38 ∷ 0x00 ∷ 0x00
          ∷ 0x00 ∷ 0x00 ∷ 0x00 ∷ [],
    )
    ∷ (
      0x76,
      0x00 ∷ 0x00 ∷ 0xC6 ∷ 0xC6 ∷ 0xC6 ∷ 0xC6 ∷ 0xC6 ∷ 0x6C ∷ 0x6C ∷ 0x38 ∷ 0x38 ∷ 0x00 ∷ 0x00
          ∷ 0x00 ∷ 0x00 ∷ 0x00 ∷ [],
    )
    ∷ (
      0x77,
      0x00 ∷ 0x00 ∷ 0xC6 ∷ 0xC6 ∷ 0xC6 ∷ 0xC6 ∷ 0xD6 ∷ 0xFE ∷ 0xFE ∷ 0x6C ∷ 0x6C ∷ 0x00 ∷ 0x00
          ∷ 0x00 ∷ 0x00 ∷ 0x00 ∷ [],
    )
    ∷ (
      0x78,
      0x00 ∷ 0x00 ∷ 0xC6 ∷ 0xC6 ∷ 0x6C ∷ 0x38 ∷ 0x38 ∷ 0x38 ∷ 0x6C ∷ 0xC6 ∷ 0xC6 ∷ 0x00 ∷ 0x00
          ∷ 0x00 ∷ 0x00 ∷ 0x00 ∷ [],
    )
    ∷ (
      0x79,
      0x00 ∷ 0x00 ∷ 0x66 ∷ 0x66 ∷ 0x66 ∷ 0x66 ∷ 0x3C ∷ 0x18 ∷ 0x18 ∷ 0x18 ∷ 0x3C ∷ 0x00 ∷ 0x00
          ∷ 0x00 ∷ 0x00 ∷ 0x00 ∷ [],
    )
    ∷ (
      0x7A,
      0x00 ∷ 0x00 ∷ 0xFE ∷ 0xC6 ∷ 0x8C ∷ 0x18 ∷ 0x30 ∷ 0x60 ∷ 0xC2 ∷ 0xC6 ∷ 0xFE ∷ 0x00 ∷ 0x00
          ∷ 0x00 ∷ 0x00 ∷ 0x00 ∷ [],
    )
    ∷ (
      0x7F,
      0xFF ∷ 0xFF ∷ 0xFF ∷ 0xFF ∷ 0xFF ∷ 0xFF ∷ 0xFF ∷ 0xFF ∷ 0xFF ∷ 0xFF ∷ 0xFF ∷ 0xFF ∷ 0xFF
          ∷ 0xFF ∷ 0xFF ∷ 0xFF ∷ [],
    )
    ∷ []

-- An element that no designator names is zero.
unfoldable pub rows_of : Designators → ℕ → List ℕ
rows_of [] c = replicate vga_font_height 0
rows_of ((at, rows) ∷ rest) c = if c == at then rows else rows_of rest c

-- The array's memory from element `c` on, with `left` elements to come.
unfoldable pub flatten : Designators → ℕ → ℕ → List ℕ
flatten table zero c = []
flatten table (suc left) c = rows_of table c ++ flatten table left (c + 1)

unfoldable pub vga_font : List ℕ
vga_font = flatten designators 256 0
