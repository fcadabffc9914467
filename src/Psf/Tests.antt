-- ===== src/Psf/Tests.antt =====
-- src/psf.c at concrete inputs.
use valern.Prelude.{
  ℕ, ◌≡◌, ◌≢◌, ◌↔◌, refl, arith, List, [], ◌∷◌, ◌++◌, some, none, ◌<◌, ◌≤◌, ◌*◌, ◌+◌, get_elem?,
  length, ◌⊎◌, bit_and,
}
use valern.Psf.{PsfFont, psf_load_font, psf_get_glyph, psf2_magic, loaded, fault}
use valern.Psf.Load.{Psf2Header, psf2_file, psf_load_font-psf2}
use valern.Psf.Version1.{psf1_file, psf1_font, glyphs_of_mode, psf_load_font-psf1}
use valern.Psf.Glyph.{HasGlyphs, psf_get_glyph_lem}
use valern.Psf.Truncated.{IsTruncated, psf_load_font-fault_iff}

abbrev no_font : PsfFont
no_font = record {
  header = none;
  glyph_buffer = none;
  glyph_count = 0;
  glyph_size = 0;
  width = 0;
  height = 0;
  version = 0;
}

-- Two glyphs of two rows, behind a header with two extra bytes.
abbrev header : Psf2Header
header = record {
  version = 0;
  headersize = 34;
  flags = 0;
  count = 2;
  charsize = 2;
  height = 2;
  width = 8;
}

abbrev glyphs : List ℕ
glyphs = 0x18 ∷ 0x24 ∷ 0x42 ∷ 0x81 ∷ []

abbrev two_glyphs : PsfFont
two_glyphs = record no_font {
  glyph_buffer = some glyphs;
  glyph_count = 2;
  glyph_size = 2;
  width = 8;
  height = 2;
}

psf2_example :
    psf_load_font (some no_font) (some (psf2_file header ((0 ∷ 0 ∷ []) ++ glyphs))) 38
    ≡ loaded (record {
      header = some (psf2_file header ((0 ∷ 0 ∷ []) ++ glyphs));
      glyph_buffer = some glyphs;
      glyph_count = 2;
      glyph_size = 2;
      width = 8;
      height = 2;
      version = 2;
    })
psf2_example = psf_load_font-psf2 no_font header (0 ∷ 0 ∷ []) glyphs 38 (omega arith) (omega arith)

two_glyphs-HasGlyphs : HasGlyphs two_glyphs glyphs
two_glyphs-HasGlyphs = record { at_buffer = refl; room = omega arith; no_wrap = omega arith }

psf_get_glyph_example :
    ((psf_get_glyph (some two_glyphs) 1 ≡ none) ↔ (2 ≤ 1))
    × (1 < 2
        → (glyph : List ℕ) × (row : ℕ) × (psf_get_glyph (some two_glyphs) 1 ≡ some glyph)
          × (get_elem? glyph 1 ≡ some row)
          × (get_elem? glyphs (1 * 2 + 1) ≡ some row))
psf_get_glyph_example = psf_get_glyph_lem two_glyphs glyphs 1 1 two_glyphs-HasGlyphs (omega arith)

-- The header of the file that is linked in: mode 2, 16 rows.
psf1_example :
    (psf_load_font (some no_font) (some (psf1_file 2 16 glyphs)) 5670
      ≡ loaded (psf1_font 2 16 glyphs))
    × (((psf1_font 2 16 glyphs).glyph_count ≡ glyphs_of_mode 2)
        ↔ ((◌≡◌ {A = ℕ} 2 0) ⊎ (bit_and 2 1 ≢ 0)))
psf1_example = psf_load_font-psf1 no_font 2 16 glyphs 5670 (omega arith)

-- Six bytes, of which four are the magic.
abbrev cut_off : List ℕ
cut_off = psf2_magic ++ 0 ∷ 0 ∷ []

fault_example :
    (psf_load_font (some no_font) (some cut_off) (length cut_off) ≡ fault) ↔ IsTruncated cut_off
fault_example = psf_load_font-fault_iff no_font cut_off

cut_off-IsTruncated : IsTruncated cut_off
cut_off-IsTruncated = (0 ∷ 0 ∷ [], refl, omega arith)
