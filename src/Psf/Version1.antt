-- ===== src/Psf/Version1.antt =====
-- `psf_load_font` of src/psf.c on files of version 1.
use valern.Prelude.{
  ℕ, ◌≤◌, ◌≡◌, ◌≢◌, ◌↔◌, ◌⊎◌, refl, arith, List, ◌∷◌, some, if◌then◌else◌, ◌==◌, bit_and, ltb,
  false,
}
use valern.Psf.{PsfFont, psf_load_font, loaded, psf1_magic0, psf1_magic1, load_psf1}

abbrev pub psf1_file : ℕ → ℕ → List ℕ → List ℕ
psf1_file mode charsize glyphs = psf1_magic0 ∷ psf1_magic1 ∷ mode ∷ charsize ∷ glyphs

-- The number of glyphs by the format: the lowest bit of the mode tells 512 from 256, the others tell
-- of a Unicode table.
abbrev pub glyphs_of_mode : ℕ → ℕ
glyphs_of_mode mode = if bit_and mode 1 == 0 then 256 else 512

abbrev pub psf1_font : ℕ → ℕ → List ℕ → PsfFont
psf1_font mode charsize glyphs = record {
  header = some (psf1_file mode charsize glyphs);
  glyph_buffer = some glyphs;
  glyph_count = if mode == 0 then 256 else 512;
  glyph_size = charsize;
  width = 8;
  height = charsize;
  version = 1;
}

-- A version 1 file is loaded as 8 pixels wide and as high as its header states, with its glyphs right
-- behind the four bytes of the header; its glyphs are counted as the format says exactly if the mode
-- is 0 or has its lowest bit set.
pub psf_load_font-psf1 :
    (font : PsfFont) (mode charsize : ℕ) (glyphs : List ℕ) (size : ℕ)
    → 4 ≤ size
    → (psf_load_font (some font) (some (psf1_file mode charsize glyphs)) size
        ≡ loaded (psf1_font mode charsize glyphs))
      × (((psf1_font mode charsize glyphs).glyph_count ≡ glyphs_of_mode mode)
          ↔ ((mode ≡ 0) ⊎ (bit_and mode 1 ≢ 0)))
unfolding psf_load_font load_psf1
psf_load_font-psf1 font mode charsize glyphs size h =
    let big : ltb size 4 ≡ false = ground arith in
    (rw big refl, (λ e. ground (arith, e), λ e. ground (arith, e)))
