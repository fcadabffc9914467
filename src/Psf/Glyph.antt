-- ===== src/Psf/Glyph.antt =====
-- `psf_get_glyph` of src/psf.c: which bytes are a glyph's rows.
use valern.Prelude.{
  ℕ, ◌+◌, ◌*◌, ◌%◌, ◌^◌, ◌≤◌, ◌<◌, ◌≡◌, ◌↔◌, arith, List, some, none, length, get_elem?,
  get_elem?-drop, get_elem?-lt, leb, false, drop, ◌∙◌,
}
use valern.Psf.{PsfFont, psf_get_glyph}

-- The buffer has room for all glyphs, at addresses that do not wrap.
pub record HasGlyphs (font : PsfFont) (buffer : List ℕ) : Type 0 where
  pub at_buffer : font.glyph_buffer ≡ some buffer
  pub room : font.glyph_count * font.glyph_size ≤ length buffer
  pub no_wrap : font.glyph_count * font.glyph_size ≤ 2 ^ 32

glyph_offset : (c n g r : ℕ) → c < n → r < g → c * g + r < n * g
glyph_offset c n g r h k = grind arith

-- A font with room for its glyphs has a glyph for exactly the numbers below its count, and every row
-- of it below the glyph size is the byte of the buffer that many glyphs and rows on, inside it.
pub psf_get_glyph_lem :
    (font : PsfFont) (buffer : List ℕ) (c r : ℕ)
    → HasGlyphs font buffer
    → r < font.glyph_size
    → ((psf_get_glyph (some font) c ≡ none) ↔ (font.glyph_count ≤ c))
      × (c < font.glyph_count
          → (glyph : List ℕ) × (row : ℕ) × (psf_get_glyph (some font) c ≡ some glyph)
            × (get_elem? glyph r ≡ some row)
            × (get_elem? buffer (c * font.glyph_size + r) ≡ some row))
unfolding psf_get_glyph
psf_get_glyph_lem font buffer c r v h = (
  (λ e. ground (arith, v.at_buffer), λ e. ground (arith, v.at_buffer)),
  λ inside.
      let at = glyph_offset c font.glyph_count font.glyph_size r inside h in
      let (row, e) = get_elem?-lt buffer (c * font.glyph_size + r) (omega (arith, v.room)) in
      let offset : c * font.glyph_size % 2 ^ 32 ≡ c * font.glyph_size = omega (arith, v.no_wrap) in
      let found : leb font.glyph_count c ≡ false = ground arith in
      (
        drop (c * font.glyph_size) buffer,
        row,
        rw (v.at_buffer, found, offset),
        get_elem?-drop (c * font.glyph_size) buffer r ∙ e,
        e,
      ),
)
