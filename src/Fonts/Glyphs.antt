-- ===== src/Fonts/Glyphs.antt =====
-- The glyphs of src/fonts.c as `psf_get_glyph` of src/psf.c finds them.
use valern.Prelude.{
  false, not, ℕ, zero, suc, ◌+◌, ◌*◌, ◌<◌, ◌≡◌, refl, arith, List, [], ◌∷◌, ◌++◌, some, true, Bool,
  ◌==◌, ◌&&◌, ◌||◌, drop, length, ap, ◌∙◌, passes_below, leb, length-append, ◌-◌, ltb, drop-append,
  passes_below-apply, ap₂, ◌%◌, ◌^◌,
}
use valern.Psf.{PsfFont, psf_get_glyph}
use valern.Fonts.{Designators, designators, rows_of, flatten, vga_font}

-- The font that `init_shell` makes of the table.
pub record IsVga (font : PsfFont) : Type 0 where
  pub at_buffer : font.glyph_buffer ≡ some vga_font
  pub count : font.glyph_count ≡ 256
  pub size : font.glyph_size ≡ 16
  pub width8 : font.width ≡ 8
  pub height16 : font.height ≡ 16

-- Every designated glyph has its sixteen rows.
abbrev is_whole : Designators → Bool
is_whole [] = true
is_whole ((at, rows) ∷ rest) = (length rows == 16) && is_whole rest

length-rows_of :
    (table : Designators) (c : ℕ) → is_whole table ≡ true → length (rows_of table c) ≡ 16
unfolding rows_of
length-rows_of [] c h = refl
length-rows_of ((at, rows) ∷ rest) c h = ground (arith, h, length-rows_of rest c)

designators-is_whole : is_whole designators ≡ true
unfolding designators
designators-is_whole = refl

length-flatten :
    (table : Designators) (left c : ℕ)
    → is_whole table ≡ true
    → length (flatten table left c) ≡ left * 16
unfolding flatten
length-flatten table zero c h = refl
length-flatten table (suc left) c h =
    length-append (rows_of table c) (flatten table left (c + 1))
    ∙ omega (arith, length-rows_of table c h, length-flatten table left (c + 1) h)

-- Behind `c` whole glyphs comes the next one.
drop-flatten :
    (table : Designators) (c left i : ℕ)
    → is_whole table ≡ true
    → c < left
    → drop (c * 16) (flatten table left i)
      ≡ rows_of table (i + c) ++ flatten table (left - c - 1) (i + c + 1)
unfolding flatten
drop-flatten table c zero i h l = absurd (omega arith)
drop-flatten table zero (suc left) i h l =
    let here : i + 0 ≡ i = omega arith in
    let all : suc left - 0 - 1 ≡ left = omega arith in rw (here, all) refl
drop-flatten table (suc c) (suc left) i h l =
    let glyph = rows_of table i in
    let e : suc c * 16 ≡ c * 16 + length glyph = omega (arith, length-rows_of table i h) in
    let at : i + 1 + c ≡ i + suc c = omega arith in
    let behind : left - c - 1 ≡ suc left - suc c - 1 = omega arith in
    ap (λ k. drop k (glyph ++ flatten table left (i + 1))) e
    ∙ drop-append glyph (flatten table left (i + 1)) (c * 16)
    ∙ drop-flatten table c left (i + 1) h (omega arith)
    ∙ ap₂ (λ k m. rows_of table k ++ flatten table m (k + 1)) at behind

-- The printable characters that the table leaves out.
abbrev pub is_left_out : ℕ → Bool
is_left_out c = (leb b'[' c && leb c b'`') || (leb b'{' c && leb c b'~')

abbrev pub is_blank : List ℕ → Bool
is_blank [] = true
is_blank (row ∷ rows) = (row == 0) && is_blank rows

abbrev pub are_bytes : List ℕ → Bool
are_bytes [] = true
are_bytes (row ∷ rows) = ltb row 256 && are_bytes rows

bytes_table : passes_below (λ c. are_bytes (rows_of designators c)) 256 ≡ true
unfolding passes_below rows_of designators
bytes_table = refl

same_bool : Bool → Bool → Bool
same_bool true b = b
same_bool false b = not b

same_bool_lem : (t a b : Bool) → t ≡ true → (not t || same_bool a b) ≡ true → a ≡ b
unfolding same_bool
same_bool_lem t true true e h = refl
same_bool_lem t true false e h = ground (arith, e, h)
same_bool_lem t false true e h = ground (arith, e, h)
same_bool_lem t false false e h = refl

blank_table :
    passes_below
      (λ c.
        not (ltb 32 c && ltb c 128) || same_bool (is_blank (rows_of designators c)) (is_left_out c))
      256
    ≡ true
unfolding passes_below rows_of designators same_bool
blank_table = refl

-- Every byte has a glyph of the built-in font, whose sixteen rows are the bytes that the table gives
-- the character; of the characters from 33 to 127 exactly the ten that the table leaves
-- out are blank: the brackets, the braces, the backslash, the bar, and ^ _ ` ~.
pub vga_glyph_lem :
    (font : PsfFont) (c : ℕ)
    → IsVga font
    → c < 256
    → (behind : List ℕ) × (psf_get_glyph (some font) c ≡ some (rows_of designators c ++ behind))
      × (length (rows_of designators c) ≡ 16)
      × (are_bytes (rows_of designators c) ≡ true)
      × (32 < c → c < 128 → is_blank (rows_of designators c) ≡ is_left_out c)
unfolding psf_get_glyph vga_font
vga_glyph_lem font c v h =
    let at = drop-flatten designators c 256 0 designators-is_whole h in
    let start : 0 + c ≡ c = omega arith in
    let offset : c * font.glyph_size % 2 ^ 32 ≡ c * 16 = rw v.size (omega arith) in
    let counted : leb font.glyph_count c ≡ false = ground (arith, v.count) in
    (
      flatten designators (256 - c - 1) (0 + c + 1),
      rw (v.at_buffer, counted, offset, at, start) refl,
      length-rows_of designators c designators-is_whole,
      passes_below-apply 256 c _ h bytes_table,
      λ a b.
          same_bool_lem (ltb 32 c && ltb c 128) _ _ (ground arith)
            (passes_below-apply 256 c _ h blank_table),
    )

pub length-vga_font : length vga_font ≡ 256 * 16
unfolding vga_font
length-vga_font = length-flatten designators 256 0 designators-is_whole
