-- ===== src/Psf.antt =====
-- src/psf.c and src/include/psf.h, the bitmap fonts. A pointer into a font file is the list of the
-- bytes from it to the file's end, and the null pointer is `none`.
pub mod Load
pub mod Version1
pub mod Glyph
pub mod Truncated
mod Tests
use valern.Prelude.{
  ℕ, zero, suc, ◌+◌, ◌*◌, ◌%◌, ◌^◌, Bool, true, false, ◌&&◌, List, [], ◌∷◌, Option, none, some, ltb,
  leb, ◌==◌, if◌then◌else◌, get_elem?, get_or, drop,
}

abbrev pub psf1_magic0 : ℕ
psf1_magic0 = 0x36

abbrev pub psf1_magic1 : ℕ
psf1_magic1 = 0x04

abbrev pub psf2_magic0 : ℕ
psf2_magic0 = 0x72

abbrev pub psf2_magic1 : ℕ
psf2_magic1 = 0xb5

abbrev pub psf2_magic2 : ℕ
psf2_magic2 = 0x4a

abbrev pub psf2_magic3 : ℕ
psf2_magic3 = 0x86

abbrev pub psf1_header_size : ℕ
psf1_header_size = 4

pub record PsfFont : Type 0 where
  pub header : Option (List ℕ)
  pub glyph_buffer : Option (List ℕ)
  pub glyph_count : ℕ
  pub glyph_size : ℕ
  pub width : ℕ
  pub height : ℕ
  pub version : ℕ

-- The outcome of a load: the result -1 with the font untouched, the result 0 with the font filled in,
-- or a read past the end of the file, which C leaves undefined.
pub data LoadResult : Type 0 where
  rejected : LoadResult
  loaded : PsfFont → LoadResult
  fault : LoadResult

infixl 5 ◌>>=◌
abbrev pub ◌>>=◌ : Option ℕ → (ℕ → LoadResult) → LoadResult
none >>= use_it = fault
some v >>= use_it = use_it v

-- `bytes[i] == magic && ...`: the next byte is read only if this one agrees.
abbrev pub magic_at : List ℕ → List ℕ → ℕ → Option Bool
magic_at bytes [] i = some true
magic_at bytes (magic ∷ rest) i = elim (get_elem? bytes i) [
  | none ↦ none
  | some b ↦ if b == magic then magic_at bytes rest (i + 1) else some false
]

abbrev pub word : Option ℕ → Option ℕ → Option ℕ → Option ℕ → Option ℕ
word (some b0) (some b1) (some b2) (some b3) = some (b0 + b1 * 2 ^ 8 + b2 * 2 ^ 16 + b3 * 2 ^ 24)
word _ _ _ _ = none

-- A `uint32_t` member of the header, in the machine's byte order.
unfoldable pub read_u32 : List ℕ → ℕ → Option ℕ
read_u32 bytes at =
    word (get_elem? bytes at) (get_elem? bytes (at + 1)) (get_elem? bytes (at + 2))
      (get_elem? bytes (at + 3))

abbrev pub psf1_magic : List ℕ
psf1_magic = psf1_magic0 ∷ psf1_magic1 ∷ []

abbrev pub psf2_magic : List ℕ
psf2_magic = psf2_magic0 ∷ psf2_magic1 ∷ psf2_magic2 ∷ psf2_magic3 ∷ []

unfoldable pub load_psf1 : List ℕ → LoadResult
load_psf1 bytes = do
  mode ← get_elem? bytes 2
  charsize ← get_elem? bytes 3
  loaded (record {
    version = 1;
    width = 8;
    height = charsize;
    glyph_size = charsize;
    glyph_count = if mode == 0 then 256 else 512;
    header = some bytes;
    glyph_buffer = some (drop psf1_header_size bytes);
  })

unfoldable pub load_psf2 : List ℕ → LoadResult
unfolding read_u32
load_psf2 bytes = do
  w ← read_u32 bytes 28
  h ← read_u32 bytes 24
  charsize ← read_u32 bytes 20
  count ← read_u32 bytes 16
  headersize ← read_u32 bytes 8
  loaded (record {
    version = 2;
    width = w;
    height = h;
    glyph_size = charsize;
    glyph_count = count;
    header = some bytes;
    glyph_buffer = some (drop headersize bytes);
  })

abbrev pub choose : Option Bool → LoadResult → LoadResult → LoadResult
choose none this other = fault
choose (some true) this other = this
choose (some false) this other = other

-- The two magic numbers, then -1. The caller's `font` and `data` may be null.
unfoldable pub psf_load_font : Option PsfFont → Option (List ℕ) → ℕ → LoadResult
unfolding load_psf1 load_psf2
psf_load_font none bytes size = rejected
psf_load_font (some font) none size = rejected
psf_load_font (some font) (some bytes) size =
    if ltb size 4
    then rejected
    else choose (magic_at bytes psf1_magic 0) (load_psf1 bytes)
        (choose (magic_at bytes psf2_magic 0) (load_psf2 bytes) rejected)

unfoldable pub psf_unload_font : Option PsfFont → Option PsfFont
psf_unload_font none = none
psf_unload_font (some font) = some (record {
  header = none;
  glyph_buffer = none;
  glyph_count = 0;
  glyph_size = 0;
  width = 0;
  height = 0;
  version = 0;
})

-- The pointer to a glyph, or null. The product is of `unsigned int`, and wraps.
unfoldable pub psf_get_glyph : Option PsfFont → ℕ → Option (List ℕ)
psf_get_glyph none c = none
psf_get_glyph (some font) c = elim font.glyph_buffer [
  | none ↦ none
  | some buffer ↦
      if leb font.glyph_count c then none else some (drop (c * font.glyph_size % 2 ^ 32) buffer)
]
