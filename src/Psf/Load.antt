-- ===== src/Psf/Load.antt =====
-- `psf_load_font` of src/psf.c on well-formed, foreign and truncated files.
use valern.Prelude.{
  get_elem?-ge, get_elem?-lt, true, false, Bool, ltb, ℕ, suc, ◌+◌, ◌*◌, ◌/◌, ◌%◌, ◌^◌, ◌≤◌, ◌<◌,
  ◌≡◌, ◌≢◌, refl, ap, arith, List, [], ◌∷◌, ◌++◌, some, none, length, drop, Option, ◌∙◌, Bool-cases,
  ◌==◌, if◌then◌else◌, inl, inr, drop-append,
}
use valern.Psf.{
  PsfFont, loaded, rejected, fault, read_u32, word, psf2_magic, psf_load_font, load_psf1, load_psf2,
  magic_at, psf1_magic, choose,
}

-- The bytes of a 32-bit number in the machine's order.
abbrev pub bytes_of : ℕ → List ℕ → List ℕ
bytes_of n rest = n % 2 ^ 8 ∷ n / 2 ^ 8 % 2 ^ 8 ∷ n / 2 ^ 16 % 2 ^ 8 ∷ n / 2 ^ 24 % 2 ^ 8 ∷ rest

-- The members of `struct psf2_header` behind the magic number.
pub record Psf2Header : Type 0 where
  pub version : ℕ
  pub headersize : ℕ
  pub flags : ℕ
  pub count : ℕ
  pub charsize : ℕ
  pub height : ℕ
  pub width : ℕ

-- A font file: the header, whatever it is extended by, and the glyphs.
abbrev pub psf2_file : Psf2Header → List ℕ → List ℕ
psf2_file h rest =
    0x72
    ∷ 0xb5
    ∷ 0x4a
    ∷ 0x86
    ∷ bytes_of h.version (
        bytes_of h.headersize (
          bytes_of h.flags
            (bytes_of h.count (bytes_of h.charsize (bytes_of h.height (bytes_of h.width rest))))))

pub record IsPsf2 (h : Psf2Header) (extension : List ℕ) : Type 0 where
  pub count32 : h.count < 2 ^ 32
  pub charsize32 : h.charsize < 2 ^ 32
  pub height32 : h.height < 2 ^ 32
  pub width32 : h.width < 2 ^ 32
  pub headersize32 : h.headersize < 2 ^ 32
  pub headersize_covers : h.headersize ≡ length extension + 32

-- The bytes put together again.
whole :
    (n : ℕ)
    → n < 2 ^ 32
    → n % 2 ^ 8
        + n / 2 ^ 8 % 2 ^ 8 * 2 ^ 8
        + n / 2 ^ 16 % 2 ^ 8 * 2 ^ 16
        + n / 2 ^ 24 % 2 ^ 8 * 2 ^ 24
      ≡ n
whole n h = omega arith

-- The glyphs lie behind the header and its extension.
drop_header :
    (h : Psf2Header) (extension glyphs : List ℕ)
    → IsPsf2 h extension
    → drop
        (h.headersize % 2 ^ 8
          + h.headersize / 2 ^ 8 % 2 ^ 8 * 2 ^ 8
          + h.headersize / 2 ^ 16 % 2 ^ 8 * 2 ^ 16
          + h.headersize / 2 ^ 24 % 2 ^ 8 * 2 ^ 24)
        (psf2_file h (extension ++ glyphs))
      ≡ glyphs
drop_header h extension glyphs v =
    ap (λ k. drop k (psf2_file h (extension ++ glyphs)))
      (whole h.headersize v.headersize32 ∙ v.headersize_covers)
    ∙ drop-append (psf2_file h []) (extension ++ glyphs) (length extension)
    ∙ ap (λ k. drop k (extension ++ glyphs)) start
    ∙ drop-append extension glyphs 0
  where
    start : length extension ≡ 0 + length extension
    start = omega arith

-- A version 2 file, header extension included, is loaded with the very dimensions that its header
-- states, and the glyphs begin right behind the header.
pub psf_load_font-psf2 :
    (font : PsfFont) (h : Psf2Header) (extension glyphs : List ℕ) (size : ℕ)
    → IsPsf2 h extension
    → 4 ≤ size
    → psf_load_font (some font) (some (psf2_file h (extension ++ glyphs))) size
      ≡ loaded (record {
        header = some (psf2_file h (extension ++ glyphs));
        glyph_buffer = some glyphs;
        glyph_count = h.count;
        glyph_size = h.charsize;
        width = h.width;
        height = h.height;
        version = 2;
      })
unfolding psf_load_font
psf_load_font-psf2 font h extension glyphs size v s =
    let big : ltb size 4 ≡ false = ground arith in
    rw (
      big,
      drop_header h extension glyphs v,
      whole h.count v.count32,
      whole h.charsize v.charsize32,
      whole h.width v.width32,
      whole h.height v.height32,
    )

read_u32-inside :
    (bytes : List ℕ) (at : ℕ) → at + 3 < length bytes → (v : ℕ) × (read_u32 bytes at ≡ some v)
unfolding read_u32
read_u32-inside bytes at h =
    let (b0, e0) = get_elem?-lt bytes at (omega arith) in
    let (b1, e1) = get_elem?-lt bytes (at + 1) (omega arith) in
    let (b2, e2) = get_elem?-lt bytes (at + 2) (omega arith) in
    let (b3, e3) = get_elem?-lt bytes (at + 3) (omega arith) in
    (b0 + b1 * 2 ^ 8 + b2 * 2 ^ 16 + b3 * 2 ^ 24, rw (e0, e1, e2, e3))

magic_at-inside :
    (bytes magics : List ℕ) (i : ℕ)
    → i + length magics ≤ length bytes
    → (b : Bool) × (magic_at bytes magics i ≡ some b)
magic_at-inside bytes [] i h = (true, refl)
magic_at-inside bytes (m ∷ magics) i h =
    let (b, e) = get_elem?-lt bytes i (omega arith) in
    let (rest, r) = magic_at-inside bytes magics (i + 1) (omega arith) in
    elim (Bool-cases (b == m)) [
      | inl same ↦ (rest, ground arith)
      | inr differ ↦ (false, ground arith)
    ]

load_psf1-inside : (bytes : List ℕ) → 32 ≤ length bytes → load_psf1 bytes ≢ fault
unfolding load_psf1
load_psf1-inside bytes h =
    let (m, e) = get_elem?-lt bytes 2 (omega arith) in
    let (c, f) = get_elem?-lt bytes 3 (omega arith) in rw (e, f) (λ p. ground arith)

load_psf2-inside : (bytes : List ℕ) → 32 ≤ length bytes → load_psf2 bytes ≢ fault
unfolding load_psf2
load_psf2-inside bytes h =
    let (w, a) = read_u32-inside bytes 28 (omega arith) in
    let (t, b) = read_u32-inside bytes 24 (omega arith) in
    let (c, d) = read_u32-inside bytes 20 (omega arith) in
    let (n, e) = read_u32-inside bytes 16 (omega arith) in
    let (o, f) = read_u32-inside bytes 8 (omega arith) in rw (a, b, d, e, f) (λ p. ground arith)

-- A file of at least 32 bytes is loaded or rejected without a read past its end.
pub psf_load_font-ne-fault :
    (font : Option PsfFont) (bytes : List ℕ) (size : ℕ)
    → 32 ≤ length bytes
    → psf_load_font font (some bytes) size ≢ fault
unfolding psf_load_font
psf_load_font-ne-fault none bytes size h = λ p. ground arith
psf_load_font-ne-fault (some font) bytes size h =
    let (a, e) = magic_at-inside bytes psf1_magic 0 (omega arith) in
    let (b, f) = magic_at-inside bytes psf2_magic 0 (omega arith) in
    choose_safe (ltb size 4) a b (load_psf1-inside bytes h) (load_psf2-inside bytes h) e f
  where
    choose_safe :
        (small a b : Bool)
        → load_psf1 bytes ≢ fault
        → load_psf2 bytes ≢ fault
        → magic_at bytes psf1_magic 0 ≡ some a
        → magic_at bytes psf2_magic 0 ≡ some b
        → (if small
            then rejected
            else choose
                (magic_at bytes psf1_magic 0)
                (load_psf1 bytes)
                (choose (magic_at bytes psf2_magic 0) (load_psf2 bytes) rejected))
          ≢ fault
    choose_safe true a b one two e f = λ p. ground arith
    choose_safe false true b one two e f = rw e one
    choose_safe false false true one two e f = rw (e, f) two
    choose_safe false false false one two e f = rw (e, f) (λ p. ground arith)

word-none : (a b c : Option ℕ) → word a b c none ≡ none
word-none none b c = refl
word-none (some a) none c = refl
word-none (some a) (some b) none = refl
word-none (some a) (some b) (some c) = refl

-- A version 2 file cut off inside its header passes the size test of 4, and is read past its end.
pub psf_load_font-truncated :
    (font : PsfFont) (rest : List ℕ)
    → length rest < 28
    → psf_load_font (some font) (some (psf2_magic ++ rest)) (length (psf2_magic ++ rest)) ≡ fault
unfolding psf_load_font load_psf2 read_u32
psf_load_font-truncated font rest h =
    let big : ltb (suc (suc (suc (suc (length rest))))) 4 ≡ false = ground arith in
    rw (big, get_elem?-ge rest 27 (omega arith), word-none)
