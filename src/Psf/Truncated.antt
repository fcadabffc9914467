-- ===== src/Psf/Truncated.antt =====
-- `psf_load_font` of src/psf.c on a whole file: when it reads past the end.
use valern.Prelude.{ℕ, ◌<◌, ◌≡◌, ◌↔◌, sym, arith, List, [], ◌∷◌, ◌++◌, some, length, subst}
use native.Mathlib.Decide.{dec_lt}
use valern.Psf.{PsfFont, psf_load_font, load_psf1, fault, psf2_magic}
use valern.Psf.Load.{psf_load_font-ne-fault, psf_load_font-truncated}

-- The version 2 magic, and a header that is cut off.
abbrev pub IsTruncated : List ℕ → Type 0
IsTruncated bytes = (rest : List ℕ) × (bytes ≡ psf2_magic ++ rest) × (length rest < 28)

-- Only the version 2 magic leads past a file of at least four bytes.
magic-of_fault :
    (font : PsfFont) (a b c d : ℕ) (rest : List ℕ)
    → psf_load_font (some font) (some (a ∷ b ∷ c ∷ d ∷ rest)) (length (a ∷ b ∷ c ∷ d ∷ rest))
      ≡ fault
    → (a ≡ 0x72) × (b ≡ 0xb5) × (c ≡ 0x4a) × (d ≡ 0x86)
unfolding psf_load_font load_psf1
magic-of_fault font a b c d rest p = ground arith

IsTruncated-of_fault :
    (font : PsfFont) (bytes : List ℕ)
    → psf_load_font (some font) (some bytes) (length bytes) ≡ fault
    → length bytes < 32
    → IsTruncated bytes
unfolding psf_load_font
IsTruncated-of_fault font [] p h = absurd (ground arith)
IsTruncated-of_fault font (a ∷ []) p h = absurd (ground arith)
IsTruncated-of_fault font (a ∷ b ∷ []) p h = absurd (ground arith)
IsTruncated-of_fault font (a ∷ b ∷ c ∷ []) p h = absurd (ground arith)
IsTruncated-of_fault font (a ∷ b ∷ c ∷ d ∷ rest) p h =
    let (e, f, g, k) = magic-of_fault font a b c d rest p in
    (rest, λ i. e i ∷ f i ∷ g i ∷ k i ∷ rest, omega arith)

-- A file of any length is read past its end exactly if it has the version 2 magic and is cut off inside
-- its header; every other file is loaded or rejected.
pub psf_load_font-fault_iff :
    (font : PsfFont) (bytes : List ℕ)
    → (psf_load_font (some font) (some bytes) (length bytes) ≡ fault) ↔ IsTruncated bytes
psf_load_font-fault_iff font bytes = (forth, back)
  where
    forth : psf_load_font (some font) (some bytes) (length bytes) ≡ fault → IsTruncated bytes
    forth p = elim (dec_lt (length bytes) 32) [
      | yes short ↦ IsTruncated-of_fault font bytes p short
      | no long ↦ absurd (psf_load_font-ne-fault (some font) bytes (length bytes) (omega arith) p)
    ]

    back : IsTruncated bytes → psf_load_font (some font) (some bytes) (length bytes) ≡ fault
    back (rest, e, h) =
        subst (λ l. psf_load_font (some font) (some l) (length l) ≡ fault) (sym e)
          (psf_load_font-truncated font rest h)
