-- ===== src/Format/Tests.antt =====
-- The number formatters at concrete inputs.
use valern.Prelude.{ℕ, ◌≡◌, refl, some, none, arith, codes, List, negsuc, length, ◌≤◌}
use valern.Format.{int_to_str, uint_to_str, uint_to_hex_upper, digits_loop}
use valern.Format.Digits.{IsNumeral, uint_to_str_lem}
use valern.Format.Signed.{int_min, int_of, IsSignedNumeral, int_to_str_lem}

minus_123 : int_to_str (negsuc 122) 10 ≡ some (codes "-123")
unfolding int_to_str digits_loop
minus_123 = refl

hex_lower : uint_to_str 48879 16 ≡ some (codes "beef")
unfolding uint_to_str digits_loop
hex_lower = refl

uint_to_str_example :
    ((text : List ℕ) × (uint_to_str 3000000000 10 ≡ some text)
      × IsNumeral b'a' 10 10 3000000000 text)
    × ((text : List ℕ) × (uint_to_str 3000000000 16 ≡ some text)
        × IsNumeral b'a' 16 8 3000000000 text)
    × ((text : List ℕ) × (uint_to_hex_upper 3000000000 ≡ some text)
        × IsNumeral b'A' 16 8 3000000000 text)
uint_to_str_example = uint_to_str_lem 3000000000 (omega arith)

int_to_str_example :
    (text : List ℕ) × (int_to_str (negsuc 122) 10 ≡ some text)
    × (int_of text ≡ negsuc 122)
    × (length text ≤ 11)
    × IsSignedNumeral (negsuc 122) text
int_to_str_example = int_to_str_lem (negsuc 122) (omega arith) (λ e. ground arith)

least : int_to_str int_min 10 ≡ none
unfolding int_to_str
least = refl
