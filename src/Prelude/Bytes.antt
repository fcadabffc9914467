-- ===== src/Prelude/Bytes.antt =====
-- Bytes: facts checked by evaluation on every value, and the code points of a text.
use Prim.Native.Nat.{ℕ, zero, suc, ◌<◌, ◌/◌, ◌*◌, ◌%◌, bit_and}
use valern.Prelude.Tests.{if◌then◌else◌, ◌==◌, ==_iff}
use Prim.Native.Char.{code}
use Prim.Native.String.{String}
use mathlib.Core.Path.{◌≡◌, refl}
use mathlib.Core.Bool.{Bool, true, false}
use mathlib.Core.List.{List, [], ◌∷◌}
use native.Mathlib.Omega.{arith}

-- The test passes at every number under the bound.
unfoldable pub passes_below : (ℕ → Bool) → ℕ → Bool
passes_below test zero = true
passes_below test (suc bound) = if test bound then passes_below test bound else false

pub passes_below-apply :
    (bound x : ℕ) (test : ℕ → Bool) → x < bound → passes_below test bound ≡ true → test x ≡ true
unfolding passes_below
passes_below-apply zero x test under passed = elim under [ ]
passes_below-apply (suc bound) x test under passed = ground (arith, passes_below-apply bound x test)

-- The low seven bits of a byte, and its top bit.
low_bits_table : passes_below (λ x. bit_and x 0x7F == x % 128) 256 ≡ true
unfolding passes_below
low_bits_table = refl

top_bit_table : passes_below (λ x. bit_and x 0x80 == x / 128 * 128) 256 ≡ true
unfolding passes_below
top_bit_table = refl

pub bit_and-low_bits : (x : ℕ) → x < 256 → bit_and x 0x7F ≡ x % 128
bit_and-low_bits x h = (==_iff _ _).0 (passes_below-apply 256 x _ h low_bits_table)

pub bit_and-top_bit : (x : ℕ) → x < 256 → bit_and x 0x80 ≡ x / 128 * 128
bit_and-top_bit x h = (==_iff _ _).0 (passes_below-apply 256 x _ h top_bit_table)

-- The bytes of an ASCII text.
abbrev pub codes : String → List ℕ
codes String.[] = []
codes (String.◌∷◌ c s) = code c ∷ codes s
