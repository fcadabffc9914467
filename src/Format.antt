-- ===== src/Format.antt =====
-- src/console.c: the number formatters of `printf`. Text is a list of bytes; what the functions
-- return is the buffer's text without its NUL, whose length is their result.
pub mod Digits
pub mod Signed
mod Tests
use valern.Prelude.{
  ℕ, zero, suc, ◌+◌, ◌-◌, ◌/◌, ◌%◌, ◌^◌, Bool, ◌&&◌, List, [], ◌∷◌, ◌++◌, Option, none, some, ℤ,
  pos, negsuc, ltb, leb, ◌==◌, if◌then◌else◌,
}

-- `(digit < 10) ? (digit + '0') : (digit - 10 + ten)`, with `ten` the letter for 10.
abbrev pub digit_char : ℕ → ℕ → ℕ
digit_char ten digit = if ltb digit 10 then digit + b'0' else digit - 10 + ten

-- `while (value > 0) { temp[i++] = ...; value /= base; }`, then the copy from `temp[--i]` on, which
-- reverses: each round puts its digit in front of what the rounds before it have left. `none` is
-- fuel that ran out, and the theorems of `Digits` rule it out.
unfoldable pub digits_loop : ℕ → ℕ → ℕ → ℕ → List ℕ → Option (List ℕ)
digits_loop zero ten base value temp = none
digits_loop (suc fuel) ten base value temp =
    let next = digits_loop fuel ten base (value / base) (digit_char ten (value % base) ∷ temp) in
    if ltb 0 value then next else some temp

-- The slots of `temp[32]`, and one round to leave the loop.
abbrev pub loop_fuel : ℕ
loop_fuel = 33

-- Both arms of the functions on an unsigned value; `ten` tells them apart.
unfoldable pub to_text : ℕ → ℕ → ℕ → Option (List ℕ)
to_text ten value base =
    if value == 0 then some (b'0' ∷ []) else digits_loop loop_fuel ten base value []

unfoldable pub uint_to_str : ℕ → ℕ → Option (List ℕ)
unfolding to_text
uint_to_str value base = to_text b'a' value base

unfoldable pub uint_to_hex_upper : ℕ → Option (List ℕ)
unfolding to_text
uint_to_hex_upper value = to_text b'A' value 16

abbrev pub int_max : ℕ
int_max = 2 ^ 31 - 1

-- `value = -value` for the negative number of this magnitude: `none` if the result is no `int`, which C
-- leaves undefined.
abbrev pub negated : ℕ → Option ℕ
negated magnitude = if leb magnitude int_max then some magnitude else none

-- Behind the sign.
abbrev pub signed : Option (List ℕ) → Option (List ℕ)
signed none = none
signed (some text) = some (b'-' ∷ text)

-- In another base than 10 a negative number skips every loop and leaves an empty text.
unfoldable pub int_to_str : ℤ → ℕ → Option (List ℕ)
unfolding to_text
int_to_str (pos n) base = to_text b'a' n base
int_to_str (negsuc n) base =
    if base == 10
    then elim (negated (suc n)) [
      | none ↦ none
      | some value ↦ signed (digits_loop loop_fuel b'a' base value [])
    ]
    else some []
