-- ===== src/Format/Signed.antt =====
-- `int_to_str` of src/console.c: signed numbers in base 10.
use native.Mathlib.Decide.{ℕ_discrete}
use valern.Prelude.{
  ℕ, suc, ℤ, pos, negsuc, sub_ℕ, ◌<◌, ◌≤◌, ◌^◌, ◌≡◌, ◌↔◌, refl, arith, List, [], ◌∷◌, some, none,
  length, leb, ◌-◌, if◌then◌else◌, Every, ◌≢◌, ◌==◌, ◌∙◌, inl, ap, inr, true, ◌⊎◌, false,
  Bool-cases,
}
use valern.Format.{int_to_str, loop_fuel, digits_loop, negated, int_max, signed, to_text}
use valern.Format.Digits.{number_from, to_text-IsNumeral, IsDigit, IsNumeral}

-- The numbers of `int`.
abbrev pub IsInt : ℤ → Type 0
IsInt (pos n) = n < 2 ^ 31
IsInt (negsuc n) = suc n ≤ 2 ^ 31

abbrev pub int_min : ℤ
int_min = negsuc (2 ^ 31 - 1)

-- What a text with or without a sign stands for.
abbrev pub int_of : List ℕ → ℤ
int_of [] = pos 0
int_of (c ∷ cs) =
    if c == b'-' then sub_ℕ 0 (number_from b'a' 10 0 cs) else pos (number_from b'a' 10 0 (c ∷ cs))

-- No digit is a sign.
int_of-digits :
    (text : List ℕ) → Every (IsDigit b'a' 10) text → int_of text ≡ pos (number_from b'a' 10 0 text)
int_of-digits [] h = refl
int_of-digits (c ∷ cs) h = elim h.0 [ inl d ↦ ground arith | inr l ↦ absurd (omega arith) ]

sub_ℕ-zero : (n : ℕ) → sub_ℕ 0 (suc n) ≡ negsuc n
sub_ℕ-zero n = ground arith

-- A number that is not 0 goes to the loop.
loop_of_pos : (n : ℕ) → digits_loop loop_fuel b'a' 10 (suc n) [] ≡ to_text b'a' (suc n) 10
unfolding to_text
loop_of_pos n = ground arith

-- The decimal numeral of a number: without a sign that of a number from 0 on, and behind a minus sign
-- that of the magnitude of a negative one.
abbrev pub IsSignedNumeral : ℤ → List ℕ → Type 0
IsSignedNumeral (pos n) text = IsNumeral b'a' 10 10 n text
IsSignedNumeral (negsuc n) text =
    (digits : List ℕ) × (text ≡ b'-' ∷ digits) × IsNumeral b'a' 10 10 (suc n) digits

-- Every `int` but the least is printed in base 10 in at most 11 characters, and reads back as the
-- number, sign included. The text has only decimal digits behind a sign that exactly the negative
-- numbers have; 0 is printed as a single 0, and no other number begins with a zero.
pub int_to_str_lem :
    (z : ℤ)
    → IsInt z
    → z ≢ int_min
    → (text : List ℕ) × (int_to_str z 10 ≡ some text)
      × (int_of text ≡ z)
      × (length text ≤ 11)
      × IsSignedNumeral z text
unfolding int_to_str
int_to_str_lem (pos n) h ne =
    let (text, e, r) =
      to_text-IsNumeral b'a' 10 10 n (omega arith) (omega arith) (omega arith) (omega arith)
        (omega arith) in
    (text, e, int_of-digits text r.digits ∙ ap pos r.reads, omega (arith, r.short), r)
int_to_str_lem (negsuc n) h ne =
    let (text, e, r) =
      to_text-IsNumeral b'a' 10 10 (suc n) (omega arith) (omega arith) (omega arith) (omega arith)
        (omega arith) in
    let fits : negated (suc n) ≡ some (suc n) = fitting (Bool-cases (leb (suc n) int_max)) in
    (
      b'-' ∷ text,
      rw (fits, loop_of_pos n) (ap signed e),
      ap (sub_ℕ 0) r.reads ∙ sub_ℕ-zero n,
      omega (arith, r.short),
      (text, refl, r),
    )
  where
    fitting :
        (leb (suc n) int_max ≡ true) ⊎ (leb (suc n) int_max ≡ false)
        → negated (suc n) ≡ some (suc n)
    fitting (inl e) = rw e refl
    fitting (inr e) = absurd (ne (ap negsuc (ground arith)))

int-discrete : Discrete ℤ
int-discrete = hlevel ℕ_discrete

-- In the range of `int`, `int_to_str` in base 10 has no defined result exactly for the least number.
pub int_to_str-eq-none_iff : (z : ℤ) → IsInt z → (int_to_str z 10 ≡ none) ↔ (z ≡ int_min)
unfolding int_to_str
int_to_str-eq-none_iff z h = (only z h, λ e. rw e)
  where
    only : (z : ℤ) → IsInt z → int_to_str z 10 ≡ none → z ≡ int_min
    only z h e = elim (int-discrete z int_min) [
      | yes same ↦ same
      | no other ↦ let (text, r, _, _, _) = int_to_str_lem z h other in cc
    ]
