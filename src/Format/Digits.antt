-- ===== src/Format/Digits.antt =====
-- The digit loops of src/console.c: what they print reads back as the number.
use native.Mathlib.Nat.{pow-suc, pow-zero}
use valern.Prelude.{
  ℕ, zero, suc, ◌+◌, ◌-◌, ◌*◌, ◌/◌, ◌%◌, ◌^◌, ◌≤◌, ◌<◌, ◌≡◌, ◌≢◌, arith, List, [], ◌∷◌, some, Every,
  length, if◌then◌else◌, ◌⊎◌, Bool-cases, Option, leb, ltb, inl, inr, ◌∙◌, ◌==◌, refl, ap,
}
use valern.Format.{digit_char, digits_loop, to_text, loop_fuel, uint_to_str, uint_to_hex_upper}

-- The digit that a character stands for, and the number that a text stands for, from its left.
abbrev pub digit_of : ℕ → ℕ → ℕ
digit_of ten c = if leb c b'9' then c - b'0' else c - ten + 10

abbrev pub number_from : ℕ → ℕ → ℕ → List ℕ → ℕ
number_from ten base acc [] = acc
number_from ten base acc (c ∷ cs) = number_from ten base (acc * base + digit_of ten c) cs

-- The first character is there and is no zero.
abbrev pub Leads : List ℕ → Type 0
Leads [] = ⊥
Leads (c ∷ cs) = c ≢ b'0'

abbrev pub IsDigit : ℕ → ℕ → ℕ → Type 0
IsDigit ten base c = ((b'0' ≤ c) × (c ≤ b'9')) ⊎ ((ten ≤ c) × (c + 10 < ten + base))

digit_of-digit_char : (ten d : ℕ) → 65 ≤ ten → digit_of ten (digit_char ten d) ≡ d
digit_of-digit_char ten d h = ground arith

digit_char-IsDigit : (ten base d : ℕ) → d < base → IsDigit ten base (digit_char ten d)
digit_char-IsDigit ten base d h = elim (Bool-cases (ltb d 10)) [
  | inl small ↦ rw small (inl (omega arith, ground arith))
  | inr large ↦ rw large (inr (omega arith, ground arith))
]

digit_char-Leads : (ten d : ℕ) → 65 ≤ ten → 0 < d → digit_char ten d ≢ b'0'
digit_char-Leads ten d h p = ground arith

-- What the loop leaves when it has printed `value` in front of `temp`.
record Printed (ten base k value : ℕ) (temp : List ℕ) (result : Option (List ℕ)) : Type 0 where
  text : List ℕ
  returns : result ≡ some text
  reads : number_from ten base 0 text ≡ number_from ten base value temp
  digits : Every (IsDigit ten base) temp → Every (IsDigit ten base) text
  short : length text ≤ k + length temp
  leads : (0 < value) ⊎ Leads temp → Leads text

div_lt : (value base p : ℕ) → 0 < base → value < base ^ suc p → value / base < base ^ p
div_lt value base p h l = grind (arith, pow-suc base p)

div-mul-add-mod : (value base : ℕ) → 0 < base → value / base * base + value % base ≡ value
div-mul-add-mod value base h = grind arith

module _ (ten base : ℕ) (letters : 65 ≤ ten) (radix : 2 ≤ base) where
  -- the loop ends
  Printed-zero : (k : ℕ) (temp : List ℕ) → Printed ten base k 0 temp (some temp)
  Printed-zero k temp = record {
    text = temp;
    returns = refl;
    reads = refl;
    digits = λ h. h;
    short = omega arith;
    leads = λ h. elim h [ inl none_left ↦ absurd (omega arith) | inr l ↦ l ];
  }

  -- one round, before the others
  Printed-round :
      (k value : ℕ) (temp : List ℕ) (result : Option (List ℕ))
      → 0 < value
      → Printed ten base k (value / base) (digit_char ten (value % base) ∷ temp) result
      → Printed ten base (suc k) value temp result
  Printed-round k value temp result p r = record {
    text = r.text;
    returns = r.returns;
    reads = r.reads ∙ ap (λ n. number_from ten base n temp) whole;
    digits = λ h. r.digits (digit_char-IsDigit ten base (value % base) (omega arith), h);
    short = omega (arith, r.short);
    leads = λ _. r.leads (elim (Bool-cases (ltb 0 (value / base))) [
      | inl more ↦ inl (ground arith)
      | inr last ↦ inr (
          digit_char-Leads ten (value % base) letters
            (ground (arith, div-mul-add-mod value base (omega arith))))
    ]);
  }
    where
      whole : value / base * base + digit_of ten (digit_char ten (value % base)) ≡ value
      whole =
          rw (digit_of-digit_char ten (value % base) letters)
            (div-mul-add-mod value base (omega arith))

  loop-Printed :
      (fuel k value : ℕ) (temp : List ℕ)
      → k < fuel
      → value < base ^ k
      → Printed ten base k value temp (digits_loop fuel ten base value temp)
  unfolding digits_loop
  loop-Printed zero k value temp f h = absurd (omega arith)
  loop-Printed (suc fuel) zero value temp f h =
      let e : value ≡ 0 = omega (arith, pow-zero base) in rw e (Printed-zero 0 temp)
  loop-Printed (suc fuel) (suc k) value temp f h = elim (Bool-cases (ltb 0 value)) [
    | inl more ↦ rw more (
        Printed-round k value temp
          (digits_loop fuel ten base (value / base) (digit_char ten (value % base) ∷ temp))
          (ground arith)
          (loop-Printed fuel k (value / base) (digit_char ten (value % base) ∷ temp) (omega arith)
            (div_lt value base k (omega arith) h)))
    | inr done ↦ let e : value ≡ 0 = ground arith in rw e (Printed-zero (suc k) temp)
  ]

-- A text of at most `k` digits that reads back as the number, with no zero in front of it.
pub record IsNumeral (ten base k value : ℕ) (text : List ℕ) : Type 0 where
  pub reads : number_from ten base 0 text ≡ value
  pub digits : Every (IsDigit ten base) text
  pub short : length text ≤ k
  pub leads : 0 < value → Leads text
  pub zero_lead : value ≡ 0 → text ≡ b'0' ∷ []

pub to_text-IsNumeral :
    (ten base k value : ℕ)
    → 65 ≤ ten
    → 2 ≤ base
    → 1 ≤ k
    → k ≤ 32
    → value < base ^ k
    → (text : List ℕ) × (to_text ten value base ≡ some text) × IsNumeral ten base k value text
unfolding to_text
to_text-IsNumeral ten base k value t b k1 k32 h = elim (Bool-cases (value == 0)) [
  | inl z ↦ (
    b'0' ∷ [],
    rw z,
    let e : value ≡ 0 = ground arith in
        record {
          reads = ground arith;
          digits = (inl (omega arith, omega arith), tt);
          short = omega arith;
          leads = λ p. absurd (omega arith);
          zero_lead = λ _. refl;
        },
  )
  | inr nz ↦
      let r = loop-Printed ten base t b loop_fuel k value [] (omega arith) h in
      (
        r.text,
        rw nz r.returns,
        record {
          reads = r.reads;
          digits = r.digits tt;
          short = omega (arith, r.short);
          leads = λ p. r.leads (inl p);
          zero_lead = λ p. absurd (ground arith);
        },
      )
]

-- Every `unsigned int` is printed in base 10 in at most 10 digits and in base 16 in at most 8, small
-- letters or capitals, by the three calls that `printf` makes: the text has only digits of the
-- base, no zero in front of a number that is not 0, and reads back as the number.
pub uint_to_str_lem :
    (value : ℕ)
    → value < 2 ^ 32
    → ((text : List ℕ) × (uint_to_str value 10 ≡ some text) × IsNumeral b'a' 10 10 value text)
      × ((text : List ℕ) × (uint_to_str value 16 ≡ some text) × IsNumeral b'a' 16 8 value text)
      × ((text : List ℕ) × (uint_to_hex_upper value ≡ some text) × IsNumeral b'A' 16 8 value text)
unfolding uint_to_str uint_to_hex_upper
uint_to_str_lem value h = (
  to_text-IsNumeral b'a' 10 10 value (omega arith) (omega arith) (omega arith) (omega arith)
      (omega arith),
  to_text-IsNumeral b'a' 16 8 value (omega arith) (omega arith) (omega arith) (omega arith)
      (omega arith),
  to_text-IsNumeral b'A' 16 8 value (omega arith) (omega arith) (omega arith) (omega arith)
      (omega arith),
)
