-- ===== src/Console/Printf/Render.antt =====
-- `printf` of src/console.c as a text that is rendered first and printed then.
use valern.Prelude.{
  ℕ, ◌%◌, ◌^◌, not, ◌&&◌, List, [], ◌∷◌, ◌++◌, Option, none, some, ◌==◌, ◌≡◌, refl, ◌∙◌,
  Option-cases, ap, Bool-cases, inl, inr, sym, arith, false, true, ◌⊎◌,
}
use valern.Format.{uint_to_str}
use valern.Console.Screen.{Console}
use valern.Console.Text.{put_char, put_text}
use valern.Console.Printf.{
  Argument, word, text, uint_of, put_string, put_buffer, convert_word, convert, with_arguments,
  printf,
}
use valern.Console.Printf.Rendering.{
  after, string_of, word_text, argument_text, arguments_left, render,
}

abbrev then_put : List ℕ → ℕ → ℕ → Option Console → Option Console
then_put ys f b none = none
then_put ys f b (some con) = put_text ys f b con

put_text-append :
    (xs ys : List ℕ) (f b : ℕ) (con : Console)
    → put_text (xs ++ ys) f b con ≡ then_put ys f b (put_text xs f b con)
unfolding put_text
put_text-append [] ys f b con = refl
put_text-append (x ∷ xs) ys f b con = elim (Option-cases (put_char x f b con)) [
  | inl e ↦ rw (put_text, e) refl
  | inr (con', e) ↦ rw (put_text, e) (put_text-append xs ys f b con')
]

-- A first text that is undefined, or whose printing is, leaves nothing to print.
put_buffer-after :
    (xs : List ℕ) (ys : Option (List ℕ)) (f b : ℕ) (con con' : Console)
    → put_text xs f b con ≡ some con'
    → put_buffer (after xs ys) f b con ≡ put_buffer ys f b con'
put_buffer-after xs none f b con con' e = refl
put_buffer-after xs (some ys) f b con con' e =
    put_text-append xs ys f b con ∙ ap (then_put ys f b) e

put_buffer-after-none :
    (xs : List ℕ) (ys : Option (List ℕ)) (f b : ℕ) (con : Console)
    → put_text xs f b con ≡ none
    → put_buffer (after xs ys) f b con ≡ none
put_buffer-after-none xs none f b con e = refl
put_buffer-after-none xs (some ys) f b con e =
    put_text-append xs ys f b con ∙ ap (then_put ys f b) e

-- One character.
put_one : (c f b : ℕ) (con : Console) → put_text (c ∷ []) f b con ≡ put_char c f b con
unfolding put_text
put_one c f b con = elim (Option-cases (put_char c f b con)) [
  | inl e ↦ rw (put_text, e) refl
  | inr (con', e) ↦ rw (put_text, e) refl
]

put_string-string_of :
    (str : List ℕ) (f b : ℕ) (con : Console)
    → put_string str f b con ≡ put_buffer (string_of str) f b con
unfolding put_string put_text
put_string-string_of [] f b con = refl
put_string-string_of (c ∷ str) f b con = elim (Bool-cases (c == 0)) [
  | inl nul ↦ rw nul refl
  | inr other ↦ elim (Option-cases (put_char c f b con)) [
    | inl e ↦
        rw (other, e)
          (sym (put_buffer-after-none (c ∷ []) (string_of str) f b con (put_one c f b con ∙ e)))
    | inr (con', e) ↦
        rw (other, e)
          (put_string-string_of str f b con'
            ∙ sym (put_buffer-after (c ∷ []) (string_of str) f b con con' (put_one c f b con ∙ e)))
  ]
]

convert_word-word_text :
    (d w f b : ℕ) (con : Console) → convert_word d w f b con ≡ put_buffer (word_text d w) f b con
unfolding convert_word
convert_word-word_text d w f b con =
    let one = put_one (w % 2 ^ 8) f b con in
    elim (Option-cases (put_text (b'0' ∷ b'x' ∷ []) f b con)) [
      | inl e ↦
          let pointer =
            put_buffer-after-none (b'0' ∷ b'x' ∷ []) (uint_to_str (uint_of w) 16) f b con e in
          ground (arith, one, e, pointer)
      | inr (con', e) ↦
          let pointer =
            put_buffer-after (b'0' ∷ b'x' ∷ []) (uint_to_str (uint_of w) 16) f b con con' e in
          ground (arith, one, e, pointer)
    ]

convert-argument_text :
    (d : ℕ) (args : List Argument) (f b : ℕ) (con : Console)
    → convert d args f b con
      ≡ with_arguments (arguments_left d args) (put_buffer (argument_text d args) f b con)
unfolding convert
convert-argument_text d [] f b con = let one = put_one b'%' f b con in ground (arith, one)
convert-argument_text d (word w ∷ args) f b con =
    let one = put_one b'%' f b con in
    let it = convert_word-word_text d w f b con in ground (arith, one, it)
convert-argument_text d (text s ∷ args) f b con =
    let one = put_one b'%' f b con in
    let it = put_string-string_of s f b con in ground (arith, one, it)

-- A format whose remainders print what they render to.
abbrev Prints : List ℕ → List Argument → ℕ → ℕ → Type 0
Prints format args f b =
    (con : Console) → printf format f b args con ≡ put_buffer (render format args) f b con

Prints-plain :
    (c d : ℕ) (rest : List ℕ) (args : List Argument) (f b : ℕ)
    → (c == 0) ≡ false
    → (c == b'%' && not (d == 0)) ≡ false
    → Prints (d ∷ rest) args f b
    → Prints (c ∷ d ∷ rest) args f b
unfolding printf
Prints-plain c d rest args f b other no_percent prints con =
    elim (Option-cases (put_char c f b con)) [
      | inl e ↦
          rw (printf, other, no_percent, e)
            (sym (
              put_buffer-after-none (c ∷ []) (render (d ∷ rest) args) f b con
                (put_one c f b con ∙ e)))
      | inr (con', e) ↦
          rw (printf, other, no_percent, e)
            (prints con'
              ∙ sym (
                  put_buffer-after (c ∷ []) (render (d ∷ rest) args) f b con con'
                    (put_one c f b con ∙ e)))
    ]

Prints-conversion :
    (c d : ℕ) (rest : List ℕ) (args : List Argument) (f b : ℕ)
    → (c == 0) ≡ false
    → (c == b'%' && not (d == 0)) ≡ true
    → Prints rest (arguments_left d args) f b
    → Prints (c ∷ d ∷ rest) args f b
unfolding printf
Prints-conversion c d rest args f b other percent prints con =
    with_text (Option-cases (argument_text d args))
  where
    converts :
        convert d args f b con
        ≡ with_arguments (arguments_left d args) (put_buffer (argument_text d args) f b con)
    converts = convert-argument_text d args f b con

    with_text :
        (argument_text d args ≡ none) ⊎ ((t : List ℕ) × (argument_text d args ≡ some t))
        → printf (c ∷ d ∷ rest) f b args con ≡ put_buffer (render (c ∷ d ∷ rest) args) f b con
    with_text (inl e) = rw (printf, other, percent, converts, e) refl
    with_text (inr (t, e)) = elim (Option-cases (put_text t f b con)) [
      | inl g ↦
          rw (printf, other, percent, converts, e, g)
            (sym (put_buffer-after-none t (render rest (arguments_left d args)) f b con g))
      | inr (con', g) ↦
          rw (printf, other, percent, converts, e, g)
            (prints con'
              ∙ sym (put_buffer-after t (render rest (arguments_left d args)) f b con con' g))
    ]

-- `printf` prints exactly the rendered text, on every console, and has no defined result exactly
-- where the rendering or the printing of that text has none.
pub printf_lem :
    (format : List ℕ) (fg_color bg_color : ℕ) (args : List Argument) (con : Console)
    → printf format fg_color bg_color args con
      ≡ put_buffer (render format args) fg_color bg_color con
unfolding printf put_text
printf_lem [] f b args con = refl
printf_lem (c ∷ []) f b args con = elim (Bool-cases (c == 0)) [
  | inl nul ↦ rw nul refl
  | inr other ↦ rw other refl
]
printf_lem (c ∷ d ∷ rest) f b args con =
    let behind : Prints rest (arguments_left d args) f b =
      λ con'. printf_lem rest f b (arguments_left d args) con' in
    let next : Prints (d ∷ rest) args f b = λ con'. printf_lem (d ∷ rest) f b args con' in
    elim (Bool-cases (c == 0)) [
      | inl nul ↦ rw (printf, nul) refl
      | inr other ↦ elim (Bool-cases (c == b'%' && not (d == 0))) [
        | inl percent ↦ Prints-conversion c d rest args f b other percent behind con
        | inr no_percent ↦ Prints-plain c d rest args f b other no_percent next con
      ]
    ]
