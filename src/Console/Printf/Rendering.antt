-- ===== src/Console/Printf/Rendering.antt =====
-- The text that a format of `printf` in src/console.c and its arguments make.
use valern.Prelude.{
  ℕ, ◌%◌, ◌^◌, not, ◌&&◌, List, [], ◌∷◌, ◌++◌, Option, none, some, codes, ◌==◌, if◌then◌else◌, ◌||◌,
}
use valern.Format.{int_to_str, uint_to_str, uint_to_hex_upper}
use valern.Console.Printf.{Argument, word, text, uint_of, int_of_word, takes_argument}

abbrev pub after : List ℕ → Option (List ℕ) → Option (List ℕ)
after front none = none
after front (some back) = some (front ++ back)

-- The bytes before the NUL.
abbrev pub string_of : List ℕ → Option (List ℕ)
string_of [] = none
string_of (c ∷ str) = let rest = string_of str in if c == 0 then some [] else after (c ∷ []) rest

-- What a conversion prints for a word.
abbrev pub word_text : ℕ → ℕ → Option (List ℕ)
word_text d w =
    if (d == b'd') || (d == b'i')
    then int_to_str (int_of_word w) 10
    else if d == b'u'
    then uint_to_str (uint_of w) 10
    else if d == b'x'
    then uint_to_str (uint_of w) 16
    else if d == b'X'
    then uint_to_hex_upper (uint_of w)
    else if d == b'c'
    then some (w % 2 ^ 8 ∷ [])
    else if d == b's'
    then (if w == 0 then some (codes "(null)") else none)
    else after (b'0' ∷ b'x' ∷ []) (uint_to_str (uint_of w) 16)

-- What a character behind `%` prints that takes no argument.
abbrev pub other_text : ℕ → List ℕ
other_text d = if d == b'%' then b'%' ∷ [] else b'%' ∷ d ∷ []

abbrev pub argument_text : ℕ → List Argument → Option (List ℕ)
argument_text d [] = if takes_argument d then none else some (other_text d)
argument_text d (word w ∷ args) = if takes_argument d then word_text d w else some (other_text d)
argument_text d (text s ∷ args) =
    if takes_argument d then (if d == b's' then string_of s else none) else some (other_text d)

abbrev pub arguments_left : ℕ → List Argument → List Argument
arguments_left d [] = []
arguments_left d (a ∷ args) = if takes_argument d then args else a ∷ args

-- The whole text of a format, or `none` if the format or an argument has no defined meaning.
abbrev pub render : List ℕ → List Argument → Option (List ℕ)
render [] args = none
render (c ∷ []) args = if c == 0 then some [] else none
render (c ∷ d ∷ rest) args =
    let behind = render rest (arguments_left d args) in
    let next = render (d ∷ rest) args in
    if c == 0
    then some []
    else if c == b'%' && not (d == 0)
    then (elim (argument_text d args) [ none ↦ none | some t ↦ after t behind ])
    else after (c ∷ []) next
