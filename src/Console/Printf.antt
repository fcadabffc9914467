-- ===== src/Console/Printf.antt =====
-- src/console.c: `printf`. The format is the list of the bytes from its pointer on, its NUL included;
-- `none` is undefined behaviour, such as a read past it.
pub mod Rendering
pub mod Render
pub mod Output
use valern.Prelude.{
  ℕ, suc, ◌+◌, ◌-◌, ◌%◌, ◌^◌, Bool, not, ◌&&◌, List, [], ◌∷◌, ◌++◌, Option, none, some, String,
  codes, ℤ, pos, negsuc, ltb, ◌==◌, if◌then◌else◌, ◌||◌,
}
use valern.Format.{int_to_str, uint_to_str, uint_to_hex_upper}
use valern.Console.Screen.{Console}
use valern.Console.Text.{put_char, put_text}

-- A slot of the variable arguments: a 64-bit word, or a pointer to a text, whose bytes end in NUL. The
-- address of a text is not modelled.
pub data Argument : Type 0 where
  word : ℕ → Argument
  text : List ℕ → Argument

-- `va_arg(args, int)` and `va_arg(args, unsigned int)` take the low 32 bits of a slot.
abbrev pub uint_of : ℕ → ℕ
uint_of w = w % 2 ^ 32

abbrev pub int_of_word : ℕ → ℤ
int_of_word w =
    if ltb (uint_of w) (2 ^ 31) then pos (uint_of w) else negsuc (2 ^ 32 - uint_of w - 1)

-- A string of the language, with its NUL.
abbrev pub literal : String → List ℕ
literal s = codes s ++ (0 ∷ [])

-- `while (*str) putChar(*str++, ...);`
unfoldable pub put_string : List ℕ → ℕ → ℕ → Console → Option Console
put_string [] fg_color bg_color con = none
put_string (c ∷ str) fg_color bg_color con =
    if c == 0 then some con else elim (put_char c fg_color bg_color con) [
      | none ↦ none
      | some con' ↦ put_string str fg_color bg_color con'
    ]

-- The text that a formatter has left in `buffer`.
abbrev pub put_buffer : Option (List ℕ) → ℕ → ℕ → Console → Option Console
put_buffer none fg_color bg_color con = none
put_buffer (some buffer) fg_color bg_color con = put_text buffer fg_color bg_color con

-- The cases that take an argument from a slot that holds a word.
unfoldable pub convert_word : ℕ → ℕ → ℕ → ℕ → Console → Option Console
convert_word d w fg_color bg_color con =
    if (d == b'd') || (d == b'i')
    then put_buffer (int_to_str (int_of_word w) 10) fg_color bg_color con
    else if d == b'u'
    then put_buffer (uint_to_str (uint_of w) 10) fg_color bg_color con
    else if d == b'x'
    then put_buffer (uint_to_str (uint_of w) 16) fg_color bg_color con
    else if d == b'X'
    then put_buffer (uint_to_hex_upper (uint_of w)) fg_color bg_color con
    else if d == b'c'
    then put_char (w % 2 ^ 8) fg_color bg_color con
    else if d == b's'
    then (if w == 0 then put_text (codes "(null)") fg_color bg_color con else none)
    else put_pointer (put_text (b'0' ∷ b'x' ∷ []) fg_color bg_color con)
  where
    -- `%p`: the pointer is cast to `unsigned int` by the call.
    put_pointer : Option Console → Option Console
    put_pointer none = none
    put_pointer (some con') = put_buffer (uint_to_str (uint_of w) 16) fg_color bg_color con'

-- Does the conversion take an argument?
abbrev pub takes_argument : ℕ → Bool
takes_argument d =
    (d == b'd')
    || (d == b'i')
    || (d == b'u')
    || (d == b'x')
    || (d == b'X')
    || (d == b'c')
    || (d == b's')
    || (d == b'p')

abbrev pub with_arguments : List Argument → Option Console → Option (List Argument × Console)
with_arguments args none = none
with_arguments args (some con) = some (args, con)

-- The switch on the character behind `%`. An argument that is missing, or a text where a number is
-- asked for, is undefined.
unfoldable pub convert : ℕ → List Argument → ℕ → ℕ → Console → Option (List Argument × Console)
convert d [] fg_color bg_color con =
    if takes_argument d
    then none
    else if d == b'%'
    then with_arguments [] (put_char b'%' fg_color bg_color con)
    else with_arguments [] (put_text (b'%' ∷ d ∷ []) fg_color bg_color con)
convert d (word w ∷ args) fg_color bg_color con =
    if takes_argument d
    then with_arguments args (convert_word d w fg_color bg_color con)
    else if d == b'%'
    then with_arguments (word w ∷ args) (put_char b'%' fg_color bg_color con)
    else with_arguments (word w ∷ args) (put_text (b'%' ∷ d ∷ []) fg_color bg_color con)
convert d (text s ∷ args) fg_color bg_color con =
    if takes_argument d
    then (if d == b's' then with_arguments args (put_string s fg_color bg_color con) else none)
    else if d == b'%'
    then with_arguments (text s ∷ args) (put_char b'%' fg_color bg_color con)
    else with_arguments (text s ∷ args) (put_text (b'%' ∷ d ∷ []) fg_color bg_color con)

-- `while (*ptr) { ... ptr++; }`. A `%` is a conversion if the byte behind it is not the NUL.
unfoldable pub printf : List ℕ → ℕ → ℕ → List Argument → Console → Option Console
printf [] fg_color bg_color args con = none
printf (c ∷ []) fg_color bg_color args con = if c == 0 then some con else none
printf (c ∷ d ∷ rest) fg_color bg_color args con =
    if c == 0
    then some con
    else if c == b'%' && not (d == 0)
    then elim (convert d args fg_color bg_color con) [
      | none ↦ none
      | some (args', con') ↦ printf rest fg_color bg_color args' con'
    ]
    else elim (put_char c fg_color bg_color con) [
      | none ↦ none
      | some con' ↦ printf (d ∷ rest) fg_color bg_color args con'
    ]
