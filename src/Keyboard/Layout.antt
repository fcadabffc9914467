-- ===== src/Keyboard/Layout.antt =====
-- src/keyboard.c: the layout tables, and how `process_scancode` makes a character of a key.
-- 39 is the quote, 92 the backslash, and 8, 9 and 10 are backspace, tab and newline.
use valern.Prelude.{ℕ, ◌+◌, ◌-◌, Bool, not, ◌&&◌, ◌||◌, List, [], ◌∷◌, leb, if◌then◌else◌, get_or}
use valern.Keyboard.Modifiers.{KeyState}

-- US QWERTY
abbrev pub scancode_to_ascii : List ℕ
scancode_to_ascii =
    0 ∷ 0 ∷ b'1' ∷ b'2' ∷ b'3' ∷ b'4' ∷ b'5' ∷ b'6' ∷ b'7' ∷ b'8' ∷ b'9' ∷ b'0' ∷ b'-' ∷ b'=' ∷ 8
    ∷ 9 ∷ b'q' ∷ b'w' ∷ b'e' ∷ b'r' ∷ b't' ∷ b'y' ∷ b'u' ∷ b'i' ∷ b'o' ∷ b'p' ∷ b'[' ∷ b']' ∷ 10 ∷ 0
    ∷ b'a' ∷ b's' ∷ b'd' ∷ b'f' ∷ b'g' ∷ b'h' ∷ b'j' ∷ b'k' ∷ b'l' ∷ b';' ∷ 39 ∷ b'`' ∷ 0 ∷ 92
    ∷ b'z' ∷ b'x' ∷ b'c' ∷ b'v' ∷ b'b' ∷ b'n' ∷ b'm' ∷ b',' ∷ b'.' ∷ b'/' ∷ 0 ∷ b'*' ∷ 0 ∷ b' ' ∷ []

abbrev pub scancode_to_ascii_shifted : List ℕ
scancode_to_ascii_shifted =
    0 ∷ 0 ∷ b'!' ∷ b'@' ∷ b'#' ∷ b'$' ∷ b'%' ∷ b'^' ∷ b'&' ∷ b'*' ∷ b'(' ∷ b')' ∷ b'_' ∷ b'+' ∷ 8
    ∷ 9 ∷ b'Q' ∷ b'W' ∷ b'E' ∷ b'R' ∷ b'T' ∷ b'Y' ∷ b'U' ∷ b'I' ∷ b'O' ∷ b'P' ∷ b'{' ∷ b'}' ∷ 10 ∷ 0
    ∷ b'A' ∷ b'S' ∷ b'D' ∷ b'F' ∷ b'G' ∷ b'H' ∷ b'J' ∷ b'K' ∷ b'L' ∷ b':' ∷ b'"' ∷ b'~' ∷ 0 ∷ b'|'
    ∷ b'Z' ∷ b'X' ∷ b'C' ∷ b'V' ∷ b'B' ∷ b'N' ∷ b'M' ∷ b'<' ∷ b'>' ∷ b'?' ∷ 0 ∷ b'*' ∷ 0 ∷ b' ' ∷ []

abbrev pub is_lower : ℕ → Bool
is_lower c = leb b'a' c && leb c b'z'

abbrev pub is_upper : ℕ → Bool
is_upper c = leb b'A' c && leb c b'Z'

-- The caps lock step.
abbrev pub apply_caps : Bool → Bool → ℕ → ℕ
apply_caps caps_active shift_pressed ascii =
    if is_lower ascii && caps_active && not shift_pressed
    then ascii - b'a' + b'A'
    else if is_upper ascii && caps_active && shift_pressed
    then ascii - b'A' + b'a'
    else ascii

-- The control step.
abbrev pub apply_ctrl : Bool → ℕ → ℕ
apply_ctrl ctrl ascii =
    if ctrl
    then (if is_lower ascii
        then ascii - b'a' + 1
        else if is_upper ascii
        then ascii - b'A' + 1
        else ascii)
    else ascii

-- The character of a key inside the tables; 0 for a key that has none.
unfoldable pub ascii_of : KeyState → ℕ → ℕ
ascii_of k key =
    let shift_pressed = k.shift_left || k.shift_right in
    let ascii =
      if shift_pressed
      then get_or scancode_to_ascii_shifted key 0
      else get_or scancode_to_ascii key 0 in
    apply_ctrl (k.ctrl_left || k.ctrl_right) (apply_caps k.caps_lock shift_pressed ascii)
