-- ===== src/Console/Shell/Line.antt =====
-- The line that `shell` of src/console.c edits, and how its buffer holds it.
use valern.Prelude.{
  ℕ, zero, suc, ◌+◌, ◌-◌, ◌≤◌, ◌≡◌, refl, arith, List, [], ◌∷◌, ◌++◌, some, set, length, ◌&&◌, leb,
  ltb, ◌==◌, if◌then◌else◌, ap, get_elem?-lt, ◌≢◌, ◌%◌, ◌^◌, length-append,
}
use valern.Stdmem.Strings.{IsText}
use valern.Port.{Event}
use valern.Console.Screen.{Console}
use valern.Console.Text.Grid.{IsValid, SameGrid}
use valern.Console.Text.Travel.{SameGrid-refl, SameGrid-trans}
use valern.Console.Printf.Output.{print_lines-prints}
use valern.Console.Command.Find.{command_of}
use valern.Console.Command.Perform.{events_of}
use valern.Console.Command.Lines.{IsShowable}
use valern.Console.Shell.{
  Shell, retype, typed, key_enter, key_backspace, ctrl_c, ctrl_l, input_size,
}

abbrev pub without_last : List ℕ → List ℕ
without_last [] = []
without_last (c ∷ []) = []
without_last (c ∷ d ∷ line) = c ∷ without_last (d ∷ line)

-- The line after a key.
abbrev pub edit : ℕ → List ℕ → List ℕ
edit c line =
    if c == key_enter
    then []
    else if c == key_backspace
    then without_last line
    else if c == ctrl_c
    then []
    else if c == ctrl_l
    then line
    else if leb 32 c && leb c 126 && ltb (length line) (input_size - 1)
    then line ++ c ∷ []
    else line

-- Enter carries the line out; no other key touches a port.
abbrev pub key_events : ℕ → List ℕ → List Event
key_events c line = if c == key_enter then events_of (command_of line) else []

-- The buffer holds the line, with room for its NUL.
pub record IsEditing (s : Shell) (line : List ℕ) : Type 0 where
  pub behind : List ℕ
  pub stored : s.input_buffer ≡ line ++ behind
  pub room : length s.input_buffer ≡ 256
  pub at_end : s.buffer_pos ≡ length line
  pub short : length line ≤ 255
  pub is_text : IsText line
  pub valid : IsValid s.console
  pub showable : IsShowable s.console

pub set-append :
    (line rest : List ℕ) (x c : ℕ) → set (line ++ x ∷ rest) (length line) c ≡ line ++ c ∷ rest
set-append [] rest x c = refl
set-append (a ∷ line) rest x c = ap (λ l. a ∷ l) (set-append line rest x c)

pub append_one : (line rest : List ℕ) (c : ℕ) → line ++ c ∷ rest ≡ (line ++ c ∷ []) ++ rest
append_one [] rest c = refl
append_one (a ∷ line) rest c = ap (λ l. a ∷ l) (append_one line rest c)

pub append_one-IsText : (line : List ℕ) (c : ℕ) → IsText line → c ≢ 0 → IsText (line ++ c ∷ [])
append_one-IsText [] c h n = (n, tt)
append_one-IsText (a ∷ line) c h n = (h.0, append_one-IsText line c h.1 n)

-- The byte behind the line, where the next one goes.
pub next_byte :
    (s : Shell) (line : List ℕ)
    → IsEditing s line
    → (x : ℕ) × (rest : List ℕ) × (s.input_buffer ≡ line ++ x ∷ rest)
next_byte s line v = go v.behind v.stored
  where
    go :
        (b : List ℕ)
        → s.input_buffer ≡ line ++ b
        → (x : ℕ) × (rest : List ℕ) × (s.input_buffer ≡ line ++ x ∷ rest)
    go [] e = absurd (omega (arith, ap length e, length-append line [], v.room, v.short))
    go (x ∷ rest) e = (x, rest, e)

pub split_last :
    (a : ℕ) (line rest : List ℕ)
    → (x : ℕ) × ((a ∷ line) ++ rest ≡ without_last (a ∷ line) ++ x ∷ rest)
split_last a [] rest = (a, refl)
split_last a (b ∷ line) rest = let (x, e) = split_last b line rest in (x, ap (λ l. a ∷ l) e)

pub length-without_last : (line : List ℕ) → length (without_last line) ≡ length line - 1
length-without_last [] = refl
length-without_last (a ∷ []) = refl
length-without_last (a ∷ b ∷ line) = omega (arith, length-without_last (b ∷ line))

pub without_last-IsText : (line : List ℕ) → IsText line → IsText (without_last line)
without_last-IsText [] h = h
without_last-IsText (a ∷ []) h = tt
without_last-IsText (a ∷ b ∷ line) h = (h.0, without_last-IsText (b ∷ line) h.1)

pub retype-prints :
    (left i : ℕ) (buffer : List ℕ) (con : Console)
    → IsValid con
    → i + left ≤ length buffer
    → (con' : Console) × (retype left i buffer con ≡ some con') × IsValid con' × SameGrid con con'
unfolding retype
retype-prints zero i buffer con v h = (con, refl, v, SameGrid-refl con)
retype-prints (suc left) i buffer con v h =
    let (c, e) = get_elem?-lt buffer i (omega arith) in
    let (mid, f, v', g) = print_lines-prints (typed c ∷ []) con v ((c % 2 ^ 8 ∷ [], refl), tt) in
    let (con', k, v'', g') = retype-prints left (i + 1) buffer mid v' (omega arith) in
    (con', rw (retype, e, f) k, v'', SameGrid-trans con mid con' g g')
