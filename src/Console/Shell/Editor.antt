-- ===== src/Console/Shell/Editor.antt =====
-- The loop of `shell` in src/console.c as a line editor.
use valern.Prelude.{
  ℕ, ◌+◌, ◌-◌, ◌≡◌, refl, arith, List, [], ◌∷◌, ◌++◌, some, set, length, ◌&&◌, leb, ltb, ◌==◌, ◌∙◌,
  ap, ◌≢◌, ◌%◌, ◌^◌, codes, false, ◌<◌, true, Bool-cases, inl, inr, length-append,
}
use native.Mathlib.Decide.{ℕ_discrete}
use valern.Console.Text.Grid.{SameGrid}
use valern.Console.Text.Travel.{SameGrid-refl}
use valern.Console.Printf.Output.{print_lines-prints, printf-prints}
use valern.Console.Command.{plain, print_lines}
use valern.Console.Command.Lines.{IsShowable-of_SameGrid}
use valern.Console.Shell.{
  Shell, shell_key, typed, prompt, key_enter, key_backspace, ctrl_c, ctrl_l, input_size,
  with_console,
}
use valern.Console.Setup.{white, red, black}
use valern.Console.Shell.Line.{
  IsEditing, append_one, append_one-IsText, edit, key_events, length-without_last, next_byte,
  set-append, split_last, without_last-IsText,
}
use valern.Console.Shell.Entering.{emptied, prompt_text, enter-edits, clear_line-edits}

-- What a key leads to: a next state that holds the edited line.
abbrev Edits : ℕ → Shell → List ℕ → Type 0
Edits c s line =
    (s' : Shell) × (shell_key c s ≡ some (s', key_events c line))
    × IsEditing s' (edit c line)
    × SameGrid s.console s'.console

backspace-Edits : (s : Shell) (line : List ℕ) → IsEditing s line → Edits key_backspace s line
unfolding shell_key
backspace-Edits s [] v =
    let none_left : ltb 0 s.buffer_pos ≡ false = ground (arith, v.at_end) in
    (s, rw none_left refl, v, SameGrid-refl s.console)
backspace-Edits s (a ∷ line) v =
    let some_left : ltb 0 s.buffer_pos ≡ true = ground (arith, v.at_end) in
    let (con', f, v', g, _) =
      printf-prints (8 ∷ 32 ∷ 8 ∷ 0 ∷ []) white black [] s.console (8 ∷ 32 ∷ 8 ∷ []) v.valid refl in
    let (x, e) = split_last a line v.behind in
    (
      record s { buffer_pos = s.buffer_pos - 1; console = con' },
      rw (some_left, f) refl,
      record {
        behind = x ∷ v.behind;
        stored = v.stored ∙ e;
        room = v.room;
        at_end = omega (arith, v.at_end, length-without_last (a ∷ line));
        short = omega (arith, v.short, length-without_last (a ∷ line));
        is_text = without_last-IsText (a ∷ line) v.is_text;
        valid = v';
        showable = IsShowable-of_SameGrid s.console con' g v.showable;
      },
      g,
    )

interrupt-Edits : (s : Shell) (line : List ℕ) → IsEditing s line → Edits ctrl_c s line
unfolding shell_key
interrupt-Edits s line v =
    let (con', f, v', g) =
      print_lines-prints (plain "^C\n" red ∷ prompt ∷ []) s.console v.valid
        ((codes "^C\n", refl), (prompt_text, tt)) in
    (
      record s { buffer_pos = 0; console = con' },
      rw f refl,
      emptied s.input_buffer s.console con' v.room v' g v.showable,
      g,
    )

-- A printable character that still has room.
typed-edits :
    (c : ℕ) (s : Shell) (line : List ℕ)
    → IsEditing s line
    → c ≢ 0
    → length line < 255
    → (s' : Shell) × (with_console
          (record s {
            input_buffer = set s.input_buffer s.buffer_pos c;
            buffer_pos = s.buffer_pos + 1;
          })
          (print_lines (typed c ∷ []) s.console)
        ≡ some (s', []))
      × IsEditing s' (line ++ c ∷ [])
      × SameGrid s.console s'.console
typed-edits c s line v n h =
    let (x, rest, e) = next_byte s line v in
    let (con', f, v', g) =
      print_lines-prints (typed c ∷ []) s.console v.valid ((c % 2 ^ 8 ∷ [], refl), tt) in
    let stored : set s.input_buffer s.buffer_pos c ≡ line ++ c ∷ rest =
      rw (e, v.at_end) (set-append line rest x c) in
    let same_length = length-append line (c ∷ rest) in
    (
      record {
        input_buffer = set s.input_buffer s.buffer_pos c;
        buffer_pos = s.buffer_pos + 1;
        console = con';
      },
      rw f refl,
      record {
        behind = rest;
        stored = stored ∙ append_one line rest c;
        room =
            ap length stored
            ∙ omega (arith, same_length, length-append line (x ∷ rest), ap length e, v.room);
        at_end = omega (arith, v.at_end, length-append line (c ∷ []));
        short = omega (arith, h, length-append line (c ∷ []));
        is_text = append_one-IsText line c v.is_text n;
        valid = v';
        showable = IsShowable-of_SameGrid s.console con' g v.showable;
      },
      g,
    )

other-Edits :
    (c : ℕ) (s : Shell) (line : List ℕ)
    → IsEditing s line
    → c ≢ key_enter
    → c ≢ key_backspace
    → c ≢ ctrl_c
    → c ≢ ctrl_l
    → Edits c s line
unfolding shell_key
other-Edits c s line v n10 n8 n3 n12 =
    let b10 : (c == key_enter) ≡ false = ground arith in
    let b8 : (c == key_backspace) ≡ false = ground arith in
    let b3 : (c == ctrl_c) ≡ false = ground arith in
    let b12 : (c == ctrl_l) ≡ false = ground arith in
    elim (Bool-cases (leb 32 c && leb c 126 && ltb s.buffer_pos (input_size - 1))) [
      | inl printable ↦
          let printable' : (leb 32 c && leb c 126 && ltb (length line) (input_size - 1)) ≡ true =
            ground (arith, printable, v.at_end) in
          let (s', e, v', g) =
            typed-edits c s line v (ground (arith, printable)) (ground (arith, printable')) in
          rw (b10, b8, b3, b12, printable, printable') (s', e, v', g)
      | inr not_printable ↦
          let not_printable' : (leb 32 c && leb c 126 && ltb (length line) (input_size - 1))
              ≡ false =
            ground (arith, not_printable, v.at_end) in
          rw (b10, b8, b3, b12, not_printable, not_printable') (s, refl, v, SameGrid-refl s.console)
    ]

-- Every key has a defined result on a shell that is editing a line: the shell goes on with the edited
-- line in its buffer, on a valid console, and the only port access is the one of the command that
-- Enter carries out, which the typed line names. The grid stays, and no memory but pixels of the
-- screen is written.
pub shell_key_lem :
    (c : ℕ) (s : Shell) (line : List ℕ)
    → IsEditing s line
    → (s' : Shell) × (shell_key c s ≡ some (s', key_events c line))
      × IsEditing s' (edit c line)
      × SameGrid s.console s'.console
unfolding shell_key
shell_key_lem c s line v = elim (ℕ_discrete c key_enter) [
  | yes e ↦ rw e (enter-edits s line v)
  | no e ↦ elim (ℕ_discrete c key_backspace) [
    | yes f ↦ rw f (backspace-Edits s line v)
    | no f ↦ elim (ℕ_discrete c ctrl_c) [
      | yes g ↦ rw g (interrupt-Edits s line v)
      | no g ↦ elim (ℕ_discrete c ctrl_l) [
        | yes h ↦ rw h (clear_line-edits s line v)
        | no h ↦ other-Edits c s line v e f g h
      ]
    ]
  ]
]
