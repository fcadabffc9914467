-- ===== src/Console/Shell/Entering.antt =====
-- The keys of `shell` in src/console.c that print the prompt again: Enter, and the one that clears the
-- screen.
use valern.Prelude.{
  ℕ, ◌≡◌, refl, arith, List, [], ◌∷◌, ◌++◌, some, set, length, ◌∙◌, ap, codes, length-append,
}
use valern.Console.Screen.{Console, console_clear}
use valern.Console.Text.Cursor.{console_clear-IsValid}
use valern.Console.Text.Grid.{IsValid, SameGrid}
use valern.Console.Text.Travel.{SameGrid-trans}
use valern.Console.Printf.Output.{print_lines-prints, Renders}
use valern.Console.Command.{plain, process_command}
use valern.Console.Command.Find.{command_of}
use valern.Console.Command.Perform.{events_of, process_command_lem}
use valern.Console.Command.Lines.{IsShowable, IsShowable-of_SameGrid}
use valern.Console.Shell.{Shell, enter, clear_line, prompt}
use valern.Console.Setup.{white}
use valern.Console.Shell.Line.{IsEditing, next_byte, retype-prints, set-append}

-- An emptied line in a buffer of the same length.
pub emptied :
    (buffer : List ℕ) (con con' : Console)
    → length buffer ≡ 256
    → IsValid con'
    → SameGrid con con'
    → IsShowable con
    → IsEditing (record { input_buffer = buffer; buffer_pos = 0; console = con' }) []
emptied buffer con con' r v g n = record {
  behind = buffer;
  stored = refl;
  room = r;
  at_end = refl;
  short = omega arith;
  is_text = tt;
  valid = v;
  showable = IsShowable-of_SameGrid con con' g n;
}

-- The same line on another console.
redrawn :
    (s : Shell) (line : List ℕ) (con' : Console)
    → IsEditing s line
    → IsValid con'
    → SameGrid s.console con'
    → IsEditing (record s { console = con' }) line
redrawn s line con' e v g = record {
  behind = e.behind;
  stored = e.stored;
  room = e.room;
  at_end = e.at_end;
  short = e.short;
  is_text = e.is_text;
  valid = v;
  showable = IsShowable-of_SameGrid s.console con' g e.showable;
}

pub prompt_text : Renders prompt
prompt_text = (codes "valern> ", refl)

pub enter-edits :
    (s : Shell) (line : List ℕ)
    → IsEditing s line
    → (s' : Shell) × (enter s ≡ some (s', events_of (command_of line)))
      × IsEditing s' []
      × SameGrid s.console s'.console
unfolding enter
enter-edits s line v =
    let (x, rest, e) = next_byte s line v in
    let (con1, f, v1, g1) =
      print_lines-prints (plain "\n" white ∷ []) s.console v.valid (((10 ∷ []), refl), tt) in
    let (con2, h, v2, g2) =
      process_command_lem line rest con1 v.is_text v1
        (IsShowable-of_SameGrid s.console con1 g1 v.showable) in
    let (con3, k, v3, g3) = print_lines-prints (prompt ∷ []) con2 v2 (prompt_text, tt) in
    let closed : set s.input_buffer s.buffer_pos 0 ≡ line ++ 0 ∷ rest =
      rw (e, v.at_end) (set-append line rest x 0) in
    let whole : length (line ++ 0 ∷ rest) ≡ 256 =
      omega (
        arith,
        length-append line (0 ∷ rest),
        length-append line (x ∷ rest),
        ap length e,
        v.room,
      ) in
    let carried_out = ap (λ l. process_command l con1) closed ∙ h in
    let grid = SameGrid-trans s.console con1 con3 g1 (SameGrid-trans con1 con2 con3 g2 g3) in
    (
      record { input_buffer = set s.input_buffer s.buffer_pos 0; buffer_pos = 0; console = con3 },
      rw (enter, f, carried_out, k) refl,
      emptied (set s.input_buffer s.buffer_pos 0) s.console con3 (ap length closed ∙ whole) v3 grid
          v.showable,
      grid,
    )

pub clear_line-edits :
    (s : Shell) (line : List ℕ)
    → IsEditing s line
    → (s' : Shell) × (clear_line s ≡ some (s', []))
      × IsEditing s' line
      × SameGrid s.console s'.console
unfolding clear_line
clear_line-edits s line v =
    let (v0, g0) = console_clear-IsValid s.console v.valid in
    let (con1, f, v1, g1) =
      print_lines-prints (prompt ∷ []) (console_clear s.console) v0 (prompt_text, tt) in
    let (con2, k, v2, g2) =
      retype-prints s.buffer_pos 0 s.input_buffer con1 v1
        (omega (arith, v.at_end, v.short, v.room)) in
    let grid =
      SameGrid-trans s.console (console_clear s.console) con2 g0
        (SameGrid-trans (console_clear s.console) con1 con2 g1 g2) in
    (record s { console = con2 }, rw (clear_line, f, k) refl, redrawn s line con2 v v2 grid, grid)
