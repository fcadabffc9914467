-- ===== src/Console/Terminal/Keys.antt =====
-- The loop of `shell` in src/console.c on a page: what a key makes the screen show.
use valern.Prelude.{
  ℕ, suc, ◌+◌, ◌-◌, ◌%◌, ◌^◌, ◌≡◌, ◌≢◌, refl, arith, List, [], ◌∷◌, ◌++◌, some, length, ◌&&◌, leb,
  ltb, ◌==◌, ◌∙◌, sym, ap, subst, codes, true, false, Bool-cases, inl, inr, set, get_elem?,
  if◌then◌else◌,
}
use native.Mathlib.Decide.{ℕ_discrete}
use valern.Console.Screen.{Console, console_clear}
use valern.Console.Setup.{white, green, black, red}
use valern.Console.Command.{plain, process_command, info_lines}
use valern.Console.Command.Find.{command_of}
use valern.Console.Command.Lines.{IsShowable-of_SameGrid}
use valern.Console.Shell.{
  Shell, shell_key, enter, clear_line, retype, typed, prompt, key_enter, key_backspace, ctrl_c,
  ctrl_l, input_size,
}
use valern.Console.Shell.Line.{IsEditing, key_events, next_byte, set-append}
use valern.Console.Shell.Entering.{prompt_text}
use valern.Console.Terminal.{Page, Output, prints, clears, after, after_all, Shows, Draws}
use valern.Console.Terminal.Print.{
  printed, print_lines-Draws, printf-Draws, console_clear-Draws, Draws-refl, Draws-trans,
}
use valern.Console.Terminal.Facts.{say}
use valern.Console.Terminal.Commands.{command_outputs, process_command-prints, facts-of_SameGrid}

-- `%c` shows a byte.
abbrev pub bytes : List ℕ → List ℕ
bytes [] = []
bytes (c ∷ line) = c % 2 ^ 8 ∷ bytes line

abbrev pub prompts : Output
prompts = say green "valern> "

-- The last character of a line is overwritten by a space.
abbrev pub erasure : List ℕ → List Output
erasure [] = []
erasure (c ∷ line) = prints white black (8 ∷ 32 ∷ 8 ∷ []) ∷ []

-- What a key prints on a line.
abbrev pub key_outputs : List Output → ℕ → List ℕ → List Output
key_outputs facts c line =
    if c == key_enter
    then say white "\n" ∷ command_outputs facts (command_of line) line ++ prompts ∷ []
    else if c == key_backspace
    then erasure line
    else if c == ctrl_c
    then say red "^C\n" ∷ prompts ∷ []
    else if c == ctrl_l
    then clears ∷ prompts ∷ prints white black (bytes line) ∷ []
    else if leb 32 c && leb c 126 && ltb (length line) (input_size - 1)
    then prints white black (c ∷ []) ∷ []
    else []

pub after_all-append :
    (xs ys : List Output) (page : Page)
    → after_all (xs ++ ys) page ≡ after_all ys (after_all xs page)
after_all-append [] ys page = refl
after_all-append (x ∷ xs) ys page = after_all-append xs ys (after x page)

-- A key that leads to a next state, and what it has printed then.
abbrev KeyDraws : List Output → ℕ → Shell → List ℕ → Page → Type 0
KeyDraws facts c s line page =
    (s' : Shell) × (shell_key c s ≡ some (s', key_events c line))
    × Draws s.console s'.console (after_all (key_outputs facts c line) page)

retype-Draws :
    (line behind buffer : List ℕ) (i : ℕ) (con : Console) (page : Page)
    → Shows con page
    → ((k : ℕ) → get_elem? buffer (i + k) ≡ get_elem? (line ++ behind) k)
    → (con' : Console) × (retype (length line) i buffer con ≡ some con')
      × Draws con con' (after (prints white black (bytes line)) page)
unfolding retype
retype-Draws [] behind buffer i con page s e = (con, refl, Draws-refl con page s)
retype-Draws (c ∷ line) behind buffer i con page s e =
    let (mid, f, d) = print_lines-Draws (typed c ∷ []) con page s ((c % 2 ^ 8 ∷ [], refl), tt) in
    let (con', k, d') =
      retype-Draws line behind buffer (i + 1) mid (after (prints white black (c % 2 ^ 8 ∷ [])) page)
        d.shown (λ n. ap (get_elem? buffer) (omega arith) ∙ e (suc n)) in
    let here : get_elem? buffer i ≡ some c = ap (get_elem? buffer) (omega arith) ∙ e 0 in
    (con', rw (retype, here, f) k, Draws-trans con mid con' d d')

enter-Draws :
    (s : Shell) (line : List ℕ) (page : Page)
    → IsEditing s line
    → Shows s.console page
    → KeyDraws (printed (info_lines s.console)) key_enter s line page
unfolding shell_key enter
enter-Draws s line page v shown =
    let facts = printed (info_lines s.console) in
    let (x, rest, e) = next_byte s line v in
    let (con1, f, d1) =
      print_lines-Draws (plain "\n" white ∷ []) s.console page shown (((10 ∷ []), refl), tt) in
    let page1 = after (say white "\n") page in
    let (con2, h, d2) =
      process_command-prints line rest con1 page1 v.is_text
        (IsShowable-of_SameGrid s.console con1 d1.grid v.showable) d1.shown in
    let page2 = after_all (command_outputs facts (command_of line) line) page1 in
    let known : Draws con1 con2 page2 =
      subst (λ o. Draws con1 con2 (after_all (command_outputs o (command_of line) line) page1))
        (facts-of_SameGrid s.console con1 d1.grid) d2 in
    let (con3, k, d3) = print_lines-Draws (prompt ∷ []) con2 page2 known.shown (prompt_text, tt) in
    let closed : set s.input_buffer s.buffer_pos 0 ≡ line ++ 0 ∷ rest =
      rw (e, v.at_end) (set-append line rest x 0) in
    let carried_out = ap (λ l. process_command l con1) closed ∙ h in
    let all = Draws-trans s.console con1 con3 d1 (Draws-trans con1 con2 con3 known d3) in
    (
      record { input_buffer = set s.input_buffer s.buffer_pos 0; buffer_pos = 0; console = con3 },
      rw (enter, f, carried_out, k) refl,
      subst (λ p. Draws s.console con3 p)
          (sym
            (after_all-append (command_outputs facts (command_of line) line) (prompts ∷ []) page1))
          all,
    )

clear_line-Draws :
    (s : Shell) (line : List ℕ) (page : Page)
    → IsEditing s line
    → Shows s.console page
    → KeyDraws (printed (info_lines s.console)) ctrl_l s line page
unfolding shell_key clear_line
clear_line-Draws s line page v shown =
    let d0 = console_clear-Draws s.console page shown in
    let cleared = after clears page in
    let (con1, f, d1) =
      print_lines-Draws (prompt ∷ []) (console_clear s.console) cleared d0.shown
        (prompt_text, tt) in
    let (con2, k, d2) =
      retype-Draws line v.behind s.input_buffer 0 con1 (after prompts cleared) d1.shown
        (λ n. ap (get_elem? s.input_buffer) (omega arith) ∙ ap (λ l. get_elem? l n) v.stored) in
    let retyped = ap (λ n. retype n 0 s.input_buffer con1) v.at_end ∙ k in
    (
      record s { console = con2 },
      rw (clear_line, f, retyped) refl,
      Draws-trans s.console (console_clear s.console) con2 d0
          (Draws-trans (console_clear s.console) con1 con2 d1 d2),
    )

backspace-Draws :
    (facts : List Output) (s : Shell) (line : List ℕ) (page : Page)
    → IsEditing s line
    → Shows s.console page
    → KeyDraws facts key_backspace s line page
unfolding shell_key
backspace-Draws facts s [] page v shown =
    let none_left : ltb 0 s.buffer_pos ≡ false = ground (arith, v.at_end) in
    (s, rw none_left refl, Draws-refl s.console page shown)
backspace-Draws facts s (a ∷ line) page v shown =
    let some_left : ltb 0 s.buffer_pos ≡ true = ground (arith, v.at_end) in
    let (con', f, d) =
      printf-Draws (8 ∷ 32 ∷ 8 ∷ 0 ∷ []) white black [] s.console (8 ∷ 32 ∷ 8 ∷ []) page shown
        refl in
    (record s { buffer_pos = s.buffer_pos - 1; console = con' }, rw (some_left, f) refl, d)

interrupt-Draws :
    (facts : List Output) (s : Shell) (line : List ℕ) (page : Page)
    → Shows s.console page
    → KeyDraws facts ctrl_c s line page
unfolding shell_key
interrupt-Draws facts s line page shown =
    let (con', f, d) =
      print_lines-Draws (plain "^C\n" red ∷ prompt ∷ []) s.console page shown
        ((codes "^C\n", refl), (prompt_text, tt)) in
    (record s { buffer_pos = 0; console = con' }, rw f refl, d)

other-Draws :
    (facts : List Output) (c : ℕ) (s : Shell) (line : List ℕ) (page : Page)
    → IsEditing s line
    → Shows s.console page
    → c ≢ key_enter
    → c ≢ key_backspace
    → c ≢ ctrl_c
    → c ≢ ctrl_l
    → KeyDraws facts c s line page
unfolding shell_key
other-Draws facts c s line page v shown n10 n8 n3 n12 =
    let b10 : (c == key_enter) ≡ false = ground arith in
    let b8 : (c == key_backspace) ≡ false = ground arith in
    let b3 : (c == ctrl_c) ≡ false = ground arith in
    let b12 : (c == ctrl_l) ≡ false = ground arith in
    elim (Bool-cases (leb 32 c && leb c 126 && ltb s.buffer_pos (input_size - 1))) [
      | inl printable ↦
          let same : (leb 32 c && leb c 126 && ltb (length line) (input_size - 1)) ≡ true =
            ground (arith, printable, v.at_end) in
          let byte : c % 2 ^ 8 ≡ c = ground (arith, printable) in
          let (con', f, d) =
            print_lines-Draws (typed c ∷ []) s.console page shown ((c % 2 ^ 8 ∷ [], refl), tt) in
          let drawn =
            subst (λ k. Draws s.console con' (after (prints white black (k ∷ [])) page)) byte d in
          rw (b10, b8, b3, b12, printable, same)
            (
              record {
                input_buffer = set s.input_buffer s.buffer_pos c;
                buffer_pos = s.buffer_pos + 1;
                console = con';
              },
              rw f refl,
              drawn,
            )
      | inr not_printable ↦
          let same : (leb 32 c && leb c 126 && ltb (length line) (input_size - 1)) ≡ false =
            ground (arith, not_printable, v.at_end) in
          rw (b10, b8, b3, b12, not_printable, same) (s, refl, Draws-refl s.console page shown)
    ]

pub shell_key-Draws :
    (c : ℕ) (s : Shell) (line : List ℕ) (page : Page)
    → IsEditing s line
    → Shows s.console page
    → (s' : Shell) × (shell_key c s ≡ some (s', key_events c line))
      × Draws s.console s'.console
          (after_all (key_outputs (printed (info_lines s.console)) c line) page)
unfolding shell_key
shell_key-Draws c s line page v shown =
    let facts = printed (info_lines s.console) in
    elim (ℕ_discrete c key_enter) [
      | yes e ↦ rw e (enter-Draws s line page v shown)
      | no e ↦ elim (ℕ_discrete c key_backspace) [
        | yes f ↦ rw f (backspace-Draws facts s line page v shown)
        | no f ↦ elim (ℕ_discrete c ctrl_c) [
          | yes g ↦ rw g (interrupt-Draws facts s line page shown)
          | no g ↦ elim (ℕ_discrete c ctrl_l) [
            | yes h ↦ rw h (clear_line-Draws s line page v shown)
            | no h ↦ other-Draws facts c s line page v shown e f g h
          ]
        ]
      ]
    ]
