-- ===== src/Kernel/Stages.antt =====
-- `kernel` of src/main.c from the first message on: the interrupts, the keyboard, the shell's prompt.
use valern.Prelude.{
  ℕ, ◌≡◌, refl, ◌∙◌, List, [], ◌∷◌, some, length, codes, Every, arith, true, ◌<◌, ◌^◌, ◌≢◌, ap,
  ◌++◌, same_result,
}
use valern.Port.{M, Io, ◌>>=◌, inb, outb}
use valern.Keyboard.Driver.{deliver_all}
use valern.Keyboard.Driver.Init.{Session, IsSession}
use valern.Console.Screen.{Console}
use valern.Console.Text.Grid.{IsValid, SameGrid}
use valern.Console.Text.Travel.{SameGrid-trans}
use valern.Console.Printf.Output.{Renders, print_lines-prints, print_lines-append}
use valern.Console.Command.{Message, plain, print_lines}
use valern.Console.Command.Lines.{IsShowable, IsShowable-of_SameGrid, rendered}
use valern.Console.Shell.{Shell, shell_start, prompt}
use valern.Console.Shell.Line.{IsEditing}
use valern.Kernel.{
  System, Image, Outcome, in_shell, announce, call_shell, welcome, start_keyboard, start_interrupts,
}
use valern.Interrupts.{Interrupts, interrupts_init, pic_init}
use valern.Interrupts.Table.{handler_of, entry_at, interrupts_init_lem, IsAbsent}
use valern.Console.Setup.{green, blue}
use valern.Kernel.Taken.{Taken, taken_by, taken_inputs, arrivals_of, init_inputs, initialised_by}
use valern.Interrupts.Raced.Answers.{served_bytes, serve_runs}
use valern.Interrupts.Raced.Dialogue.{keyboard_init_with_lem}
use valern.Interrupts.Raced.{serve}

pub announce_lem :
    (lines : List Message) (m : System) (next : System → M Outcome) (io : Io)
    → IsValid m.console
    → Every Renders lines
    → (con : Console) × (announce lines m next io ≡ next (record m { console = con }) io)
      × IsValid con
      × SameGrid m.console con
      × (print_lines lines m.console ≡ some con)
announce_lem lines m next io v r =
    let (con, e, v', g) = print_lines-prints lines m.console v r in (con, rw e refl, v', g, e)

-- The shell has printed its prompt.
call_shell_lem :
    (garbage : List ℕ) (m : System) (io : Io)
    → length garbage ≡ 256
    → IsValid m.console
    → IsShowable m.console
    → (s : Shell) × (call_shell garbage m io ≡ some (in_shell m s, io))
      × IsEditing s []
      × SameGrid m.console s.console
      × (print_lines (prompt ∷ []) m.console ≡ some s.console)
unfolding shell_start
call_shell_lem garbage m io l v h =
    let (con, e, v', g) =
      print_lines-prints (prompt ∷ []) m.console v ((codes "valern> ", refl), tt) in
    (
      record { input_buffer = garbage; buffer_pos = 0; console = con },
      rw (call_shell, shell_start, e) refl,
      record {
        behind = garbage;
        stored = refl;
        room = l;
        at_end = refl;
        short = omega arith;
        is_text = tt;
        valid = v';
        showable = IsShowable-of_SameGrid m.console con g h;
      },
      g,
      e,
    )

-- What the keyboard's part of the start-up leaves, and what it does not touch.
record FromKeyboard (taken : Taken) (m m' : System) (s : Shell) : Type 0 where
  segments_same : m'.segments ≡ m.segments
  interrupts_same : m'.interrupts ≡ m.interrupts
  keyboard_is : m'.keyboard ≡ taken_by taken m.keyboard
  editing : IsEditing s []
  grid_same : SameGrid m.console s.console
  printed_lines : print_lines (welcome ++ prompt ∷ []) m.console ≡ some s.console

start_keyboard_lem :
    (taken : Taken) (image : Image) (session : Session) (rest : List ℕ) (m : System) (io : Io)
    → IsSession session
    → io.inputs ≡ taken_inputs taken session rest
    → length image.garbage ≡ 256
    → IsValid m.console
    → IsShowable m.console
    → (m' : System) × (s : Shell) × (io' : Io) × (start_keyboard (arrivals_of taken) image m io
        ≡ some (in_shell m' s, io'))
      × (io'.inputs ≡ rest)
      × FromKeyboard taken m m' s
unfolding start_keyboard
start_keyboard_lem taken image session rest m io h e l v n =
    let behind = served_bytes taken.late rest in
    let early = deliver_all taken.early m.keyboard in
    let (log1, at_early) =
      serve_runs taken.early (init_inputs taken session rest) io.trace m.keyboard in
    let (log2, at_init) = keyboard_init_with_lem taken.during session behind log1 early h in
    let (log3, at_late) = serve_runs taken.late rest log2 (initialised_by taken m.keyboard) in
    let from_io =
      ap (λ l. serve (length taken.early) m.keyboard (record { inputs = l; trace = io.trace })) e
      ∙ at_early in
    let io1 : Io = record { inputs = rest; trace = log3 } in
    let m1 = record m { keyboard = taken_by taken m.keyboard } in
    let (con, printed, v', g, all) =
      announce_lem welcome m1 (call_shell image.garbage) io1 v (rendered welcome refl) in
    let (s, called, w, g', last) =
      call_shell_lem image.garbage (record m1 { console = con }) io1 l v'
        (IsShowable-of_SameGrid m.console con g n) in
    (
      record m1 { console = con },
      s,
      io1,
      rw (start_keyboard, ◌>>=◌, from_io, at_init, at_late) (printed ∙ called),
      refl,
      record {
        segments_same = refl;
        interrupts_same = refl;
        keyboard_is = refl;
        editing = w;
        grid_same = SameGrid-trans m.console con s.console g g';
        printed_lines = print_lines-append welcome (prompt ∷ []) m.console all last;
      },
    )

-- The keyboard's interrupts reach the driver: the processor takes them, and finds the stub.
pub record IsListening (stub_address : ℕ) (interrupts : Interrupts) : Type 0 where
  pub enabled : interrupts.enabled ≡ true
  pub keyboard_gate : handler_of (entry_at interrupts.idt 0x21) ≡ stub_address
  pub others_absent : (n : ℕ) → n < 256 → n ≢ 0x21 → IsAbsent (entry_at interrupts.idt n)

interrupts_init-inputs :
    (stub address a1 a2 : ℕ) (rest : List ℕ) (s s' : Interrupts) (io' : Io)
    → interrupts_init stub address s (record { inputs = a1 ∷ a2 ∷ rest; trace = [] })
      ≡ some (s', io')
    → io'.inputs ≡ rest
unfolding interrupts_init pic_init inb outb
interrupts_init-inputs stub address a1 a2 rest s s' io' e =
    ap (λ (p : Interrupts × Io). p.1.inputs) (same_result e refl)

-- The messages between `interrupts_init` and `keyboard_init`.
abbrev pub interrupts_lines : List Message
interrupts_lines =
    plain "Interrupts initialized!\n" green ∷ plain "Initializing keyboard...\n" blue ∷ []

-- What the start-up from the interrupts on leaves.
pub record FromInterrupts (taken : Taken) (stub_address : ℕ) (m m' : System) (s : Shell)
    : Type 0 where
  pub segments_same : m'.segments ≡ m.segments
  pub listening : IsListening stub_address m'.interrupts
  pub keyboard_is : m'.keyboard ≡ taken_by taken m.keyboard
  pub editing : IsEditing s []
  pub grid_same : SameGrid m.console s.console
  pub printed_lines :
      print_lines (interrupts_lines ++ welcome ++ prompt ∷ []) m.console ≡ some s.console

pub start_interrupts_lem :
    (taken : Taken) (image : Image) (session : Session) (a1 a2 : ℕ) (rest : List ℕ) (m : System)
    → image.stub_address < 2 ^ 64
    → IsSession session
    → length image.garbage ≡ 256
    → length m.interrupts.idt ≡ 256
    → IsValid m.console
    → IsShowable m.console
    → (m' : System) × (s : Shell) × (io' : Io) × (start_interrupts
          (arrivals_of taken)
          image
          m
          (record { inputs = a1 ∷ a2 ∷ taken_inputs taken session rest; trace = [] })
        ≡ some (in_shell m' s, io'))
      × (io'.inputs ≡ rest)
      × FromInterrupts taken image.stub_address m m' s
unfolding start_interrupts
start_interrupts_lem taken image session a1 a2 rest m b h l i v n =
    let answers = taken_inputs taken session rest in
    let (ints, io1, e, gate, _, _, absent, _, on, _) =
      interrupts_init_lem image.stub_address image.idt_address a1 a2 answers m.interrupts b i in
    let left =
      interrupts_init-inputs image.stub_address image.idt_address a1 a2 answers m.interrupts ints
        io1 e in
    let m1 = record m { interrupts = ints } in
    let (con, printed, v', g, all) =
      announce_lem interrupts_lines m1 (start_keyboard (arrivals_of taken) image) io1 v
        (rendered interrupts_lines refl) in
    let m2 = record m1 { console = con } in
    let (m', s, io', f, used, kept) =
      start_keyboard_lem taken image session rest m2 io1 h left l v'
        (IsShowable-of_SameGrid m.console con g n) in
    (
      m',
      s,
      io',
      rw (start_interrupts, ◌>>=◌, e) (printed ∙ f),
      used,
      record {
        segments_same = kept.segments_same;
        listening =
            rw kept.interrupts_same
              (record { enabled = on; keyboard_gate = gate; others_absent = absent });
        keyboard_is = kept.keyboard_is;
        editing = kept.editing;
        grid_same = SameGrid-trans m.console con s.console g kept.grid_same;
        printed_lines =
            print_lines-append interrupts_lines (welcome ++ prompt ∷ []) m.console all
              kept.printed_lines;
      },
    )
