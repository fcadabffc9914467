-- ===== src/Kernel/Display.antt =====
-- `kernel` of src/main.c and the loop of its shell: what the screen shows.
use valern.Prelude.{
  ℕ, ◌≡◌, refl, ◌∙◌, List, [], ◌∷◌, ◌++◌, some, length, Every, true, ◌<◌, ◌^◌, sym, ap, subst, suc,
  same_result,
}
use valern.Port.{Io}
use valern.Psf.{PsfFont, psf_load_font}
use valern.Keyboard.Driver.{Irq}
use valern.Keyboard.Driver.Init.{Session, IsSession}
use valern.Console.Screen.{Framebuffer, Console}
use valern.Console.Text.Memory.{IsScreen}
use valern.Console.Setup.{blue, green, gray, black, init_shell}
use valern.Console.Setup.Usable.{IsUsable, IsSized, cells}
use valern.Console.Setup.Init.{Chooses}
use valern.Console.Command.Lines.{rendered}
use valern.Console.Printf.Output.{Renders}
use valern.Console.Shell.{Shell}
use valern.Console.Shell.Loop.{shell_loop, waits, settled}
use valern.Console.Shell.Session.{all_events}
use valern.Console.Terminal.{Output, after_all, Shows}
use valern.Console.Terminal.Print.{print_lines-Draws}
use valern.Console.Terminal.Facts.{say, info_outputs, info_lem}
use valern.Console.Terminal.Keys.{after_all-append, prompts}
use valern.Console.Terminal.Session.{session_outputs, shell_keys-Draws}
use valern.Console.Terminal.Start.{HasBytes, first_page, greeting, init_shell-Shows}
use valern.Kernel.{System, Image, in_shell, kernel}
use valern.Kernel.Boot.{IsLoaded, kernel_lem, boot_lines, Prints}
use valern.Kernel.Serving.{loop_serves, typed_on}
use valern.Console.Setup.Unready.{IsUnready}
use valern.Kernel.Taken.{Taken, taken_by, arrivals_of, taken_inputs}

-- The messages of the kernel, and the shell's prompt.
abbrev pub boot_outputs : List Output
boot_outputs =
    say blue "Initializing interrupts...\n"
    ∷ say green "Interrupts initialized!\n"
    ∷ say blue "Initializing keyboard...\n"
    ∷ say green "Keyboard initialized!\n"
    ∷ say blue "GDT TSS Started!\n\n"
    ∷ say gray "Welcome to Valern!\n"
    ∷ say gray "A minimal operating system.\n\n"
    ∷ prompts
    ∷ []

-- A console of the sizes that the font and the screen give; the rest of it is no fact that `info` shows.
abbrev pub described : PsfFont → Framebuffer → Console
described font fb = record {
  fb = fb;
  cursor_x = 0;
  cursor_y = 0;
  width = cells fb.width font.width;
  height = cells fb.height font.height;
  fg_color = gray;
  bg_color = black;
  scale = 2;
  font = font;
}

facts-of_IsSized :
    (con : Console) (font : PsfFont) (fb : Framebuffer)
    → IsSized con font fb
    → info_outputs con ≡ info_outputs (described font fb)
facts-of_IsSized con font fb z =
    rw
      (
        z.font_is, z.scale_is, z.width_is, z.height_is, z.screen_is.width_same,
        z.screen_is.height_same,
      )
      refl

boot-Renders : Every Renders boot_lines
boot-Renders = rendered boot_lines refl

-- The console that the shell finds shows the messages.
booted-Shows :
    (image : Image) (fb : Framebuffer) (font : PsfFont) (m : System) (s : Shell)
    → IsUnready m.console
    → Chooses m.console
        (psf_load_font (some m.console.font) (some image.default_psf) (length image.default_psf))
        font
    → IsUsable font fb
    → IsScreen fb
    → HasBytes font
    → Prints image fb m s
    → Shows s.console (
        after_all
          (greeting (
              psf_load_font
                (some m.console.font)
                (some image.default_psf)
                (length image.default_psf))
            ++ boot_outputs)
          (first_page font fb))
unfolding init_shell
booted-Shows image fb font m s ready choice u screen b (con, e, printed_all) =
    let result =
      psf_load_font (some m.console.font) (some image.default_psf) (length image.default_psf) in
    let (con1, f, shown) =
      init_shell-Shows image.default_psf fb m.console font ready choice u screen b in
    let same : con1 ≡ con = same_result f e in
    let page = after_all (greeting result) (first_page font fb) in
    let (con2, g, d) =
      print_lines-Draws boot_lines con page (subst (λ k. Shows k page) same shown) boot-Renders in
    let ended : con2 ≡ s.console = same_result g printed_all in
    subst (λ p. Shows s.console p)
      (sym (after_all-append (greeting result) boot_outputs (first_page font fb)))
      (subst (λ k. Shows k (after_all boot_outputs page)) ended d.shown)

-- The kernel that has reached the shell, under the conditions and with the interrupts of `kernel_lem`, and
-- then gets, each at a `hlt` of the shell, any keyboard interrupts that bring bytes, waits with a screen that shows, on the grid of whole cells, exactly what these outputs make of the pixels
-- that the bootloader left: the greeting of the font that is in use, the kernel's messages and the
-- prompt, then for each key, those typed before the shell waited and those that the scancodes type, its
-- echo, and for each entered line the output of its command and the next prompt. The screen's rows are
-- to fit into its memory, and the font is to have room on it and a glyph for every byte.
pub kernel-Shows :
    (taken : Taken) (image : Image) (session : Session) (a1 a2 : ℕ) (rest : List ℕ) (m : System)
    (fb : Framebuffer) (others : List Framebuffer) (font : PsfFont) (irqs : List Irq)
    → IsLoaded m
    → image.stub_address < 2 ^ 64
    → length image.garbage ≡ 256
    → Chooses m.console
        (psf_load_font (some m.console.font) (some image.default_psf) (length image.default_psf))
        font
    → IsUsable font fb
    → IsScreen fb
    → HasBytes font
    → IsSession session
    → Every (λ (irq : Irq). irq.scancode < 256) irqs
    → let typed = typed_on irqs (taken_by taken m.keyboard) in
      (m' : System) × (s : Shell) × (io' : Io) × (s' : Shell) × (kernel
          (arrivals_of taken)
          image
          (record { base_revision_supported = true; framebuffers = some (fb ∷ others) })
          m
          (record { inputs = a1 ∷ a2 ∷ taken_inputs taken session rest; trace = [] })
        ≡ some (in_shell m' s, io'))
      × (shell_loop (suc (length typed)) irqs m'.keyboard s ≡ waits s' (all_events typed []))
      × Shows s'.console (
          after_all
            ((greeting (
                  psf_load_font
                    (some m.console.font)
                    (some image.default_psf)
                    (length image.default_psf))
                ++ boot_outputs)
              ++ session_outputs (info_outputs (described font fb)) typed [])
            (first_page font fb))
kernel-Shows taken image session a1 a2 rest m fb others font irqs loaded b l choice u screen glyphs
      h bytes =
    let (m', s, io', e, _, same, serving, prints) =
      kernel_lem taken image session a1 a2 rest m fb others font loaded b l choice u h in
    let typed = typed_on irqs (taken_by taken m.keyboard) in
    let result =
      psf_load_font (some m.console.font) (some image.default_psf) (length image.default_psf) in
    let page = after_all (greeting result ++ boot_outputs) (first_page font fb) in
    let shown =
      booted-Shows image fb font m s loaded.console_unready choice u screen glyphs prints in
    let (s', f, _, d) = shell_keys-Draws typed s [] page serving.editing shown in
    let facts =
      info_lem s.console serving.editing.showable
      ∙ facts-of_IsSized s.console font fb serving.sizes in
    (
      m',
      s,
      io',
      s',
      e,
      loop_serves irqs (taken_by taken m.keyboard) m'.keyboard s bytes same serving.keyboard_ready
          ∙ ap settled f,
      subst (λ p. Shows s'.console p)
          (sym (
            after_all-append (greeting result ++ boot_outputs)
              (session_outputs (info_outputs (described font fb)) typed []) (first_page font fb)))
          (subst (λ o. Shows s'.console (after_all (session_outputs o typed []) page)) facts
            d.shown),
    )
