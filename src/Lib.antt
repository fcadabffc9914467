-- ===== src/Lib.antt =====
-- Verification of the Valern kernel, a small x86-64 kernel with a text console, a PS/2 keyboard and a
-- shell. The library models its C sources, in src/, and states what makes each part correct.
--
-- The parts, from the ports up:
--   * src/port.c is Port: `inb` and `outb` in a state monad over the bytes that the machine answers and
--     the trace of accesses. The drivers are written in it; the shell's one access, the reset of the
--     machine, is listed as an event beside its result.
--   * src/stdmem.c is Stdmem: the block functions over a memory from addresses to bytes, the string
--     functions over the bytes from a pointer to the end of its object. `none` is a read past it.
--   * src/keyboard.c is Keyboard: the ring buffer (Keyboard.Buffer), the modifier keys
--     (Keyboard.Modifiers), the scancode tables (Keyboard.Layout), and the interrupt handler, the
--     dialogue with the controller and the readers (Keyboard.Driver; what scancodes type is described
--     in Keyboard.Driver.Typing). `keyboard_getchar` halts between interrupts: it runs on the list of
--     the interrupts to come.
--   * src/interrupts.c is Interrupts: the descriptor table, the two interrupt controllers, the service
--     routine, which calls the keyboard's handler, and the assembly stub round it.
--   * src/gdt.c is Gdt: the task state segment and its descriptor.
--   * src/psf.c is Psf: the font files. src/fonts.c is Fonts: the built-in font, as its initialiser
--     writes it and as the array that it makes.
--   * src/console.c is Format (the number formatters) and Console: the framebuffer (Console.Screen, with
--     the pixels that a glyph paints in Console.Pixels and the page of cells in Console.Pixels.Page),
--     `putChar` (Console.Text, with the memory that it writes in Console.Text.Memory), `printf`
--     (Console.Printf), `load_font` and `init_shell` (Console.Setup), `process_command`
--     (Console.Command), and the loop of `shell` (Console.Shell): key by key, on the interrupts that
--     `keyboard_getchar` waits for (Console.Shell.Loop), and on the scancodes that they bring
--     (Console.Shell.Typed). Console.Terminal describes what all of it makes the screen show: a page of
--     cells, on which `printf`, the commands and the keys of the shell act with no pixel and no cursor
--     coordinate.
--   * src/main.c is Kernel: the entry point `kernel`, up to the loop of the shell or to `hcf`, and in
--     Kernel.Display the screen that the user sees.
--
-- State is passed explicitly: a function takes the static variables that it uses as a record and
-- returns them changed. Machine integers are natural numbers with the wrap-around written out. A result
-- `none` or `fault` is behaviour that C leaves undefined. Loops are recursion on the rounds to go;
-- where the code has no bound the fuel is explicit: 33 rounds for the digits of a 32-bit number, and
-- the machine's answers for the waits on the controller. The shell's loop runs for a number of rounds;
-- one more than the characters that the interrupts bring is enough for it to wait again.
--
-- Interrupts are delivered where the program waits for them, at `hlt`. Four modules deliver them also
-- elsewhere: Keyboard.Buffer.Interleaved and Keyboard.Driver.Races between the loads and stores of the
-- counters of the key buffer, Keyboard.Driver.Early between the test and the `hlt` of
-- `keyboard_getchar`, and Interrupts.Raced between the statements of `keyboard_init` that access ports,
-- which src/main.c calls with interrupts on. `kernel` takes them from `interrupts_init` on, before
-- `keyboard_init`, between its port accesses (also for the controller's own answers, which raise them
-- too) and after it (Kernel.Taken), and once the shell waits at its `hlt` only. Those within the reset at
-- the start of `keyboard_init`, and within the shell's reads of the buffer, are not part of `kernel`:
-- these modules show what they do.
--
-- The boot is described with a controller that becomes ready at every wait of `keyboard_init`. A service
-- routine that takes an answer which no other follows leaves it no such controller; README.md warns that
-- the kernel accepts no keyboard input.
--
-- Parameters: the addresses that the linker chooses, the font file, the contents of the stack, the
-- bytes that the machine answers, what the bootloader hands over, and what the compiled service routine
-- does to the registers. Not modelled: the bootloader's own header, src/include/limine.h, which is
-- another project's, and the build files. Interrupts between two statements are modelled only where
-- the paragraph on interrupts says so.
pub mod Prelude
pub mod Port
pub mod Stdmem
pub mod Keyboard
pub mod Format
pub mod Psf
pub mod Console
pub mod Fonts
pub mod Gdt
pub mod Interrupts
pub mod Kernel
