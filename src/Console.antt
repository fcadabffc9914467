-- ===== src/Console.antt =====
-- src/console.c and src/include/console.h: the text console on the framebuffer, `printf`, and the
-- shell.
pub mod Screen
pub mod Text
pub mod Pixels
pub mod Printf
pub mod Setup
pub mod Command
pub mod Shell
pub mod Terminal
mod Tests
