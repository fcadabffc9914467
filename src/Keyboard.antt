-- ===== src/Keyboard.antt =====
-- src/keyboard.c, the PS/2 keyboard driver: the ring buffer of typed characters, the modifier
-- keys, the two layout tables, and the driver that joins them.
pub mod Buffer
pub mod Modifiers
pub mod Layout
pub mod Driver
pub mod Tests
