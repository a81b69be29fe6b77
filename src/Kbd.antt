-- ===== src/Kbd.antt =====
-- kernel/drivers/kbd.c: the keyboard.
pub mod Keys
pub mod Queue
pub mod Letters
pub mod Tests
