-- ===== src/Rtc.antt =====
-- kernel/drivers/rtc.c: the clock.
pub mod Clock
pub mod Registers
pub mod Tests
