-- ===== src/Elf.antt =====
-- kernel/process/elf.c: the loader of ELF64 executables. The file lies in memory at the address
-- `data`, and is read there while segments are written.
pub mod Load
pub mod Copy
pub mod Segments
pub mod Rounds
pub mod Accept
pub mod Checks
pub mod Refuse
mod Tests
