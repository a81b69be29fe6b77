-- ===== src/Fat.antt =====
-- kernel/fs/fat.c: the FAT32 file system.
pub mod Disk
pub mod Names
pub mod Table
pub mod Entries
pub mod Walk
pub mod Chain
pub mod Files
pub mod Mount
pub mod Drive
pub mod Cells
pub mod Alloc
pub mod Sectors
pub mod Parts
pub mod Stored
pub mod Placed
pub mod Rounds
pub mod Write
pub mod Release
pub mod Letters
pub mod Slots
pub mod Find
pub mod Free
pub mod Appear
pub mod Single
pub mod Kept
pub mod Save
pub mod Tests
