-- ===== src/Pmm.antt =====
-- kernel/mm/pmm.c, the physical memory manager: a bitmap of 4 KiB pages.
pub mod Bitmap
pub mod Pages
pub mod Count
pub mod Run
pub mod Alloc
pub mod Free
pub mod Boot
pub mod Mark
pub mod Map
pub mod Start
mod Tests
