-- ===== src/Heap.antt =====
-- kernel/mm/heap.c: the allocator of bytes, a list of free blocks in the memory that it serves.
pub mod Blocks
pub mod Insert
pub mod Alloc
pub mod Release
mod Tests
mod Chain
mod Relink
mod Place
mod Store
mod Splice
mod Join
mod Free
mod Freed
mod Kfree
mod Exhausted
