-- ===== src/Vfs.antt =====
-- kernel/vfs/vfs.c: the file system, with drive C in memory and drive D on the FAT partition.
pub mod Paths
pub mod Tree
pub mod Files
pub mod Dirs
mod Alike
mod Create
mod ReadWrite
mod Names
mod Mkdir
mod Valid
mod Keep
mod Steps
mod Children
mod Unlink
mod Invariant
mod Tests
