-- ===== src/Osfs.antt =====
-- Lab4/Lab4_Template_Done: the memory-based file system, one data block for each file.
pub mod Types
pub mod Inode
pub mod File
pub mod Dir
pub mod Super
pub mod Inv
mod Tests
