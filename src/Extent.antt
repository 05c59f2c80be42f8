-- ===== src/Extent.antt =====
-- Lab4/Lab4_Template_Optimize: osfs with files that are extents of consecutive blocks.
pub mod Types
pub mod Inode
pub mod File
pub mod Dir
pub mod Super
mod Tests
