-- ===== src/Proc.antt =====
-- Lab3/3: the two kernel modules behind /proc/Mythread_info.
pub mod Print
pub mod Hello
pub mod Tasks
mod Tests
