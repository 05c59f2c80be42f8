-- ===== src/Threads.antt =====
-- Lab3: threads that share a counter or a matrix, and their locks.
pub mod Steps
pub mod Spin
pub mod Lock
pub mod Matrix
pub mod Counter
pub mod Greeting
mod Tests
