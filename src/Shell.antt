-- ===== src/Shell.antt =====
-- Lab2: a small shell with built-in commands, redirection, pipes and a history.
pub mod Command
pub mod Builtin
pub mod Pipeline
pub mod Single
pub mod Session
mod Fixture
mod Samples
mod Tests
