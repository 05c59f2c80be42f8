-- ===== src/Mailbox.antt =====
-- Lab1: a sender and a receiver that pass the lines of a file through a mailbox, a message queue or
-- a piece of shared memory, under two semaphores.
pub mod Ipc
pub mod Text
pub mod Lines
pub mod Program
pub mod Invariant
pub mod Exits
pub mod Ending
pub mod Measure
pub mod Delivery
pub mod Setup
mod Tests
