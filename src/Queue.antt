-- ===== src/Queue.antt =====
-- src/Data-Structures: the queues.
pub mod Spsc
pub mod ThreadSafe
mod Tests
