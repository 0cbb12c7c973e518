-- ===== src/Queue.antt =====
-- The queues in crates/qaas-core/src/queue.
pub mod Fifo
pub mod Priority
pub mod PersistentFifo
pub mod PersistentPriority
pub mod Tests
