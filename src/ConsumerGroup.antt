-- ===== src/ConsumerGroup.antt =====
-- Competing consumers with leases, crates/qaas-core/src/consumer_group.rs. A method takes the readings of
-- the clock, the random draws and the course of its log writes as arguments, and is split where it gives
-- up the lock and looks again.
pub mod State
pub mod Recovery
pub mod Messages
pub mod Enqueue
pub mod Resolve
pub mod Stream
pub mod Claiming
pub mod Letters
pub mod Conservation
pub mod Durability
pub mod Rounds
pub mod Checkpoints
pub mod Tests
pub mod Leases
pub mod Keys
pub mod Restart
pub mod Course
pub mod Attempts
pub mod Tokens
pub mod History
pub mod Redelivery
pub mod Keyed
pub mod Updates
pub mod Racing
pub mod Deduplication
pub mod Schedules
pub mod Collisions
