-- ===== src/Raft.antt =====
-- The storage of a Raft node, crates/qaas-core/src/raft/log_store.rs and state_machine.rs. The protocol is the
-- openraft crate's: the parts of a log id that it compares, and what a membership is, are parameters.
pub mod LogStore
pub mod Reading
pub mod StateMachine
pub mod Snapshots
pub mod Membership
pub mod Reconciled
pub mod Watching
pub mod Tests
use queue_as_a_service.Base.{ℕ, Option}
use queue_as_a_service.Types.{Text}

-- `L` identifies the leader that made the entry.
pub record LogId (L : Type 0) : Type 0 where
  pub leader : L
  pub index : ℕ

pub data Request : Type 0 where
  set_value : Text → Text → Request

pub record Response : Type 0 where
  pub value : Option Text

pub data EntryPayload (M : Type 0) : Type 0 where
  blank : EntryPayload M
  normal : Request → EntryPayload M
  membership : M → EntryPayload M

pub record Entry (L M : Type 0) : Type 0 where
  pub log_id : LogId L
  pub payload : EntryPayload M
