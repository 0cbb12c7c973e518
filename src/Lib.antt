-- ===== src/Lib.antt =====
-- A verification library for the queue engine in crates/qaas-core, its message types in crates/qaas-types and
-- its server in crates/qaas-server.
--
-- The engine keeps messages for competing consumers. A consumer group (crates/qaas-core/src/consumer_group.rs)
-- has its messages pending, leased or delayed in memory and writes a record of every change that matters to a
-- write-ahead log (wal.rs); a delivery that fails too often (retry.rs) moves its message to a dead-letter
-- queue (dead_letter.rs) with a log of its own. Around it stand simpler queues (queue/), a circuit breaker with
-- a fallback cache (circuit_breaker.rs), request quotas (quota.rs) and token budgets (admission.rs).
-- The server (crates/qaas-server/src/mcp.rs) keeps one consumer group, one budget and one index of embeddings
-- (semantic.rs) for each queue of each tenant, and one quota for each tenant; it authenticates a tenant by an API
-- key (auth.rs) or a signed token (http_auth.rs), and logs what it does (audit.rs). A Raft node (raft/) has a log
-- store, a state machine and a watcher of the membership.
--
-- Files:
--   Base            names and lemmas that all files share: tests, lists, association lists, sums over lists
--   Wal             wal.rs on the bytes of the file: `read_exact_or_eof`, `replay`, `open_log` (`Wal::open`),
--                   `append`; Wal.Reading and Wal.Framing are about one read and one frame, Wal.Crash about
--                   what is found after a crash, Wal.Ending about files of any bytes;
--                   Wal.Refinement compares it with Log
--   Log             the log as its clients see it, a list of records; `AppendIo` is the course of one append
--   Types           crates/qaas-types/src/ids.rs: message ids and idempotency keys
--   Retry           retry.rs: `delay_for`, `is_exhausted`
--   DeadLetter      dead_letter.rs: `add_letter` (`record`), `take_letter` (`take`), `annotate`, `open_queue`
--   ConsumerGroup   consumer_group.rs. State: its data. Recovery: `open`. Enqueue, Resolve, Stream, Claiming,
--                   Letters: its methods; `claim_round` is one round of `claim`. Messages: the messages of a
--                   group as weights. Conservation, Durability, Rounds, Updates, Keyed, Redelivery: what each
--                   call keeps. Leases, Keys, Checkpoints: leases, timers, idempotency keys and
--                   checkpoints. Course: any calls on a group between two restarts; Tokens, Attempts: the
--                   tokens and the delivery counts over such a course. Restart: what `open` makes of it. History: all calls together.
--                   Racing: `enqueue_with_id_and_key` and `ack` in parts. Deduplication, Schedules, Collisions:
--                   what the parts keep, in any order, and what they do to each other
--   CircuitBreaker  circuit_breaker.rs: the breaker, with Fallback (`FallbackCache`, `HybridGuard`)
--   Quota           quota.rs: the sliding window
--   Admission       admission.rs: the sliding window over tokens and costs
--   Queue           queue/fifo.rs, queue/priority.rs, queue/persistent_fifo.rs, queue/persistent_priority.rs
--                   PersistentFifo.Recovery, PersistentPriority.Courses: what a restart finds
--   Auth            auth.rs: `new_tenant_id`, the store of API keys. Names, Hex: texts. Credentials, Restart: what
--                   the store answers after calls and after a restart
--   Semantic        semantic.rs: `cosine_similarity`, `nearest`
--   Audit           audit.rs: calls, takings and writes as steps. Accounts, Draining: where the events are
--   Raft            raft/. LogStore: log_store.rs, with Reading. StateMachine: state_machine.rs, with Snapshots.
--                   Membership: membership.rs, with Reconciled (one poll) and Watching (the loop)
--   Envelope        crates/qaas-types/src: envelope.rs, version.rs, timestamp.rs
--   Server          crates/qaas-server/src. Answers: calls with state and errors. Registry, State: `QueueRegistry`
--                   and `QaasMcpServer`. Producing, Consuming, Settings, Letters, Credentials: the tools, each
--                   `_impl` of the source, and http_auth.rs. Dashboard: the snapshots. Requests: all tools as one
--                   type, with their answers. Frames: a logic of calls, in which what holds of the steps on
--                   what belongs to the caller holds of every tool; Keeping and Views use it for relations
--                   between the registry before and after, and for two registries that one tenant cannot
--                   tell apart. Scopes, Isolation, Interference, Keyed: keys and tenants. Limits,
--                   Spending: quotas and budgets. Login: the check of a request
--   Tests modules   concrete inputs
--
-- State is passed explicitly: a method takes the state, the readings of the clock, the random draws and the
-- course of its writes, and returns the new state with its result. A method that holds one lock is one step; one
-- that waits is one round of its loop, which ends in a result or in the wait. Maps are association lists, times
-- and durations are natural numbers, and u32 and u64 wrap around where the source adds.
--
-- Parameters: JSON encoding and CRC-32 (`Codec`, with the round trip and the 32-bit bound), the arithmetic of f64
-- (`Float` and `Cost`, no laws), fresh ids (an argument), the text of a UUID (`to_text`), the
-- arithmetic of f32 with the order of `total_cmp`, SHA-256, the verification of a token, and what openraft does.
--
-- Fuel: `fill` has as much as bytes are wanted and reads at least one each round; `replay_loop` has one more than
-- the file has bytes and takes 8 at least each round. Wal.Ending is about both.
-- `BinaryHeap` is the list of its entries with the greatest taken out. An append that fails in the middle spoils
-- the log for the records behind it, as `replay` stops there.
-- A call with a token that is not the lease's leaves the leases as they are, where the source takes the lease out
-- and puts it back under the same lock; `from_secs` is total, where `Duration::from_secs_f64` panics on a
-- negative or non-finite value; a write that is under way when a claim is given up is taken as not begun.
--
-- Not modelled: the Raft network, the start of the server, HTTP and JSON-RPC, metrics, the texts of errors and log
-- lines, and interleavings inside a tool call or, but for `enqueue_with_id_and_key` and `ack`, inside a method that gives up
-- its lock.
pub mod Envelope
pub mod Raft
pub mod Server
pub mod Audit
pub mod Semantic
pub mod Auth
pub mod Base
pub mod Wal
pub mod Log
pub mod Types
pub mod Retry
pub mod DeadLetter
pub mod ConsumerGroup
pub mod CircuitBreaker
pub mod Quota
pub mod Admission
pub mod Queue
