-- ===== src/Queue/PersistentPriority.antt =====
-- `PersistentPriorityQueue`, crates/qaas-core/src/queue/persistent_priority.rs.
pub mod Recovery
pub mod Courses
use mathlib.Core.List.{foldl}
use queue_as_a_service.Base.{ℕ, Option, none, some}
use queue_as_a_service.Log.{Log, AppendIo, Result, ok, failed, append, reopen}
use queue_as_a_service.Queue.Priority.{
  PriorityQueue, unbounded, enqueue_round, dequeue_round, try_dequeue,
}

pub data WalRecord (T : Type 0) : Type 0 where
  enqueued : T → ℕ → WalRecord T
  dequeued : WalRecord T

pub record PersistentPriorityQueue (T : Type 0) : Type 0 where
  pub queue : PriorityQueue T
  pub wal : Log (WalRecord T)

module _ {T : Type 0} where
  -- A queue that has no room, where `enqueue` would wait, stays as it is; the queue of `open` is unbounded.
  unfoldable pub push : T → ℕ → PriorityQueue T → PriorityQueue T
  unfolding enqueue_round
  push item priority q = elim (enqueue_round item priority q) [ none ↦ q | some q' ↦ q' ]

  unfoldable pub apply : PriorityQueue T → WalRecord T → PriorityQueue T
  unfolding push
  apply q (enqueued item priority) = push item priority q
  apply q dequeued = (try_dequeue q).0

  unfoldable pub open_queue : Log (WalRecord T) → PersistentPriorityQueue T
  open_queue wal = record { queue = foldl apply unbounded wal.records; wal = reopen wal }

  unfoldable pub enqueue :
      AppendIo → T → ℕ → PersistentPriorityQueue T → PersistentPriorityQueue T × Result (Unit {0})
  enqueue io item priority q =
      let (wal, logged) = append io (enqueued item priority) q.wal in
      elim logged [
        | failed ↦ (record q { wal = wal }, failed)
        | ok _ ↦ (record { queue = push item priority q.queue; wal = wal }, ok tt)
      ]

  -- One round: `none` where the queue waits.
  unfoldable pub dequeue :
      AppendIo → PersistentPriorityQueue T → Option (PersistentPriorityQueue T × Result T)
  dequeue io q = elim (dequeue_round q.queue) [
    | none ↦ none
    | some (queue, item) ↦
        let (wal, logged) = append io dequeued q.wal in
        let result : Result T = elim logged [ ok _ ↦ ok item | failed ↦ failed ] in
        some (record { queue = queue; wal = wal }, result)
  ]
