-- ===== src/Queue/PersistentFifo.antt =====
-- `PersistentFifoQueue`, crates/qaas-core/src/queue/persistent_fifo.rs.
pub mod Recovery
use mathlib.Core.List.{foldl}
use queue_as_a_service.Base.{
  ℕ, ◌≡◌, refl, ap, ◌∙◌, Bool, false, List, [], ◌∷◌, ◌++◌, Option, none, some, arith,
}
use queue_as_a_service.Log.{
  Log, AppendIo, synced, unsynced, torn, rejected, Result, ok, failed, append, reopen,
}
use queue_as_a_service.Queue.Fifo.{
  FifoQueue, unbounded, enqueue_round, dequeue_round, try_dequeue, has_room,
}

pub data WalRecord (T : Type 0) : Type 0 where
  enqueued : T → WalRecord T
  dequeued : WalRecord T

pub record PersistentFifoQueue (T : Type 0) : Type 0 where
  pub queue : FifoQueue T
  pub wal : Log (WalRecord T)

module _ {T : Type 0} where
  -- A queue that has no room, where `enqueue` would wait, stays as it is; the queue of `open` is unbounded.
  unfoldable pub push : T → FifoQueue T → FifoQueue T
  unfolding enqueue_round
  push item q = elim (enqueue_round item q) [ none ↦ q | some q' ↦ q' ]

  unfoldable pub apply : FifoQueue T → WalRecord T → FifoQueue T
  unfolding push
  apply q (enqueued item) = push item q
  apply q dequeued = (try_dequeue q).0

  unfoldable pub open_queue : Log (WalRecord T) → PersistentFifoQueue T
  open_queue wal = record { queue = foldl apply unbounded wal.records; wal = reopen wal }

  unfoldable pub enqueue :
      AppendIo → T → PersistentFifoQueue T → PersistentFifoQueue T × Result (Unit {0})
  enqueue io item q =
      let (wal, logged) = append io (enqueued item) q.wal in
      elim logged [
        | failed ↦ (record q { wal = wal }, failed)
        | ok _ ↦ (record { queue = push item q.queue; wal = wal }, ok tt)
      ]

  -- One round: `none` where the queue waits.
  unfoldable pub dequeue :
      AppendIo → PersistentFifoQueue T → Option (PersistentFifoQueue T × Result T)
  dequeue io q = elim (dequeue_round q.queue) [
    | none ↦ none
    | some (queue, item) ↦
        let (wal, logged) = append io dequeued q.wal in
        let result : Result T = elim logged [ ok _ ↦ ok item | failed ↦ failed ] in
        some (record { queue = queue; wal = wal }, result)
  ]
