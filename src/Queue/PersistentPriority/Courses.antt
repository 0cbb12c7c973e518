-- ===== src/Queue/PersistentPriority/Courses.antt =====
-- Calls on a `PersistentPriorityQueue` one after another, with restarts between them.
use queue_as_a_service.Base.{ℕ, List, [], ◌∷◌, none, some, All, Option-cases, inl, inr}
use queue_as_a_service.Log.{Log, AppendIo, synced, unsynced, torn, rejected}
use queue_as_a_service.Queue.Priority.{dequeue_round, pop, try_dequeue}
use queue_as_a_service.Queue.PersistentPriority.{
  WalRecord, PersistentPriorityQueue, open_queue, enqueue, dequeue,
}
use queue_as_a_service.Queue.PersistentPriority.Recovery.{
  IsLike, IsDurable, open_queue-IsDurable, enqueue_priority-IsDurable, dequeue_priority-IsDurable,
}

pub data Call (T : Type 0) : Type 0 where
  enqueues : AppendIo → T → ℕ → Call T
  dequeues : AppendIo → Call T
  restarts : Call T

module _ {T : Type 0} where
  -- The queue after a call; a dequeue that waits leaves it as it is.
  unfoldable pub step : PersistentPriorityQueue T → Call T → PersistentPriorityQueue T
  step q (enqueues io item priority) = (enqueue io item priority q).0
  step q (dequeues io) = elim (dequeue io q) [ none ↦ q | some (q', _) ↦ q' ]
  step q restarts = open_queue q.wal

  unfoldable pub run_calls : List (Call T) → PersistentPriorityQueue T → PersistentPriorityQueue T
  unfolding step
  run_calls [] q = q
  run_calls (c ∷ cs) q = run_calls cs (step q c)

  -- The record of an enqueue is written or leaves no trace, and that of a dequeue is written.
  abbrev pub IsClean : Call T → Type 0
  IsClean (enqueues synced item priority) = Unit
  IsClean (enqueues unsynced item priority) = ⊥
  IsClean (enqueues torn item priority) = ⊥
  IsClean (enqueues rejected item priority) = Unit
  IsClean (dequeues synced) = Unit
  IsClean (dequeues unsynced) = ⊥
  IsClean (dequeues torn) = ⊥
  IsClean (dequeues rejected) = ⊥
  IsClean restarts = Unit

  step-IsDurable :
      (q : PersistentPriorityQueue T) (c : Call T) → IsClean c → IsDurable q → IsDurable (step q c)
  unfolding step enqueue dequeue dequeue_round try_dequeue
  step-IsDurable q (enqueues synced item priority) clean d =
      enqueue_priority-IsDurable item priority q d
  step-IsDurable q (enqueues unsynced item priority) clean d = absurd clean
  step-IsDurable q (enqueues torn item priority) clean d = absurd clean
  step-IsDurable q (enqueues rejected item priority) clean d = record {
    sound = d.sound;
    agrees = d.agrees;
  }
  step-IsDurable q (dequeues synced) clean d = elim (Option-cases (pop q.queue.items)) [
    | inl e ↦ rw (e, dequeue_round, dequeue, step) d
    | inr ((best, rest), e) ↦
        let (q', same, d', _) = dequeue_priority-IsDurable best rest q d e in rw (same, step) d'
  ]
  step-IsDurable q (dequeues unsynced) clean d = absurd clean
  step-IsDurable q (dequeues torn) clean d = absurd clean
  step-IsDurable q (dequeues rejected) clean d = absurd clean
  step-IsDurable q restarts clean d = open_queue-IsDurable q.wal

  run_calls-IsDurable :
      (cs : List (Call T)) (q : PersistentPriorityQueue T)
      → All IsClean cs
      → IsDurable q
      → IsDurable (run_calls cs q)
  unfolding run_calls
  run_calls-IsDurable [] q clean d = d
  run_calls-IsDurable (c ∷ cs) q (clean, rest) d =
      run_calls-IsDurable cs (step q c) rest (step-IsDurable q c clean d)

  -- A queue that is opened from any log, and then used and restarted in any order, has after a further restart the
  -- same items in the same order with the same priorities and places, the same number for the next item and
  -- the same capacity, if each record of an enqueue was written or left no trace and each record of a
  -- dequeue was written.
  pub open_queue-run_calls :
      (wal : Log (WalRecord T)) (cs : List (Call T))
      → All IsClean cs
      → let q = run_calls cs (open_queue wal) in IsLike (open_queue q.wal).queue q.queue
  unfolding open_queue
  open_queue-run_calls wal cs clean =
      (run_calls-IsDurable cs (open_queue wal) clean (open_queue-IsDurable wal)).agrees
