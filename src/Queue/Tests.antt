-- ===== src/Queue/Tests.antt =====
-- Queues on concrete inputs.
use queue_as_a_service.Base.{ℕ, ◌+◌, ◌≡◌, refl, false, List, [], ◌∷◌, none, some, All, total}
use queue_as_a_service.Log.{synced, rejected, Log, ok, failed}
use queue_as_a_service.Queue.Fifo.{unbounded}
use queue_as_a_service.Queue.PersistentFifo
use queue_as_a_service.Queue.PersistentFifo.{
  PersistentFifoQueue, WalRecord, enqueued, push, open_queue, enqueue, dequeue,
}
use queue_as_a_service.Queue.PersistentFifo.Recovery.{open_queue-IsDurable, dequeue-rejected_lost}
use queue_as_a_service.Queue.PersistentPriority
use queue_as_a_service.Queue.PersistentPriority.{PersistentPriorityQueue}
use queue_as_a_service.Queue.PersistentPriority.Recovery.{IsLike}
use queue_as_a_service.Queue.PersistentPriority.Courses.{
  Call, enqueues, dequeues, restarts, run_calls, open_queue-run_calls,
}
use queue_as_a_service.Queue.Priority
use queue_as_a_service.Queue.Priority.{Entry, PriorityQueue, pop, push_entry, is_before}
use queue_as_a_service.Queue.Priority.Order.{IsFirst, pop_lem}

abbrev wal : Log (WalRecord ℕ)
wal = record { records = enqueued 3 ∷ enqueued 4 ∷ enqueued 5 ∷ []; spoiled = false }

abbrev filled : PersistentFifoQueue ℕ
filled = open_queue wal

filled_items : filled.queue.items ≡ 3 ∷ 4 ∷ 5 ∷ []
unfolding open_queue PersistentFifo.apply unbounded
filled_items = refl

dequeue-rejected_lost_example :
    (q' q'' : PersistentFifoQueue ℕ) × (dequeue rejected filled ≡ some (q', failed))
    × (dequeue synced q' ≡ some (q'', ok 4))
    × ((open_queue q''.wal).queue.items ≡ 4 ∷ 5 ∷ [])
dequeue-rejected_lost_example =
    dequeue-rejected_lost 3 4 (5 ∷ []) filled (open_queue-IsDurable wal) filled_items

abbrev low : Entry ℕ
low = record { priority = 1; sequence = 0; item = 30 }

abbrev high : Entry ℕ
high = record { priority = 9; sequence = 1; item = 31 }

pop_lem_example :
    (best : Entry ℕ) × (rest : List (Entry ℕ)) × (pop (low ∷ high ∷ []) ≡ some (best, rest))
    × All (IsFirst best) rest
    × ((w : Entry ℕ → ℕ) → w best + total w rest ≡ total w (low ∷ high ∷ []))
pop_lem_example = pop_lem low (high ∷ [])

abbrev waiting : PriorityQueue ℕ
waiting = record { items = low ∷ []; capacity = none; next_sequence = 1; signals = [] }

pops_new : pop (push_entry 31 9 waiting).items ≡ some (high, low ∷ [])
unfolding pop push_entry is_before
pops_new = refl

abbrev priority_wal : Log (PersistentPriority.WalRecord ℕ)
priority_wal = record {
  records = PersistentPriority.enqueued 30 1 ∷ PersistentPriority.enqueued 31 9 ∷ [];
  spoiled = false;
}

abbrev by_priority : PersistentPriorityQueue ℕ
by_priority = PersistentPriority.open_queue priority_wal

pops_high : pop by_priority.queue.items ≡ some (high, low ∷ [])
unfolding PersistentPriority.open_queue PersistentPriority.apply Priority.unbounded pop is_before
pops_high = refl

-- A third item comes, the first of the highest priority goes, and an enqueue fails.
abbrev course : List (Call ℕ)
course =
    enqueues synced 32 9
    ∷ dequeues synced
    ∷ enqueues rejected 33 9
    ∷ restarts
    ∷ dequeues synced
    ∷ []

open_queue-run_calls_example :
    let q = run_calls course (PersistentPriority.open_queue priority_wal) in
    IsLike (PersistentPriority.open_queue q.wal).queue q.queue
open_queue-run_calls_example =
    open_queue-run_calls priority_wal course (tt, (tt, (tt, (tt, (tt, tt)))))
