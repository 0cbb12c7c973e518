-- ===== src/Queue/PersistentPriority/Recovery.antt =====
-- What the log of a `PersistentPriorityQueue` gives back after a restart: the items with their places.
use mathlib.Core.List.{foldl, foldl-append}
use queue_as_a_service.Base.{ℕ, ◌≡◌, refl, false, List, [], ◌∷◌, ◌++◌, some, arith}
use queue_as_a_service.Log.{Log, synced, ok, add_record}
use queue_as_a_service.Queue.Fifo.{not_full}
use queue_as_a_service.Queue.Priority.{
  Entry, PriorityQueue, unbounded, pop, push_entry, enqueue_round, dequeue_round, try_dequeue,
  has_room,
}
use queue_as_a_service.Queue.PersistentPriority.{
  WalRecord, enqueued, dequeued, PersistentPriorityQueue, push, apply, open_queue, enqueue, dequeue,
}

module _ {T : Type 0} where
  -- Two queues that give the same items in the same order, now and after the same calls.
  pub record IsLike (p q : PriorityQueue T) : Type 0 where
    pub items : p.items ≡ q.items
    pub next_sequence : p.next_sequence ≡ q.next_sequence
    pub capacity : p.capacity ≡ q.capacity

  push-IsLike :
      (item : T) (priority : ℕ) (p q : PriorityQueue T)
      → IsLike p q
      → IsLike (push item priority p) (push item priority q)
  unfolding push enqueue_round push_entry has_room
  push-IsLike item priority p q l = record {
    items = ground (arith, l.items, l.next_sequence, l.capacity);
    next_sequence = ground (arith, l.items, l.next_sequence, l.capacity);
    capacity = ground (arith, l.items, l.next_sequence, l.capacity);
  }

  abbrev replayed : List (WalRecord T) → PriorityQueue T
  replayed = foldl apply unbounded

  replay-append :
      (rs : List (WalRecord T)) (r : WalRecord T) → replayed (rs ++ r ∷ []) ≡ apply (replayed rs) r
  replay-append rs r = rw foldl-append

  -- No part of a record stands in the log, and replaying it gives a queue like the one in memory.
  pub record IsDurable (q : PersistentPriorityQueue T) : Type 0 where
    pub sound : q.wal.spoiled ≡ false
    pub agrees : IsLike (replayed q.wal.records) q.queue

  pub open_queue-IsDurable : (wal : Log (WalRecord T)) → IsDurable (open_queue wal)
  unfolding open_queue
  open_queue-IsDurable wal = record {
    sound = refl;
    agrees = record { items = refl; next_sequence = refl; capacity = refl };
  }

  -- An item that is enqueued with its record written is found again with its priority and its place.
  pub enqueue_priority-IsDurable :
      (item : T) (priority : ℕ) (q : PersistentPriorityQueue T)
      → IsDurable q
      → IsDurable (enqueue synced item priority q).0
  unfolding enqueue apply
  enqueue_priority-IsDurable item priority q d = record {
    sound = d.sound;
    agrees =
        rw (d.sound, replay-append q.wal.records (enqueued item priority))
          (push-IsLike item priority (replayed q.wal.records) q.queue d.agrees);
  }

  -- If an entry comes out of the queue, its item is returned, and the log holds the rest with their priorities
  -- and places, if the record is written.
  pub dequeue_priority-IsDurable :
      (best : Entry T) (rest : List (Entry T)) (q : PersistentPriorityQueue T)
      → IsDurable q
      → pop q.queue.items ≡ some (best, rest)
      → (q' : PersistentPriorityQueue T) × (dequeue synced q ≡ some (q', ok best.item))
        × IsDurable q'
        × (q'.queue.items ≡ rest)
  unfolding dequeue dequeue_round apply try_dequeue
  dequeue_priority-IsDurable best rest q d e =
      let q' : PersistentPriorityQueue T = record {
        queue = record q.queue { items = rest; signals = not_full ∷ q.queue.signals };
        wal = add_record dequeued q.wal;
      } in
      (
        q',
        rw (e, dequeue_round, dequeue) refl,
        record {
          sound = d.sound;
          agrees =
              rw (d.sound, replay-append q.wal.records dequeued)
                (record {
                  items = ground (arith, d.agrees.items, e);
                  next_sequence = ground (arith, d.agrees.items, d.agrees.next_sequence, e);
                  capacity = ground (arith, d.agrees.items, d.agrees.capacity, e);
                });
        },
        refl,
      )
