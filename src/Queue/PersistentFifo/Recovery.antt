-- ===== src/Queue/PersistentFifo/Recovery.antt =====
-- What the log of a `PersistentFifoQueue` gives back after a restart.
use mathlib.Core.List.{foldl, foldl-append}
use queue_as_a_service.Base.{◌≡◌, refl, ◌∙◌, false, List, [], ◌∷◌, ◌++◌, none, some, arith}
use queue_as_a_service.Log.{Log, synced, rejected, ok, failed, add_record}
use queue_as_a_service.Queue.Fifo.{
  FifoQueue, not_full, unbounded, enqueue_round, dequeue_round, try_dequeue, has_room,
}
use queue_as_a_service.Queue.PersistentFifo.{
  WalRecord, enqueued, dequeued, PersistentFifoQueue, push, apply, open_queue, enqueue, dequeue,
}

-- The first item goes.
abbrev pub rest_of : {T : Type 0} → List T → List T
rest_of [] = []
rest_of (x ∷ xs) = xs

module _ {T : Type 0} where
  apply-enqueued :
      (item : T) (q : FifoQueue T)
      → q.capacity ≡ none
      → (apply q (enqueued item)).items ≡ q.items ++ item ∷ []
        × ((apply q (enqueued item)).capacity ≡ none)
  unfolding apply push enqueue_round has_room
  apply-enqueued item q h = (ground (arith, h), ground (arith, h))

  apply-dequeued :
      (q : FifoQueue T)
      → (apply q dequeued).items ≡ rest_of q.items × ((apply q dequeued).capacity ≡ q.capacity)
  unfolding apply try_dequeue
  apply-dequeued q = (ground arith, ground arith)

  abbrev replayed : List (WalRecord T) → FifoQueue T
  replayed = foldl apply unbounded

  -- The queue in memory is unbounded, as `open` makes it; no part of a record stands in the log; and
  -- the log holds the items of the queue, in order.
  pub record IsDurable (q : PersistentFifoQueue T) : Type 0 where
    pub unlimited : q.queue.capacity ≡ none
    pub sound : q.wal.spoiled ≡ false
    pub agrees : (replayed q.wal.records).items ≡ q.queue.items
    pub replays_unlimited : (replayed q.wal.records).capacity ≡ none

  replay-append :
      (rs : List (WalRecord T)) (r : WalRecord T) → replayed (rs ++ r ∷ []) ≡ apply (replayed rs) r
  replay-append rs r = rw foldl-append

  replayed_unlimited :
      (rs : List (WalRecord T)) (q : FifoQueue T)
      → q.capacity ≡ none
      → (foldl apply q rs).capacity ≡ none
  replayed_unlimited [] q h = h
  replayed_unlimited (enqueued item ∷ rs) q h =
      replayed_unlimited rs (apply q (enqueued item)) (apply-enqueued item q h).1
  replayed_unlimited (dequeued ∷ rs) q h =
      replayed_unlimited rs (apply q dequeued) ((apply-dequeued q).1 ∙ h)

  -- A queue that was opened has the items that its log holds.
  pub open_queue-IsDurable : (wal : Log (WalRecord T)) → IsDurable (open_queue wal)
  unfolding open_queue unbounded
  open_queue-IsDurable wal = record {
    unlimited = replayed_unlimited wal.records unbounded refl;
    sound = refl;
    agrees = refl;
    replays_unlimited = replayed_unlimited wal.records unbounded refl;
  }

  -- An item whose record is written is at the end of the queue, and the log still holds the items of
  -- the queue, in order.
  pub enqueue-IsDurable :
      (item : T) (q : PersistentFifoQueue T)
      → IsDurable q
      → IsDurable (enqueue synced item q).0
        × ((enqueue synced item q).0.queue.items ≡ q.queue.items ++ item ∷ [])
  unfolding enqueue push enqueue_round has_room
  enqueue-IsDurable item q d =
      let (items, capacity) = apply-enqueued item (replayed q.wal.records) d.replays_unlimited in
      (
        record {
          unlimited = ground (arith, d.unlimited);
          sound = ground (arith, d.sound);
          agrees = rw d.sound (
              ground
                (arith, replay-append q.wal.records (enqueued item), items, d.agrees, d.unlimited));
          replays_unlimited =
              rw d.sound (ground (arith, replay-append q.wal.records (enqueued item), capacity));
        },
        ground (arith, d.unlimited),
      )

  -- From a queue that is not empty the first item is returned, and the log still holds the items of the
  -- queue, in order, if the record is written.
  pub dequeue-IsDurable :
      (item : T) (rest : List T) (q : PersistentFifoQueue T)
      → IsDurable q
      → q.queue.items ≡ item ∷ rest
      → (q' : PersistentFifoQueue T) × (dequeue synced q ≡ some (q', ok item))
        × IsDurable q'
        × (q'.queue.items ≡ rest)
  unfolding dequeue dequeue_round
  dequeue-IsDurable item rest q d e =
      let (items, capacity) = apply-dequeued (replayed q.wal.records) in
      let q' : PersistentFifoQueue T = record {
        queue = record q.queue { items = rest; signals = not_full ∷ q.queue.signals };
        wal = add_record dequeued q.wal;
      } in
      (
        q',
        rw (e, dequeue_round, dequeue) refl,
        record {
          unlimited = d.unlimited;
          sound = d.sound;
          agrees =
              rw d.sound (ground (arith, replay-append q.wal.records dequeued, items, d.agrees, e));
          replays_unlimited =
              rw d.sound (
                ground
                  (arith, replay-append q.wal.records dequeued, capacity, d.replays_unlimited));
        },
        refl,
      )

  -- An item that leaves while its record cannot be written is not found again, if a later item
  -- leaves with a record: the record takes the first of the two out of the log.
  pub dequeue-rejected_lost :
      (a b : T) (rest : List T) (q : PersistentFifoQueue T)
      → IsDurable q
      → q.queue.items ≡ a ∷ b ∷ rest
      → (q' q'' : PersistentFifoQueue T) × (dequeue rejected q ≡ some (q', failed))
        × (dequeue synced q' ≡ some (q'', ok b))
        × ((open_queue q''.wal).queue.items ≡ b ∷ rest)
  unfolding dequeue dequeue_round open_queue
  dequeue-rejected_lost a b rest q d e =
      let (items, capacity) = apply-dequeued (replayed q.wal.records) in
      let signals = not_full ∷ q.queue.signals in
      let q' : PersistentFifoQueue T = record {
        queue = record q.queue { items = b ∷ rest; signals = signals };
        wal = q.wal;
      } in
      let q'' : PersistentFifoQueue T = record {
        queue = record q.queue { items = rest; signals = not_full ∷ signals };
        wal = add_record dequeued q.wal;
      } in
      (
        q',
        q'',
        rw (e, dequeue_round, dequeue) refl,
        refl,
        rw d.sound (ground (arith, replay-append q.wal.records dequeued, items, d.agrees, e)),
      )
