-- ===== src/ConsumerGroup/Collisions.antt =====
-- What two calls with one key do to each other.
use mathlib.Core.List.{foldl-append}
use queue_as_a_service.Base.{
  ℕ, ◌≤◌, ◌≡◌, ◌≢◌, true, false, List, [], ◌∷◌, ◌++◌, Option, none, some, arith, ℕ_discrete, get,
  insert, get-remove, get-insert, Option-cases, inl, inr, total-append, take_nth,
}
use queue_as_a_service.Log.{AppendIo, synced, append, ok, failed}
use queue_as_a_service.Types.{MessageId, IdempotencyKey, IdempotencyKey-discrete}
use queue_as_a_service.Retry.{RetryPolicy}
use queue_as_a_service.DeadLetter
use queue_as_a_service.DeadLetter.{open_queue, ids_and_keys}
use queue_as_a_service.ConsumerGroup.State.{
  Leased, LeaseToken, Group, Pending, WalRecord, enqueued, acked,
}
use queue_as_a_service.ConsumerGroup.Recovery.{
  replay, apply, attach, open_group, seed_dedup, find_pending, remove_pending,
}
use queue_as_a_service.ConsumerGroup.Messages.{Message, of_pending, in_pending, all, SameMessages}
use queue_as_a_service.ConsumerGroup.Enqueue.{
  new_pending, enqueue_with_key, enqueue_with_id_and_key, write_enqueue_record,
}
use queue_as_a_service.ConsumerGroup.Restart.{restart, in_pending-attach}
use queue_as_a_service.ConsumerGroup.Deduplication.{keyed}
use queue_as_a_service.ConsumerGroup.Racing.{
  alone, begin_enqueue, write_enqueue, finish_enqueue, begin_ack, write_ack,
}

module _ {F T V : Type 0} where
  -- The parts of an enqueue, one after the other with nothing between, are the enqueue.
  pub enqueue-parts :
      (io : AppendIo) (id : MessageId) (item : T) (key : Option IdempotencyKey) (g : Group F T V)
      → let (begun, known) = begin_enqueue id item key (alone g) in
        let (ended, result) = finish_enqueue 0 (write_enqueue io 0 begun) in
        let whole = enqueue_with_id_and_key io id item key g in
        (ended ≡ alone whole.0)
        × (elim known [ some existing ↦ some (ok existing) | none ↦ result ] ≡ some whole.1)
  unfolding begin_enqueue write_enqueue finish_enqueue enqueue_with_id_and_key write_enqueue_record
      take_nth
  enqueue-parts io id item none g = (ground arith, ground arith)
  enqueue-parts io id item (some k) g =
      elim (Option-cases (get IdempotencyKey-discrete k g.dedup)) [
        | inl e ↦ (ground (arith, e), ground (arith, e))
        | inr (existing, e) ↦ (ground (arith, e), ground (arith, e))
      ]

  -- An enqueue with a key that another call has reserved is answered with the id of that call; where the write of
  -- that call then fails, neither message is in the group, and the key is free.
  pub enqueue_lost :
      (io : AppendIo) (id id' : MessageId) (item item' : T) (key : IdempotencyKey) (g : Group F T V)
      → get IdempotencyKey-discrete key g.dedup ≡ none
      → (append io (enqueued id (some key) item) g.wal).1 ≡ failed
      → let (first, _) = begin_enqueue id item (some key) (alone g) in
        let (second, answer) = begin_enqueue id' item' (some key) first in
        let (ended, result) = finish_enqueue 0 (write_enqueue io 0 second) in
        (answer ≡ some id)
        × (result ≡ some failed)
        × (ended.enqueues ≡ [])
        × SameMessages ended.group g
        × (get IdempotencyKey-discrete key ended.group.dedup ≡ none)
  unfolding begin_enqueue write_enqueue finish_enqueue take_nth
  enqueue_lost io id id' item item' key g free fails =
      let law = get-insert IdempotencyKey-discrete key key id g.dedup in
      let law' =
        get-remove IdempotencyKey-discrete key key
          (insert IdempotencyKey-discrete key id g.dedup) in
      (
        ground (arith, free, law),
        ground (arith, free, law, fails),
        ground (arith, free, law, fails),
        λ w. ground (arith, free, law, fails),
        ground (arith, free, law, fails, law'),
      )

module _ {T V : Type 0} where
  find_pending-append :
      (id : MessageId) (p x : Pending T V) (ps : List (Pending T V))
      → find_pending id ps ≡ some p
      → find_pending id (ps ++ x ∷ []) ≡ some p
  unfolding find_pending
  find_pending-append id p x [] h = absurd (ground (arith, h))
  find_pending-append id p x (q ∷ qs) h = ground (arith, h, find_pending-append id p x qs)

  remove_pending-append :
      (w : Message T → ℕ) (id : MessageId) (x : Pending T V) (ps : List (Pending T V))
      → x.id ≢ id
      → w (of_pending x) ≤ in_pending w (remove_pending id (ps ++ x ∷ []))
  unfolding remove_pending
  remove_pending-append w id x [] h = ground (arith, h)
  remove_pending-append w id x (q ∷ qs) h = ground (
    arith,
    h,
    remove_pending-append w id x qs,
    total-append (λ (p : Pending T V). w (of_pending p)) qs (x ∷ []),
  )

  -- The record of an ack frees the key on replay, although a record before it has given the key to a new message.
  replay_overtaken :
      (rs : List (WalRecord T V)) (id id' : MessageId) (p : Pending T V) (item' : T)
      (key : IdempotencyKey)
      → find_pending id (replay rs).pending ≡ some p
      → p.idempotency_key ≡ some key
      → id' ≢ id
      → let r = replay ((rs ++ enqueued id' (some key) item' ∷ []) ++ acked id ∷ []) in
        (get IdempotencyKey-discrete key r.dedup ≡ none) × (1 ≤ in_pending (keyed key) r.pending)
  unfolding replay apply
  replay_overtaken rs id id' p item' key found same differs =
      let r = replay rs in
      let x : Pending T V = new_pending id' item' (some key) in
      let found' = find_pending-append id p x r.pending found in
      let dedup = insert IdempotencyKey-discrete key id' r.dedup in
      rw (foldl-append, foldl-append)
        (
          ground (arith, found', same, get-remove IdempotencyKey-discrete key key dedup),
          ground (arith, found', same, remove_pending-append (keyed key) id x r.pending differs),
        )

module _ {F T V : Type 0} where
  -- The log and the answers after an ack and an enqueue with its key between the parts of the ack.
  overtaken :
      (id id' : MessageId) (token : LeaseToken) (item' : T) (key : IdempotencyKey)
      (lease : Leased T V) (g : Group F T V)
      → get ℕ_discrete id g.leased ≡ some lease
      → lease.token ≡ token
      → lease.idempotency_key ≡ some key
      → g.wal.spoiled ≡ false
      → let released = (begin_ack id token (alone g)).0 in
        let begun = (begin_enqueue id' item' (some key) released).0 in
        let (enqueued_too, answer) = finish_enqueue 0 (write_enqueue synced 0 begun) in
        let (ended, answer') = write_ack synced 0 enqueued_too in
        (answer ≡ some (ok id'))
        × (answer' ≡ some (ok true))
        × (ended.group.wal.records
            ≡ (g.wal.records ++ enqueued id' (some key) item' ∷ []) ++ acked id ∷ [])
        × (ended.group.dlq ≡ g.dlq)
  unfolding begin_enqueue write_enqueue finish_enqueue begin_ack write_ack take_nth
  overtaken id id' token item' key lease g leased current named whole =
      let free = get-remove IdempotencyKey-discrete key key g.dedup in
      (
        ground (arith, leased, current, named, whole, free),
        ground (arith, leased, current, named, whole, free),
        ground (arith, leased, current, named, whole, free),
        ground (arith, leased, current, named, whole, free),
      )

  second_message :
      (timeout : ℕ) (policy : RetryPolicy F) (id : MessageId) (item : T) (key : IdempotencyKey)
      (g : Group F T V)
      → get IdempotencyKey-discrete key (replay g.wal.records).dedup ≡ none
      → 1 ≤ in_pending (keyed key) (replay g.wal.records).pending
      → DeadLetter.replay g.dlq.wal.records ≡ []
      → let (g', answer) = enqueue_with_key synced id item key (restart timeout policy g) in
        (answer ≡ ok id) × (2 ≤ all (keyed key) g')
  unfolding enqueue_with_key enqueue_with_id_and_key write_enqueue_record open_group open_queue
      ids_and_keys seed_dedup
  second_message timeout policy id item key g unknown one purged =
      let r = replay g.wal.records in
      (
        ground (arith, unknown, purged),
        ground (
          arith,
          unknown,
          purged,
          one,
          in_pending-attach (keyed key) r.pending r.checkpoints,
          total-append (λ (p : Pending T V). keyed key (of_pending p))
              (attach r.pending r.checkpoints) (new_pending id item (some key) ∷ []),
        ),
      )

  -- An ack of a leased message gives its key up before it writes its record. An enqueue with the key and
  -- another id that runs between is answered with that id and both calls succeed, if their records are
  -- written; but after a restart the key is not known, so a further enqueue with it makes a second message.
  -- The log is not spoiled and has the leased message with its key, and the dead-letter log holds no letter.
  pub ack_overtaken :
      (timeout : ℕ) (policy : RetryPolicy F) (id id' id'' : MessageId) (token : LeaseToken)
      (item' item'' : T) (key : IdempotencyKey) (lease : Leased T V) (p : Pending T V)
      (g : Group F T V)
      → get ℕ_discrete id g.leased ≡ some lease
      → lease.token ≡ token
      → lease.idempotency_key ≡ some key
      → g.wal.spoiled ≡ false
      → find_pending id (replay g.wal.records).pending ≡ some p
      → p.idempotency_key ≡ some key
      → id' ≢ id
      → DeadLetter.replay g.dlq.wal.records ≡ []
      → let released = (begin_ack id token (alone g)).0 in
        let begun = (begin_enqueue id' item' (some key) released).0 in
        let (enqueued_too, answer) = finish_enqueue 0 (write_enqueue synced 0 begun) in
        let (ended, answer') = write_ack synced 0 enqueued_too in
        let (g', answer'') =
          enqueue_with_key synced id'' item'' key (restart timeout policy ended.group) in
        (answer ≡ some (ok id'))
        × (answer' ≡ some (ok true))
        × (answer'' ≡ ok id'')
        × (2 ≤ all (keyed key) g')
  ack_overtaken timeout policy id id' id'' token item' item'' key lease p g leased current named
        whole found same differs purged =
      let released = (begin_ack id token (alone g)).0 in
      let begun = (begin_enqueue id' item' (some key) released).0 in
      let ended = (write_ack synced 0 (finish_enqueue 0 (write_enqueue synced 0 begun)).0).0 in
      let (answer, answer', log, dlq) =
        overtaken id id' token item' key lease g leased current named whole in
      let (unknown, one) = replay_overtaken g.wal.records id id' p item' key found same differs in
      let (answer'', two) =
        second_message timeout policy id'' item'' key ended.group (rw log unknown) (rw log one)
          (rw dlq purged) in
      (answer, answer', answer'', two)
