-- ===== src/ConsumerGroup/Enqueue.antt =====
-- `enqueue`, `enqueue_with_key` and the writing of their record.
use queue_as_a_service.Base.{ℕ, ◌-◌, [], ◌∷◌, ◌++◌, Option, none, some, get}
use queue_as_a_service.Log.{AppendIo, Result, ok, failed, append}
use queue_as_a_service.Types.{MessageId, IdempotencyKey, IdempotencyKey-discrete}
use queue_as_a_service.ConsumerGroup.State.{enqueued, Pending, notify_one, Group}
use queue_as_a_service.ConsumerGroup.Recovery.{release_key, claim_key}

module _ {T V : Type 0} where
  -- A message as it is enqueued.
  abbrev pub new_pending : MessageId → T → Option IdempotencyKey → Pending T V
  new_pending id item key = record {
    id = id;
    item = item;
    delivery_count = 0;
    idempotency_key = key;
    checkpoint = none;
  }

module _ {F T V : Type 0} where
  unfoldable pub write_enqueue_record :
      AppendIo
      → MessageId
      → T
      → Option IdempotencyKey
      → Group F T V
      → Group F T V × Result MessageId
  write_enqueue_record io id item key g =
      let (wal, logged) = append io (enqueued id key item) g.wal in
      elim logged [
        | failed ↦ (record g { wal = wal; dedup = release_key key g.dedup }, failed)
        | ok _ ↦ (
          record g {
            wal = wal;
            pending = g.pending ++ new_pending id item key ∷ [];
            signals = notify_one ∷ g.signals;
          },
          ok id,
        )
      ]

  -- The key is reserved before the record is written.
  unfoldable pub enqueue_with_id_and_key :
      AppendIo
      → MessageId
      → T
      → Option IdempotencyKey
      → Group F T V
      → Group F T V × Result MessageId
  enqueue_with_id_and_key io id item none g = write_enqueue_record io id item none g
  enqueue_with_id_and_key io id item (some key) g = elim (get IdempotencyKey-discrete key g.dedup) [
    | some existing ↦ (g, ok existing)
    | none ↦
        write_enqueue_record io id item (some key)
          (record g { dedup = claim_key (some key) id g.dedup })
  ]

  -- `id` is the value of `MessageId::new()`.
  unfoldable pub enqueue : AppendIo → MessageId → T → Group F T V → Group F T V × Result MessageId
  unfolding enqueue_with_id_and_key
  enqueue io id item g = enqueue_with_id_and_key io id item none g

  unfoldable pub enqueue_with_key :
      AppendIo → MessageId → T → IdempotencyKey → Group F T V → Group F T V × Result MessageId
  unfolding enqueue_with_id_and_key
  enqueue_with_key io id item key g = enqueue_with_id_and_key io id item (some key) g

  -- The age in milliseconds of the first pending message. `timestamp` reads a UUIDv7's time.
  unfoldable pub oldest_pending_age : (MessageId → ℕ) → ℕ → Group F T V → Option ℕ
  oldest_pending_age timestamp now g = elim g.pending [
    | [] ↦ none
    | oldest ∷ _ ↦ some (now - timestamp oldest.id)
  ]
