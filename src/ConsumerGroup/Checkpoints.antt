-- ===== src/ConsumerGroup/Checkpoints.antt =====
-- What a restart makes of the checkpoint of a message that was given up and reprocessed.
use queue_as_a_service.Base.{
  ℕ, ◌≡◌, false, List, [], ◌∷◌, ◌++◌, Option, some, arith, ℕ_discrete, get, insert,
}
use queue_as_a_service.Log.{synced}
use queue_as_a_service.Types.{MessageId, IdempotencyKey}
use queue_as_a_service.Retry.{RetryPolicy}
use queue_as_a_service.DeadLetter.{DeadLetter, take_letter}
use queue_as_a_service.ConsumerGroup.State.{WalRecord, enqueued, checkpointed, dead_lettered, Group}
use queue_as_a_service.ConsumerGroup.Recovery.{open_group, replay, apply, attach, remove_pending}
use queue_as_a_service.ConsumerGroup.Enqueue.{new_pending, write_enqueue_record}
use queue_as_a_service.ConsumerGroup.Letters.{reprocess_dead_letter}

module _ {T V : Type 0} where
  -- The log of one message that was checkpointed and given up.
  abbrev pub given_up : MessageId → Option IdempotencyKey → T → V → List (WalRecord T V)
  given_up id key item state = enqueued id key item ∷ checkpointed id state ∷ dead_lettered id ∷ []

  recovered :
      (id : MessageId) (key key' : Option IdempotencyKey) (item item' : T) (state : V)
      → let r = replay (given_up id key item state ++ enqueued id key' item' ∷ []) in
        attach r.pending r.checkpoints
        ≡ record (new_pending id item' key') { checkpoint = some state } ∷ []
  unfolding replay apply attach remove_pending insert get
  recovered id key key' item item' state = ground arith

module _ {F T V : Type 0} where
  -- A group whose log holds one message that was checkpointed and given up starts a new cycle without a
  -- checkpoint when it reprocesses the letter, and has the old checkpoint again after a restart.
  pub reprocess_dead_letter-checkpoint :
      (id : MessageId) (key : Option IdempotencyKey) (item : T) (state : V)
      (letter : DeadLetter T V) (g : Group F T V) (timeout : ℕ) (policy : RetryPolicy F)
      → g.wal ≡ record { records = given_up id key item state; spoiled = false }
      → g.pending ≡ []
      → get ℕ_discrete id g.dlq.entries ≡ some letter
      → letter.id ≡ id
      → let g' = (reprocess_dead_letter synced synced id g).0 in
        let p = new_pending id letter.item letter.idempotency_key in
        (g'.pending ≡ p ∷ [])
        × ((open_group g'.wal g'.dlq.wal timeout policy).pending
            ≡ record p { checkpoint = some state } ∷ [])
  unfolding reprocess_dead_letter take_letter write_enqueue_record open_group
  reprocess_dead_letter-checkpoint id key item state letter g timeout policy log none_pending here
        same =
      (
        ground (arith, log, none_pending, here, same),
        ground (
          arith,
          log,
          here,
          same,
          recovered id key letter.idempotency_key item letter.item state,
        ),
      )
