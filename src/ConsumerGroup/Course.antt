-- ===== src/ConsumerGroup/Course.antt =====
-- Courses of calls on a group between two restarts, with the number of claims in them. The writes may go in any way.
use queue_as_a_service.Base.{ℕ, ◌+◌, ◌≡◌, Bool, Option}
use queue_as_a_service.Log.{AppendIo}
use queue_as_a_service.Types.{MessageId, IdempotencyKey, Text}
use queue_as_a_service.Retry.{Float}
use queue_as_a_service.DeadLetter.{TriageVerdict}
use queue_as_a_service.ConsumerGroup.State.{LeaseToken, Claim, Group}
use queue_as_a_service.ConsumerGroup.Enqueue.{enqueue_with_id_and_key}
use queue_as_a_service.ConsumerGroup.Resolve.{Attempt, ack, nack, checkpoint}
use queue_as_a_service.ConsumerGroup.Stream.{publish_partial_result}
use queue_as_a_service.ConsumerGroup.Claiming.{claim_round, Round, claimed, waits}
use queue_as_a_service.ConsumerGroup.Letters.{
  annotate_dead_letter, reprocess_dead_letter, purge_dead_letter,
}

module _ {F T V : Type 0} (float : Float F) (to_text : MessageId → Text) where
  -- A call other than `claim`.
  pub data Call : Group F T V → Group F T V → Type 0 where
    enqueues :
        {g : Group F T V} (io : AppendIo) (id : MessageId) (item : T) (key : Option IdempotencyKey)
        → Call g (enqueue_with_id_and_key io id item key g).0
    acks :
        {g : Group F T V} (io : AppendIo) (id : MessageId) (token : LeaseToken)
        → Call g (ack io id token g).0
    nacks :
        {g : Group F T V} (attempt : Attempt F) (id : MessageId) (token : LeaseToken)
        (reason : Option Text)
        → Call g (nack float attempt id token reason g).0
    checkpoints :
        {g : Group F T V} (io : AppendIo) (id : MessageId) (token : LeaseToken) (state : V)
        → Call g (checkpoint io id token state g).0
    publishes :
        {g : Group F T V} (id : MessageId) (token : LeaseToken) (content : V) (is_final : Bool)
        → Call g (publish_partial_result id token content is_final g).0
    annotates :
        {g : Group F T V} (io : AppendIo) (id : MessageId) (verdict : TriageVerdict)
        → Call g (annotate_dead_letter io id verdict g).0
    reprocesses :
        {g : Group F T V} (dlq_io wal_io : AppendIo) (id : MessageId)
        → Call g (reprocess_dead_letter dlq_io wal_io id g).0
    purges :
        {g : Group F T V} (io : AppendIo) (id : MessageId) → Call g (purge_dead_letter io id g).0

  pub data Course (g : Group F T V) : ℕ → Group F T V → Type 0 where
    none_yet : Course g 0 g
    calls : {n : ℕ} {h i : Group F T V} → Course g n h → Call h i → Course g n i
    misses :
        {n : ℕ} {h : Group F T V} (round : Round F) (wake : Option ℕ)
        → Course g n h
        → (claim_round float to_text round h).1 ≡ waits wake
        → Course g n (claim_round float to_text round h).0
    takes :
        {n : ℕ} {h : Group F T V} (round : Round F) (c : Claim T V)
        → Course g n h
        → (claim_round float to_text round h).1 ≡ claimed c
        → Course g (n + 1) (claim_round float to_text round h).0
