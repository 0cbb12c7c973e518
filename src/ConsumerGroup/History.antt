-- ===== src/ConsumerGroup/History.antt =====
-- Courses of calls, and of restarts between them, on a group that was opened on empty logs.
use mathlib.Core.Path.{subst}
use queue_as_a_service.Base.{
  ℕ, ◌≡◌, Bool, [], ◌∷◌, Option, none, some, arith, get, total-append, Option-cases, inl, inr,
}
use queue_as_a_service.Log.{synced}
use queue_as_a_service.Types.{MessageId, IdempotencyKey, IdempotencyKey-discrete, Text}
use queue_as_a_service.Retry.{Float, RetryPolicy}
use queue_as_a_service.DeadLetter.{TriageVerdict}
use queue_as_a_service.ConsumerGroup.State.{LeaseToken, Group}
use queue_as_a_service.ConsumerGroup.Recovery.{claim_key}
use queue_as_a_service.ConsumerGroup.Messages.{
  of_pending, has_id, all, SameMessages, SameMessages-IsSingle, in_leased-remove,
}
use queue_as_a_service.ConsumerGroup.Enqueue.{
  new_pending, write_enqueue_record, enqueue_with_id_and_key,
}
use queue_as_a_service.ConsumerGroup.Resolve.{Attempt, ack, nack, checkpoint, finish_checkpoint}
use queue_as_a_service.ConsumerGroup.Stream.{publish_partial_result}
use queue_as_a_service.ConsumerGroup.Claiming.{claim_round, Round}
use queue_as_a_service.ConsumerGroup.Letters.{
  annotate_dead_letter, reprocess_dead_letter, purge_dead_letter,
}
use queue_as_a_service.ConsumerGroup.Durability.{
  IsDurable, write_enqueue_record-IsDurable, ack-IsDurable,
}
use queue_as_a_service.ConsumerGroup.Conservation.{nack-SameMessages, claim_round-SameMessages}
use queue_as_a_service.ConsumerGroup.Rounds.{nack-IsDurable, claim_round-IsDurable}
use queue_as_a_service.ConsumerGroup.Restart.{
  IsConsistent, restart, restart-IsConsistent, fresh_group, fresh_group-IsConsistent,
}
use queue_as_a_service.ConsumerGroup.Updates.{
  checkpoint-SameMessages, checkpoint-IsDurable, publish-SameMessages, publish-IsDurable,
}
use queue_as_a_service.ConsumerGroup.Keyed.{
  IsKept, nack-IsKept, claim_round-IsKept, annotate-IsKept,
}
use queue_as_a_service.ConsumerGroup.Redelivery.{
  reprocess-SameMessages, reprocess-IsDurable, reprocess-IsKept, purge-all, purge-IsDurable,
  purge-IsKept, annotate-SameMessages,
}

module _ {F T V : Type 0} (float : Float F) (to_text : MessageId → Text) where
  -- One call, whose writes succeed, or a restart; `MessageId::new` gives an id that no message has.
  pub data Step : Group F T V → Group F T V → Type 0 where
    enqueues :
        {g : Group F T V} (id : MessageId) (item : T) (key : Option IdempotencyKey)
        → all (has_id id) g ≡ 0
        → Step g (enqueue_with_id_and_key synced id item key g).0
    acks :
        {g : Group F T V} (id : MessageId) (token : LeaseToken) → Step g (ack synced id token g).0
    nacks :
        {g : Group F T V} (attempt : Attempt F) (id : MessageId) (token : LeaseToken)
        (reason : Option Text)
        → attempt.dlq_io ≡ synced
        → attempt.wal_io ≡ synced
        → Step g (nack float attempt id token reason g).0
    claims :
        {g : Group F T V} (round : Round F)
        → ((id : MessageId) → (round.attempts id).dlq_io ≡ synced)
        → ((id : MessageId) → (round.attempts id).wal_io ≡ synced)
        → Step g (claim_round float to_text round g).0
    checkpoints :
        {g : Group F T V} (id : MessageId) (token : LeaseToken) (state : V)
        → Step g (checkpoint synced id token state g).0
    publishes :
        {g : Group F T V} (id : MessageId) (token : LeaseToken) (content : V) (is_final : Bool)
        → Step g (publish_partial_result id token content is_final g).0
    annotates :
        {g : Group F T V} (id : MessageId) (verdict : TriageVerdict)
        → Step g (annotate_dead_letter synced id verdict g).0
    reprocesses :
        {g : Group F T V} (id : MessageId) → Step g (reprocess_dead_letter synced synced id g).0
    purges : {g : Group F T V} (id : MessageId) → Step g (purge_dead_letter synced id g).0
    restarts :
        {g : Group F T V} (visibility_timeout : ℕ) (policy : RetryPolicy F)
        → Step g (restart visibility_timeout policy g)

  pub data Steps : Group F T V → Group F T V → Type 0 where
    done : {g : Group F T V} → Steps g g
    then : {g h i : Group F T V} → Step g h → Steps h i → Steps g i

  same-IsConsistent :
      (g h : Group F T V)
      → SameMessages h g
      → IsDurable h
      → IsKept h.dlq
      → IsConsistent g
      → IsConsistent h
  same-IsConsistent g h same d k c = record {
    single = SameMessages-IsSingle h g same c.single;
    durable = d;
    kept = k;
  }

  write-IsConsistent :
      (id : MessageId) (item : T) (key : Option IdempotencyKey) (g : Group F T V)
      → all (has_id id) g ≡ 0
      → IsConsistent g
      → IsConsistent (write_enqueue_record synced id item key g).0
  unfolding write_enqueue_record
  write-IsConsistent id item key g fresh c = record {
    single = λ j. ground (
      arith,
      c.single j,
      fresh,
      total-append (λ p. has_id j (of_pending p)) g.pending (new_pending id item key ∷ []),
    );
    durable = write_enqueue_record-IsDurable id item key g c.durable;
    kept = c.kept;
  }

  enqueue-IsConsistent :
      (id : MessageId) (item : T) (key : Option IdempotencyKey) (g : Group F T V)
      → all (has_id id) g ≡ 0
      → IsConsistent g
      → IsConsistent (enqueue_with_id_and_key synced id item key g).0
  unfolding enqueue_with_id_and_key
  enqueue-IsConsistent id item none g fresh c = write-IsConsistent id item none g fresh c
  enqueue-IsConsistent id item (some key) g fresh c =
      elim (Option-cases (get IdempotencyKey-discrete key g.dedup)) [
        | inr (existing, e) ↦ rw (e, enqueue_with_id_and_key) c
        | inl e ↦
            let reserved : Group F T V = record g { dedup = claim_key (some key) id g.dedup } in
            let c' : IsConsistent reserved = record {
              single = c.single;
              durable = record { sound = c.durable.sound; agrees = c.durable.agrees };
              kept = c.kept;
            } in
            rw (e, enqueue_with_id_and_key)
              (write-IsConsistent id item (some key) reserved fresh c')
      ]

  ack-IsConsistent :
      (id : MessageId) (token : LeaseToken) (g : Group F T V)
      → IsConsistent g
      → IsConsistent (ack synced id token g).0
  unfolding ack
  ack-IsConsistent id token g c = record {
    single = λ j. ground (arith, c.single j, in_leased-remove (has_id j) id g.leased);
    durable = ack-IsDurable id token g c.single c.durable;
    kept = subst IsKept (ground arith) c.kept;
  }

  pub checkpoint_dlq :
      (id : MessageId) (token : LeaseToken) (state : V) (g : Group F T V)
      → g.dlq ≡ (checkpoint synced id token state g).0.dlq
  unfolding checkpoint finish_checkpoint
  checkpoint_dlq id token state g = ground arith

  pub publish_dlq :
      (id : MessageId) (token : LeaseToken) (content : V) (is_final : Bool) (g : Group F T V)
      → g.dlq ≡ (publish_partial_result id token content is_final g).0.dlq
  unfolding publish_partial_result
  publish_dlq id token content is_final g = ground arith

  -- Every call, and a restart at any time between calls, keeps each id in at most one place, the logs in
  -- agreement with the memory and the dead letters under their ids, if the writes succeed and a new id is
  -- fresh.
  pub Step-IsConsistent : (g h : Group F T V) → Step g h → IsConsistent g → IsConsistent h
  unfolding annotate_dead_letter purge_dead_letter
  Step-IsConsistent g h (enqueues id item key fresh) c = enqueue-IsConsistent id item key g fresh c
  Step-IsConsistent g h (acks id token) c = ack-IsConsistent id token g c
  Step-IsConsistent g h (nacks attempt id token reason io io') c =
      same-IsConsistent g h (nack-SameMessages float attempt id token reason g io c.single)
        (nack-IsDurable float attempt id token reason g io io' c.single c.durable)
        (nack-IsKept float attempt id token reason g io c.kept) c
  Step-IsConsistent g h (claims round io io') c =
      same-IsConsistent g h (claim_round-SameMessages float to_text round g io c.single)
        (claim_round-IsDurable float to_text round g io io' c.single c.durable)
        (claim_round-IsKept float to_text round g io c.kept) c
  Step-IsConsistent g h (checkpoints id token state) c =
      same-IsConsistent g h (checkpoint-SameMessages id token state g c.single)
        (checkpoint-IsDurable id token state g c.single c.durable)
        (subst IsKept (checkpoint_dlq id token state g) c.kept) c
  Step-IsConsistent g h (publishes id token content is_final) c =
      same-IsConsistent g h (publish-SameMessages id token content is_final g c.single)
        (publish-IsDurable id token content is_final g c.single c.durable)
        (subst IsKept (publish_dlq id token content is_final g) c.kept) c
  Step-IsConsistent g h (annotates id verdict) c =
      same-IsConsistent g h (annotate-SameMessages id verdict g c.single c.kept)
        (record { sound = c.durable.sound; agrees = c.durable.agrees })
        (annotate-IsKept id verdict g.dlq c.kept) c
  Step-IsConsistent g h (reprocesses id) c =
      same-IsConsistent g h (reprocess-SameMessages id g c.single c.kept)
        (reprocess-IsDurable id g c.durable) (reprocess-IsKept id g c.kept) c
  Step-IsConsistent g h (purges id) c = record {
    single = λ j. omega (arith, c.single j, purge-all id g (has_id j));
    durable = purge-IsDurable id g c.durable;
    kept = purge-IsKept id g c.kept;
  }
  Step-IsConsistent g h (restarts visibility_timeout policy) c =
      (restart-IsConsistent visibility_timeout policy g c).1

  pub Steps-IsConsistent : (g h : Group F T V) → Steps g h → IsConsistent g → IsConsistent h
  Steps-IsConsistent g h done c = c
  Steps-IsConsistent g h (then {h = m} step steps) c =
      Steps-IsConsistent m h steps (Step-IsConsistent g m step c)

module _ {F T V : Type 0} (visibility_timeout : ℕ) (policy : RetryPolicy F) where
  -- Whatever calls and restarts a new group goes through, a further restart finds exactly the messages that
  -- the group has then, pending, leased, delayed or dead, with their payloads and keys; provided that the
  -- writes of the calls succeed and that new ids are fresh.
  pub restart-SameMessages :
      (float : Float F) (to_text : MessageId → Text) (g : Group F T V)
      → Steps float to_text (fresh_group visibility_timeout policy) g
      → SameMessages (restart visibility_timeout policy g) g
  restart-SameMessages float to_text g steps =
      (restart-IsConsistent visibility_timeout policy g (
        Steps-IsConsistent float to_text (fresh_group visibility_timeout policy) g steps
          (fresh_group-IsConsistent visibility_timeout policy))).0
