-- ===== src/ConsumerGroup/Resolve.antt =====
-- The ends of a delivery: `ack`, `nack`, and what becomes of a failed one; and `checkpoint`.
use queue_as_a_service.Base.{
  ℕ, ◌+◌, Bool, true, false, [], ◌∷◌, ◌++◌, Option, none, some, ℕ_discrete, get, remove, insert,
  ◌==◌, if◌then◌else◌,
}
use queue_as_a_service.Log.{AppendIo, Result, ok, failed, append}
use queue_as_a_service.Types.{MessageId, Text}
use queue_as_a_service.Retry.{Float, is_exhausted, delay_for}
use queue_as_a_service.DeadLetter.{DeadLetter, add_letter}
use queue_as_a_service.ConsumerGroup.State.{
  acked, dead_lettered, checkpointed, Leased, Delayed, LeaseToken, notify_one, Group,
}
use queue_as_a_service.ConsumerGroup.Recovery.{release_key}

-- What the resolution of one failed delivery reads: the clocks, the random draw, and how its two writes
-- go.
pub record Attempt (F : Type 0) : Type 0 where
  pub now : ℕ
  pub timestamp : ℕ
  pub draw : F
  pub dlq_io : AppendIo
  pub wal_io : AppendIo

module _ {F T V : Type 0} where
  unfoldable pub ack : AppendIo → MessageId → LeaseToken → Group F T V → Group F T V × Result Bool
  ack io id token g = elim (get ℕ_discrete id g.leased) [
    | none ↦ (g, ok false)
    | some lease ↦
        let (wal, logged) = append io (acked id) g.wal in
        let g' : Group F T V = record g {
          leased = remove ℕ_discrete id g.leased;
          dedup = release_key lease.idempotency_key g.dedup;
          wal = wal;
        } in
        let result : Result Bool = elim logged [ ok _ ↦ ok true | failed ↦ failed ] in
        if lease.token == token then (g', result) else (g, ok false)
  ]

  -- What `checkpoint` does once its record is written, under the lock taken again.
  unfoldable pub finish_checkpoint : MessageId → LeaseToken → V → Group F T V → Group F T V × Bool
  finish_checkpoint id token state g = elim (get ℕ_discrete id g.leased) [
    | none ↦ (g, false)
    | some lease ↦
        if lease.token == token
        then (
          record g {
            leased = insert ℕ_discrete id (record lease { checkpoint = some state }) g.leased;
          },
          true,
        )
        else (g, false)
  ]

  unfoldable pub checkpoint :
      AppendIo → MessageId → LeaseToken → V → Group F T V → Group F T V × Result Bool
  unfolding finish_checkpoint
  checkpoint io id token state g = elim (get ℕ_discrete id g.leased) [
    | none ↦ (g, ok false)
    | some lease ↦
        let (wal, logged) = append io (checkpointed id state) g.wal in
        let g' : Group F T V = record g { wal = wal } in
        let (finished, current) = finish_checkpoint id token state g' in
        let written : Group F T V × Result Bool = elim logged [
          | ok _ ↦ (finished, ok current)
          | failed ↦ (g', failed)
        ] in
        if lease.token == token then written else (g, ok false)
  ]

module _ {F T V : Type 0} (float : Float F) where
  -- A lease that ended in failure, as a dead letter and as a delayed message.
  abbrev pub letter_of : Attempt F → Option Text → MessageId → Leased T V → DeadLetter T V
  letter_of attempt reason id lease = record {
    id = id;
    idempotency_key = lease.idempotency_key;
    item = lease.item;
    delivery_count = lease.delivery_count;
    last_error = reason;
    dead_lettered_at = attempt.timestamp;
    checkpoint = lease.checkpoint;
    triage = none;
  }

  unfoldable pub delayed_of : Attempt F → ℕ → MessageId → Leased T V → Delayed T V
  delayed_of attempt delay id lease = record {
    id = id;
    item = lease.item;
    delivery_count = lease.delivery_count;
    available_at = attempt.now + delay;
    idempotency_key = lease.idempotency_key;
    checkpoint = lease.checkpoint;
  }

  -- The dead letter is written first, then the record that the message has left this log.
  unfoldable pub resolve_failed_delivery :
      Attempt F
      → Option Text
      → MessageId
      → Leased T V
      → Group F T V
      → Group F T V × Result (Unit {0})
  unfolding delayed_of
  resolve_failed_delivery attempt reason id lease g =
      let (dlq, kept) = add_letter attempt.dlq_io (letter_of attempt reason id lease) g.dlq in
      let (wal, logged) = append attempt.wal_io (dead_lettered id) g.wal in
      let delay = delay_for float g.retry_policy attempt.draw lease.delivery_count in
      let lettered : Group F T V × Result (Unit {0}) = elim kept [
        | failed ↦ (record g { dlq = dlq }, failed)
        | ok _ ↦ (record g { dlq = dlq; wal = wal }, logged)
      ] in
      if is_exhausted g.retry_policy lease.delivery_count
      then lettered
      else (record g { delayed = g.delayed ++ delayed_of attempt delay id lease ∷ [] }, ok tt)

  unfoldable pub nack :
      Attempt F → MessageId → LeaseToken → Option Text → Group F T V → Group F T V × Result Bool
  nack attempt id token reason g = elim (get ℕ_discrete id g.leased) [
    | none ↦ (g, ok false)
    | some lease ↦
        let (g', resolved) =
          resolve_failed_delivery attempt reason id lease
            (record g { leased = remove ℕ_discrete id g.leased }) in
        let released : Group F T V × Result Bool = elim resolved [
          | failed ↦ (g', failed)
          | ok _ ↦ (record g' { signals = notify_one ∷ g'.signals }, ok true)
        ] in
        if lease.token == token then released else (g, ok false)
  ]
