-- ===== src/ConsumerGroup/Letters.antt =====
-- The dead letters of a group: listed, annotated, reprocessed and purged.
use queue_as_a_service.Base.{Bool, true, false, List, none, some}
use queue_as_a_service.Log.{AppendIo, Result, ok, failed}
use queue_as_a_service.Types.{MessageId}
use queue_as_a_service.DeadLetter.{DeadLetter, TriageVerdict, list, take_letter, annotate}
use queue_as_a_service.ConsumerGroup.State.{Group}
use queue_as_a_service.ConsumerGroup.Recovery.{release_key}
use queue_as_a_service.ConsumerGroup.Enqueue.{write_enqueue_record}

module _ {F T V : Type 0} where
  unfoldable pub dead_letters : Group F T V → List (DeadLetter T V)
  dead_letters g = list g.dlq

  unfoldable pub annotate_dead_letter :
      AppendIo → MessageId → TriageVerdict → Group F T V → Group F T V × Result Bool
  annotate_dead_letter io id verdict g =
      let (dlq, annotated) = annotate io id verdict g.dlq in (record g { dlq = dlq }, annotated)

  unfoldable pub reprocess_dead_letter :
      AppendIo → AppendIo → MessageId → Group F T V → Group F T V × Result Bool
  reprocess_dead_letter dlq_io wal_io id g =
      let (dlq, taken) = take_letter dlq_io id g.dlq in
      let g' : Group F T V = record g { dlq = dlq } in
      elim taken [
        | failed ↦ (g', failed)
        | ok none ↦ (g', ok false)
        | ok (some letter) ↦
            let (g'', written) =
              write_enqueue_record wal_io letter.id letter.item letter.idempotency_key g' in
            elim written [ failed ↦ (g'', failed) | ok _ ↦ (g'', ok true) ]
      ]

  unfoldable pub purge_dead_letter : AppendIo → MessageId → Group F T V → Group F T V × Result Bool
  purge_dead_letter io id g =
      let (dlq, taken) = take_letter io id g.dlq in
      let g' : Group F T V = record g { dlq = dlq } in
      elim taken [
        | failed ↦ (g', failed)
        | ok none ↦ (g', ok false)
        | ok (some letter) ↦
            (record g' { dedup = release_key letter.idempotency_key g'.dedup }, ok true)
      ]
