-- ===== src/ConsumerGroup/Redelivery.antt =====
-- The messages of a group under the calls on dead letters: reprocess, purge and annotate.
use mathlib.Core.Path.{subst}
use queue_as_a_service.Base.{
  ℕ, ◌≤◌, [], ◌∷◌, arith, ℕ_discrete, get, insert, total-append, Option-cases, inl, inr,
}
use queue_as_a_service.Log.{synced}
use queue_as_a_service.Types.{MessageId}
use queue_as_a_service.DeadLetter.{
  TriageVerdict, take_letter, annotate, set_triage, finish_annotate,
}
use queue_as_a_service.ConsumerGroup.State.{Pending, Group}
use queue_as_a_service.ConsumerGroup.Messages.{
  Message, of_pending, all, IsSingle, SameMessages, in_letters-remove, in_letters-get,
}
use queue_as_a_service.ConsumerGroup.Durability.{IsDurable, write_enqueue_record-IsDurable}
use queue_as_a_service.ConsumerGroup.Keyed.{IsKept, take_letter-IsKept}
use queue_as_a_service.ConsumerGroup.Enqueue.{new_pending, write_enqueue_record}
use queue_as_a_service.ConsumerGroup.Letters.{
  annotate_dead_letter, reprocess_dead_letter, purge_dead_letter,
}

module _ {F T V : Type 0} where
  -- Reprocessing a dead letter keeps every message with its payload and its key, if both records are
  -- written, each id is in at most one place and the dead letters stand under their ids.
  pub reprocess-SameMessages :
      (id : MessageId) (g : Group F T V)
      → IsSingle g
      → IsKept g.dlq
      → SameMessages (reprocess_dead_letter synced synced id g).0 g
  unfolding reprocess_dead_letter take_letter write_enqueue_record
  reprocess-SameMessages id g single k w = elim (Option-cases (get ℕ_discrete id g.dlq.entries)) [
    | inl e ↦ ground (arith, e)
    | inr (letter, e) ↦ ground (
      arith,
      e,
      k.keyed id letter,
      in_letters-get w id letter g.dlq.entries (omega (arith, single id)) e,
      in_letters-remove w id g.dlq.entries,
      total-append (λ (p : Pending T V). w (of_pending p)) g.pending
          (new_pending letter.id letter.item letter.idempotency_key ∷ []),
    )
  ]

  pub reprocess-IsDurable :
      (id : MessageId) (g : Group F T V)
      → IsDurable g
      → IsDurable (reprocess_dead_letter synced synced id g).0
  unfolding reprocess_dead_letter take_letter write_enqueue_record
  reprocess-IsDurable id g d = elim (Option-cases (get ℕ_discrete id g.dlq.entries)) [
    | inl e ↦ record {
      sound = ground (arith, e, d.sound);
      agrees = λ w. ground (arith, e, d.agrees w);
    }
    | inr (letter, e) ↦
        let written =
          write_enqueue_record-IsDurable letter.id letter.item letter.idempotency_key g d in
        record {
          sound = ground (arith, e, d.sound);
          agrees = λ w. ground (arith, e, d.sound, written.agrees w);
        }
  ]

  pub reprocess-IsKept :
      (id : MessageId) (g : Group F T V)
      → IsKept g.dlq
      → IsKept (reprocess_dead_letter synced synced id g).0.dlq
  unfolding reprocess_dead_letter write_enqueue_record
  reprocess-IsKept id g k = subst IsKept (ground arith) (take_letter-IsKept id g.dlq k)

  pub purge-all :
      (id : MessageId) (g : Group F T V) (w : Message T → ℕ)
      → all w (purge_dead_letter synced id g).0 ≤ all w g
  unfolding purge_dead_letter take_letter
  purge-all id g w = elim (Option-cases (get ℕ_discrete id g.dlq.entries)) [
    | inl e ↦ ground (arith, e)
    | inr (letter, e) ↦ ground (arith, e, in_letters-remove w id g.dlq.entries)
  ]

  pub purge-IsDurable :
      (id : MessageId) (g : Group F T V) → IsDurable g → IsDurable (purge_dead_letter synced id g).0
  unfolding purge_dead_letter take_letter
  purge-IsDurable id g d = elim (Option-cases (get ℕ_discrete id g.dlq.entries)) [
    | inl e ↦ record {
      sound = ground (arith, e, d.sound);
      agrees = λ w. ground (arith, e, d.agrees w);
    }
    | inr (letter, e) ↦ record {
      sound = ground (arith, e, d.sound);
      agrees = λ w. ground (arith, e, d.agrees w);
    }
  ]

  pub purge-IsKept :
      (id : MessageId) (g : Group F T V)
      → IsKept g.dlq
      → IsKept (purge_dead_letter synced id g).0.dlq
  unfolding purge_dead_letter
  purge-IsKept id g k = subst IsKept (ground arith) (take_letter-IsKept id g.dlq k)

  pub annotate-SameMessages :
      (id : MessageId) (verdict : TriageVerdict) (g : Group F T V)
      → IsSingle g
      → IsKept g.dlq
      → SameMessages (annotate_dead_letter synced id verdict g).0 g
  unfolding annotate_dead_letter annotate finish_annotate set_triage insert
  annotate-SameMessages id verdict g single k w =
      elim (Option-cases (get ℕ_discrete id g.dlq.entries)) [
        | inl e ↦ ground (arith, e)
        | inr (letter, e) ↦ ground (
          arith,
          e,
          in_letters-get w id letter g.dlq.entries (omega (arith, single id)) e,
          in_letters-remove w id g.dlq.entries,
        )
      ]
