-- ===== src/Server/Letters.antt =====
-- The tools for dead letters in crates/qaas-server/src/mcp.rs.
use queue_as_a_service.Base.{ℕ, Bool, true, false, Option, none, some, List, [], ◌∷◌}
use queue_as_a_service.Log.{AppendIo}
use queue_as_a_service.Types.{MessageId, Text}
use queue_as_a_service.DeadLetter.{
  DeadLetter, TriageClassification, transient, permanent, TriageVerdict,
}
use queue_as_a_service.Auth.{TenantId}
use queue_as_a_service.ConsumerGroup.Letters.{
  dead_letters, annotate_dead_letter, reprocess_dead_letter, purge_dead_letter,
}
use queue_as_a_service.Server.Answers.{invalid_params, Call, pure, when, step_io, or_refuse, ◌>>=◌}
use queue_as_a_service.Server.Registry.{Opening, find_group}
use queue_as_a_service.Server.State.{Setting, Server, on_registry}
use queue_as_a_service.Server.Consuming.{on_group}

-- "transient" and "permanent"
abbrev class_text : TriageClassification → Text
class_text transient = 116 ∷ 114 ∷ 97 ∷ 110 ∷ 115 ∷ 105 ∷ 101 ∷ 110 ∷ 116 ∷ []
class_text permanent = 112 ∷ 101 ∷ 114 ∷ 109 ∷ 97 ∷ 110 ∷ 101 ∷ 110 ∷ 116 ∷ []

pub record TriageSummary : Type 0 where
  pub classification : Text
  pub reason : Text
  pub triaged_at_ms : ℕ

pub record DeadLetterSummary (V : Type 0) : Type 0 where
  pub message_id : MessageId
  pub payload : V
  pub delivery_count : ℕ
  pub last_error : Option Text
  pub dead_lettered_at_ms : ℕ
  pub checkpoint : Option V
  pub triage : Option TriageSummary

unfoldable pub summarize_triage : Option TriageVerdict → Option TriageSummary
summarize_triage none = none
summarize_triage (some verdict) = some (record {
  classification = class_text verdict.classification;
  reason = verdict.reason;
  triaged_at_ms = verdict.triaged_at;
})

unfoldable pub summarize : {V : Type 0} → List (DeadLetter V V) → List (DeadLetterSummary V)
unfolding summarize_triage
summarize [] = []
summarize (letter ∷ letters) =
    record {
      message_id = letter.id;
      payload = letter.item;
      delivery_count = letter.delivery_count;
      last_error = letter.last_error;
      dead_lettered_at_ms = letter.dead_lettered_at;
      checkpoint = letter.checkpoint;
      triage = summarize_triage letter.triage;
    }
    ∷ summarize letters

pub record TriageDeadLetterResult : Type 0 where
  pub annotated : Bool
  pub reprocessed : Bool

unfoldable pub is_transient : TriageClassification → Bool
is_transient transient = true
is_transient permanent = false

module _ {F G V : Type 0} (setting : Setting F G) where
  open setting use {policy, parse_message_id}

  unfoldable pub list_dead_letters_impl :
      Opening V → Option TenantId → Text → Call (Server F G V) (List (DeadLetterSummary V))
  unfolding summarize
  list_dead_letters_impl opening tenant queue = do
    g ← on_registry (find_group policy opening tenant queue)
    pure (summarize (dead_letters g))

  unfoldable pub reprocess_dead_letter_impl :
      Opening V → AppendIo → AppendIo → Option TenantId → Text → Text → Call (Server F G V) Bool
  reprocess_dead_letter_impl opening dlq_io wal_io tenant queue message_id = do
    g ← on_registry (find_group policy opening tenant queue)
    id ← or_refuse (parse_message_id message_id) invalid_params
    on_registry (step_io (on_group setting tenant queue (reprocess_dead_letter dlq_io wal_io id) g))

  unfoldable pub triage_dead_letter_impl :
      Opening V
      → AppendIo
      → AppendIo
      → AppendIo
      → ℕ
      → Option TenantId
      → Text
      → Text
      → TriageClassification
      → Text
      → Call (Server F G V) TriageDeadLetterResult
  unfolding is_transient
  triage_dead_letter_impl opening io dlq_io wal_io triaged_at tenant queue message_id class reason =
      do
        g ← on_registry (find_group policy opening tenant queue)
        id ← or_refuse (parse_message_id message_id) invalid_params
        let verdict : TriageVerdict = record {
          classification = class;
          reason = reason;
          triaged_at = triaged_at;
        }
        was_annotated ←
            on_registry
              (step_io (on_group setting tenant queue (annotate_dead_letter io id verdict) g))
        when was_annotated (record { annotated = false; reprocessed = false })
            (do
              g' ← on_registry (find_group policy opening tenant queue)
              was_reprocessed ← when (is_transient class) false (
                  on_registry (
                    step_io
                      (on_group setting tenant queue (reprocess_dead_letter dlq_io wal_io id) g')))
              pure (record { annotated = true; reprocessed = was_reprocessed }))

  unfoldable pub purge_dead_letter_impl :
      Opening V → AppendIo → Option TenantId → Text → Text → Call (Server F G V) Bool
  purge_dead_letter_impl opening io tenant queue message_id = do
    g ← on_registry (find_group policy opening tenant queue)
    id ← or_refuse (parse_message_id message_id) invalid_params
    on_registry (step_io (on_group setting tenant queue (purge_dead_letter io id) g))
