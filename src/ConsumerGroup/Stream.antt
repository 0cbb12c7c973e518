-- ===== src/ConsumerGroup/Stream.antt =====
-- Partial results: `publish_partial_result` and one round of `partial_results_since`.
use queue_as_a_service.Base.{
  ℕ, ◌+◌, Bool, List, [], ◌∷◌, ◌++◌, Option, none, some, ite, dec_lt, ℕ_discrete, get, insert,
  length, ◌==◌, if◌then◌else◌,
}
use queue_as_a_service.Types.{MessageId}
use queue_as_a_service.ConsumerGroup.State.{
  LeaseToken, StreamChunk, PartialResultsPoll, chunks, not_active, notify_waiters, Group,
}

module _ {V : Type 0} where
  unfoldable pub chunks_after : ℕ → List (StreamChunk V) → List (StreamChunk V)
  chunks_after after [] = []
  chunks_after after (c ∷ cs) =
      ite (dec_lt after c.sequence) (c ∷ chunks_after after cs) (chunks_after after cs)

module _ {F T V : Type 0} where
  unfoldable pub publish_partial_result :
      MessageId → LeaseToken → V → Bool → Group F T V → Group F T V × Option ℕ
  publish_partial_result id token content is_final g = elim (get ℕ_discrete id g.leased) [
    | none ↦ (g, none)
    | some lease ↦
        let sequence = length lease.stream + 1 in
        let chunk : StreamChunk V = record {
          sequence = sequence;
          content = content;
          is_final = is_final;
        } in
        let published : Group F T V = record g {
          leased =
              insert ℕ_discrete id (record lease { stream = lease.stream ++ chunk ∷ [] }) g.leased;
          signals = notify_waiters ∷ g.signals;
        } in
        if lease.token == token then (published, some sequence) else (g, none)
  ]

  -- One round of the loop; `none` waits for a signal.
  unfoldable pub poll_partial_results : MessageId → ℕ → Group F T V → Option (PartialResultsPoll V)
  poll_partial_results id after g = elim (get ℕ_discrete id g.leased) [
    | none ↦ some not_active
    | some lease ↦ elim (chunks_after after lease.stream) [
      | [] ↦ none
      | c ∷ cs ↦ some (chunks (c ∷ cs))
    ]
  ]
