-- ===== src/Server/Consuming.antt =====
-- The tools of a consumer in crates/qaas-server/src/mcp.rs: `claim`, `ack`, `nack`, `checkpoint` and the
-- partial results.
use queue_as_a_service.Base.{ℕ, min, Bool, true, false, Option, none, some, List, [], ◌∷◌, take}
use queue_as_a_service.Log.{AppendIo}
use queue_as_a_service.Types.{MessageId, Text}
use queue_as_a_service.Retry.{Float}
use queue_as_a_service.Admission.{has_headroom}
use queue_as_a_service.Semantic.{remove_embedding}
use queue_as_a_service.Auth.{TenantId}
use queue_as_a_service.Base.{ℕ_discrete}
use queue_as_a_service.ConsumerGroup.State.{
  Group, Claim, StreamChunk, PartialResultsPoll, not_active,
}
use queue_as_a_service.ConsumerGroup.Resolve.{Attempt, ack, nack, checkpoint}
use queue_as_a_service.ConsumerGroup.Stream.{publish_partial_result, poll_partial_results}
use queue_as_a_service.ConsumerGroup.Claiming.{
  Round, claimed, waits, claim_round, expired, unexpired, resolve_expired,
}
use queue_as_a_service.Server.Answers.{
  invalid_params, Call, pure, when, modify, step, step_io, or_refuse, ◌>>=◌, ◌>>◌,
}
use queue_as_a_service.Server.Registry.{
  Registry, Opening, scope_key, find_admission, find_dedup, find_group, set_group, set_admission,
  set_dedup,
}
use queue_as_a_service.Server.Producing.{or_default}
use queue_as_a_service.Server.State.{
  Setting, Server, ack_event, nack_event, tenant_label, on_registry, log_event,
}

abbrev is_some : {A : Type 0} → Option A → Bool
is_some none = false
is_some (some a) = true

-- In milliseconds.
abbrev default_claim_wait : ℕ
default_claim_wait = 5000

abbrev max_claim_wait : ℕ
max_claim_wait = 60000

-- How long `claim` and `stream_partial_results` wait at most.
unfoldable pub wait_of : Option ℕ → ℕ
wait_of none = min default_claim_wait max_claim_wait
wait_of (some wait_ms) = min wait_ms max_claim_wait

-- What happens while `claim` waits: its rounds in order; and where the time is over while a round resolves
-- expired leases, the readings of this round and how many of them it has resolved.
pub record Waiting (F : Type 0) : Type 0 where
  pub rounds : List (Round F)
  pub cut : Option (Round F × ℕ)

pub record ClaimResult (T V : Type 0) : Type 0 where
  pub available : Bool
  pub throttled : Bool
  pub claim : Option (Claim T V)

-- Without a value the queue had no headroom, and was not asked.
abbrev claim_result : {T V : Type 0} → Option (Option (Claim T V)) → ClaimResult T V
claim_result none = record { available = false; throttled = true; claim = none }
claim_result (some found) = record { available = is_some found; throttled = false; claim = found }

pub record StreamPartialResultsResult (V : Type 0) : Type 0 where
  pub active : Bool
  pub chunks : List (StreamChunk V)

-- `tokio::time::timeout` around `ConsumerGroup::claim`. A future that is dropped runs no further: the
-- leases that its round took out and has not resolved are dropped with it.
module _ {F T V : Type 0} (setting_float : Float F) (to_text : MessageId → Text) where
  unfoldable pub drop_claim : Option (Round F × ℕ) → Group F T V → Group F T V
  drop_claim none g = g
  drop_claim (some (round, resolved)) g =
      resolve_expired setting_float round.attempts
        (take resolved (expired round.reclaim_now g.leased))
        (record g { leased = unexpired round.reclaim_now g.leased })

  unfoldable pub timed_claim :
      List (Round F) → Option (Round F × ℕ) → Group F T V → Group F T V × Option (Claim T V)
  unfolding drop_claim
  timed_claim [] cut g = (drop_claim cut g, none)
  timed_claim (round ∷ rounds) cut g =
      let (g', outcome) = claim_round setting_float to_text round g in
      let later = timed_claim rounds cut g' in
      elim outcome [ claimed c ↦ (g', some c) | waits _ ↦ later ]

module _ {F G V : Type 0} (setting : Setting F G) where
  open setting use {cost, float, policy, parse_message_id, to_text}

  -- A step of a group, under its key.
  unfoldable pub on_group :
      {A : Type 0}
      → Option TenantId
      → Text
      → (Group F V V → Group F V V × A)
      → Group F V V
      → Registry F G V
      → Registry F G V × A
  on_group tenant queue f g r = let r' = f g in (set_group (scope_key tenant queue) r'.0 r, r'.1)

  unfoldable pub claim_impl :
      Opening V → ℕ → Waiting F → Option TenantId → Text → Call (Server F G V) (ClaimResult V V)
  unfolding timed_claim
  claim_impl opening now waiting tenant queue = on_registry (do
    g ← find_group policy opening tenant queue
    admission ← find_admission tenant queue
    let looked = has_headroom cost now admission
    headroom ← step (λ r. (set_admission (scope_key tenant queue) looked.0 r, looked.1))
    found ← when headroom none (do
      found ← step (on_group tenant queue (timed_claim float to_text waiting.rounds waiting.cut) g)
      pure (some found))
    pure (claim_result found))

  unfoldable pub ack_impl :
      Opening V → AppendIo → ℕ → Option TenantId → Text → Text → ℕ → Call (Server F G V) Bool
  ack_impl opening io at tenant queue message_id lease_token = do
    g ← on_registry (find_group policy opening tenant queue)
    id ← or_refuse (parse_message_id message_id) invalid_params
    was_acked ← on_registry (step_io (on_group tenant queue (ack io id lease_token) g))
    when was_acked tt (
        on_registry (do
          index ← find_dedup tenant queue
          modify (set_dedup (scope_key tenant queue) (remove_embedding ℕ_discrete id index))))
    log_event at (ack_event (tenant_label tenant) queue id was_acked)
    pure was_acked

  unfoldable pub nack_impl :
      Opening V
      → Attempt F
      → ℕ
      → Option TenantId
      → Text
      → Text
      → ℕ
      → Option Text
      → Call (Server F G V) Bool
  nack_impl opening attempt at tenant queue message_id lease_token reason = do
    g ← on_registry (find_group policy opening tenant queue)
    id ← or_refuse (parse_message_id message_id) invalid_params
    was_nacked ←
        on_registry (step_io (on_group tenant queue (nack float attempt id lease_token reason) g))
    log_event at (nack_event (tenant_label tenant) queue id was_nacked reason)
    pure was_nacked

  unfoldable pub checkpoint_impl :
      Opening V → AppendIo → Option TenantId → Text → Text → ℕ → V → Call (Server F G V) Bool
  checkpoint_impl opening io tenant queue message_id lease_token state = do
    g ← on_registry (find_group policy opening tenant queue)
    id ← or_refuse (parse_message_id message_id) invalid_params
    on_registry (step_io (on_group tenant queue (checkpoint io id lease_token state) g))

  -- The sequence number of the chunk, if it was published.
  unfoldable pub publish_partial_result_impl :
      Opening V
      → Option TenantId
      → Text
      → Text
      → ℕ
      → V
      → Option Bool
      → Call (Server F G V) (Option ℕ)
  publish_partial_result_impl opening tenant queue message_id lease_token content is_final = do
    g ← on_registry (find_group policy opening tenant queue)
    id ← or_refuse (parse_message_id message_id) invalid_params
    let final = or_default false is_final
    on_registry
        (step (on_group tenant queue (publish_partial_result id lease_token content final) g))

  -- The groups at the rounds of the wait are arguments, as other calls change the group meanwhile; the
  -- first one is the group that was found.
  unfoldable pub await_chunks : MessageId → ℕ → List (Group F V V) → StreamPartialResultsResult V
  await_chunks id after [] = record { active = true; chunks = [] }
  await_chunks id after (g ∷ later) =
      let rest = await_chunks id after later in
      elim (poll_partial_results id after g) [
        | none ↦ rest
        | some not_active ↦ record { active = false; chunks = [] }
        | some (PartialResultsPoll.chunks cs) ↦ record { active = true; chunks = cs }
      ]

  unfoldable pub stream_partial_results_impl :
      Opening V
      → List (Group F V V)
      → Option TenantId
      → Text
      → Text
      → Option ℕ
      → Call (Server F G V) (StreamPartialResultsResult V)
  unfolding await_chunks
  stream_partial_results_impl opening later tenant queue message_id after_sequence = do
    g ← on_registry (find_group policy opening tenant queue)
    id ← or_refuse (parse_message_id message_id) invalid_params
    pure (await_chunks id (or_default 0 after_sequence) (g ∷ later))
