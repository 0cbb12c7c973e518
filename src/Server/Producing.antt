-- ===== src/Server/Producing.antt =====
-- The tool `enqueue` of crates/qaas-server/src/mcp.rs.
use queue_as_a_service.Base.{ℕ, Bool, true, false, Option, none, some, List, leb, if◌then◌else◌}
use queue_as_a_service.Log.{AppendIo, Result}
use queue_as_a_service.Types.{MessageId, Text, IdempotencyKey, new_key}
use queue_as_a_service.Admission.{try_admit, AdmissionDecision, admitted, denied}
use queue_as_a_service.Semantic.{Embedding, new_embedding, nearest, insert_embedding}
use queue_as_a_service.Auth.{TenantId}
use queue_as_a_service.ConsumerGroup.State.{Group}
use queue_as_a_service.ConsumerGroup.Enqueue.{enqueue, enqueue_with_key}
use queue_as_a_service.Base.{ℕ_discrete}
use queue_as_a_service.Server.Answers.{
  invalid_params, invalid_request, throttled, Call, pure, refuse, step, step_io, or_refuse, ◌>>=◌,
  ◌>>◌,
}
use queue_as_a_service.Server.Registry.{
  Registry, Opening, scope_key, tenant_key, find_quota, find_admission, find_dedup, find_routes,
  find_group, tenant_pending_total, set_group, set_admission, set_dedup, set_routes,
}
use queue_as_a_service.Server.State.{
  Setting, Server, enqueue_event, tenant_label, on_registry, log_event,
}

pub record EnqueueParams (F G V : Type 0) : Type 0 where
  pub queue : Option Text
  pub payload : V
  pub idempotency_key : Option Text
  pub estimated_tokens : Option ℕ
  pub estimated_cost : Option F
  pub embedding : Option (List G)

pub record EnqueueResult (F G : Type 0) : Type 0 where
  pub message_id : MessageId
  pub queue : Text
  pub deduplicated : Bool
  pub similarity : Option G
  pub tokens_remaining : Option ℕ
  pub cost_remaining : Option F

-- What one call reads: the clock, the files of the queue, a fresh id, and the course of its write.
pub record EnqueueReadings (V : Type 0) : Type 0 where
  pub routes_now : ℕ
  pub opening : Opening V
  pub dedup_now : ℕ
  pub admit_now : ℕ
  pub fresh_id : MessageId
  pub io : AppendIo
  pub insert_now : ℕ
  pub log_at : ℕ

-- `unwrap_or`.
abbrev pub or_default : {A : Type 0} → A → Option A → A
or_default a none = a
or_default a (some b) = b

abbrev name_of : {A B : Type 0} → Option (A × B) → Option A
name_of none = none
name_of (some found) = some found.0

abbrev near_enough : {F G : Type 0} → Setting F G → Option (MessageId × G) → Option (MessageId × G)
near_enough setting none = none
near_enough setting (some twin) =
    if setting.reaches twin.1 setting.dedup_similarity_threshold then some twin else none

module _ {F G V : Type 0} where
  -- Whether the tenant has as many pending messages as it may.
  unfoldable pub at_pending_limit : Option TenantId → Registry F G V → Registry F G V × Bool
  at_pending_limit none r = (r, false)
  at_pending_limit (some tenant) r =
      let (r', quota) = find_quota tenant r in
      (
        r',
        elim quota.config.max_pending_messages [
          | none ↦ false
          | some max_pending ↦ leb max_pending (tenant_pending_total tenant r')
        ],
      )

module _ {F G V : Type 0} (setting : Setting F G) where
  open setting use {cost, float32, policy}

  -- A value that may be given is validated where it is.
  unfoldable pub check : {A B : Type 0} → (A → Option B) → Option A → Call (Server F G V) (Option B)
  check f none = pure none
  check f (some a) = do b ← or_refuse (f a) invalid_params; pure (some b)

  unfoldable pub resolve_target_queue :
      ℕ → Option TenantId → Option Text → Option (Embedding G) → Call (Server F G V) Text
  resolve_target_queue now tenant (some queue) embedding = pure queue
  resolve_target_queue now tenant none none = refuse invalid_params
  resolve_target_queue now tenant none (some e) = do
    best ← on_registry (
        step (λ r.
          let (r', routes) = find_routes tenant r in
          let (routes', best) = nearest float32 now e routes in
          (set_routes (tenant_key tenant) routes' r', best)))
    or_refuse (name_of best) invalid_params

  -- The entry of the index that is similar enough.
  unfoldable pub find_duplicate :
      ℕ
      → Option TenantId
      → Text
      → Option (Embedding G)
      → Call (Server F G V) (Option (MessageId × G))
  find_duplicate now tenant queue none = pure none
  find_duplicate now tenant queue (some e) = on_registry (do
    index ← find_dedup tenant queue
    let found = nearest float32 now e index
    best ← step (λ r. (set_dedup (scope_key tenant queue) found.0 r, found.1))
    pure (near_enough setting best))

  -- A refusal is logged before it is returned.
  unfoldable pub deny :
      {A : Type 0} → ℕ → Option TenantId → Text → Call (Server F G V) A → Call (Server F G V) A
  deny at tenant queue m = do
    log_event at (enqueue_event (tenant_label tenant) queue none false true)
    m

  unfoldable pub budget_left :
      ℕ → Option TenantId → Text → AdmissionDecision F → Call (Server F G V) (Option ℕ × Option F)
  budget_left at tenant queue (admitted tokens cost_left) = pure (tokens, cost_left)
  budget_left at tenant queue (denied retry_after) =
      deny at tenant queue (refuse (throttled retry_after))

  -- The part of `enqueue_impl` behind the look for duplicates.
  unfoldable pub enqueue_new :
      EnqueueReadings V
      → Option TenantId
      → EnqueueParams F G V
      → Text
      → Option (Embedding G)
      → Option IdempotencyKey
      → Call (Server F G V) (EnqueueResult F G)
  unfolding at_pending_limit budget_left
  enqueue_new readings tenant params queue embedding key = do
    full ← on_registry (step (at_pending_limit tenant))
    if full then deny readings.log_at tenant queue (refuse invalid_request) else pure tt
    admission ← on_registry (find_admission tenant queue)
    let decided =
        try_admit cost readings.admit_now (or_default 0 params.estimated_tokens)
          (or_default cost.zero params.estimated_cost) admission
    decision ←
        on_registry (step (λ r. (set_admission (scope_key tenant queue) decided.0 r, decided.1)))
    remaining ← budget_left readings.log_at tenant queue decision
    g ← on_registry (find_group policy readings.opening tenant queue)
    id ← on_registry (
        step_io (λ r.
          let (g', result) : Group F V V × Result MessageId = elim key [
            | some k ↦ enqueue_with_key readings.io readings.fresh_id params.payload k g
            | none ↦ enqueue readings.io readings.fresh_id params.payload g
          ] in
          (set_group (scope_key tenant queue) g' r, result)))
    elim embedding [
      | none ↦ pure tt
      | some e ↦ on_registry (do
        index ← find_dedup tenant queue
        step (λ r. (
          set_dedup (scope_key tenant queue)
              (insert_embedding ℕ_discrete readings.insert_now id e index) r,
          tt,
        )))
    ]
    log_event readings.log_at (enqueue_event (tenant_label tenant) queue (some id) false false)
    pure (record {
      message_id = id;
      queue = queue;
      deduplicated = false;
      similarity = none;
      tokens_remaining = remaining.0;
      cost_remaining = remaining.1;
    })

  unfoldable pub enqueue_impl :
      EnqueueReadings V
      → Option TenantId
      → EnqueueParams F G V
      → Call (Server F G V) (EnqueueResult F G)
  unfolding enqueue_new find_duplicate resolve_target_queue
  enqueue_impl readings tenant params = do
    embedding ← check (new_embedding float32) params.embedding
    queue ← resolve_target_queue readings.routes_now tenant params.queue embedding
    g ← on_registry (find_group policy readings.opening tenant queue)
    admission ← on_registry (find_admission tenant queue)
    elim embedding [
      | none ↦ pure tt
      | some _ ↦ do index ← on_registry (find_dedup tenant queue); pure tt
    ]
    key ← check new_key params.idempotency_key
    twin ← find_duplicate readings.dedup_now tenant queue embedding
    elim twin [
      | none ↦ enqueue_new readings tenant params queue embedding key
      | some found ↦ do
        log_event readings.log_at
            (enqueue_event (tenant_label tenant) queue (some found.0) true false)
        pure (record {
          message_id = found.0;
          queue = queue;
          deduplicated = true;
          similarity = some found.1;
          tokens_remaining = none;
          cost_remaining = none;
        })
    ]
