-- ===== src/Server/Requests.antt =====
-- The tools of crates/qaas-server/src/mcp.rs as one type of requests, and what they answer.
use queue_as_a_service.Base.{ℕ, Bool, Option, List}
use queue_as_a_service.Log.{AppendIo}
use queue_as_a_service.Types.{Text}
use queue_as_a_service.ConsumerGroup.State.{Group}
use queue_as_a_service.ConsumerGroup.Resolve.{Attempt}
use queue_as_a_service.DeadLetter.{TriageClassification}
use queue_as_a_service.Auth.{TenantId}
use queue_as_a_service.Server.Answers.{Call, pure, ◌>>=◌}
use queue_as_a_service.Server.Registry.{Opening}
use queue_as_a_service.Server.State.{Setting, Server, authorize}
use queue_as_a_service.Server.Producing.{
  EnqueueResult, EnqueueParams, EnqueueReadings, enqueue_impl,
}
use queue_as_a_service.Server.Consuming.{
  ClaimResult, StreamPartialResultsResult, Waiting, claim_impl, ack_impl, nack_impl,
  checkpoint_impl, publish_partial_result_impl, stream_partial_results_impl,
}
use queue_as_a_service.Server.Settings.{
  AdmissionStatusResult, TenantQuotaStatusResult, ConfigureTenantQuotaParams,
  configure_admission_impl, admission_status_impl, configure_route_impl,
  configure_tenant_quota_impl, tenant_quota_status_impl,
}
use queue_as_a_service.Server.Letters.{
  DeadLetterSummary, TriageDeadLetterResult, list_dead_letters_impl, triage_dead_letter_impl,
  reprocess_dead_letter_impl, purge_dead_letter_impl,
}
use queue_as_a_service.Server.Credentials.{create_api_key_impl, revoke_api_key_impl}
use queue_as_a_service.Quota.{QuotaConfig}
use queue_as_a_service.Admission.{AdmissionConfig}

-- A call of a tool, with what it reads.
pub data Request (F G V : Type 0) : Type 0 where
  enqueue_call : EnqueueReadings V → EnqueueParams F G V → Request F G V
  claim_call : Opening V → ℕ → Waiting F → Text → Request F G V
  ack_call : Opening V → AppendIo → ℕ → Text → Text → ℕ → Request F G V
  nack_call : Opening V → Attempt F → ℕ → Text → Text → ℕ → Option Text → Request F G V
  checkpoint_call : Opening V → AppendIo → Text → Text → ℕ → V → Request F G V
  publish_call : Opening V → Text → Text → ℕ → V → Option Bool → Request F G V
  stream_call : Opening V → List (Group F V V) → Text → Text → Option ℕ → Request F G V
  configure_admission_call : Text → Option ℕ → Option F → Option ℕ → Request F G V
  admission_status_call : ℕ → Text → Request F G V
  configure_route_call : (List Text → List Text) → ℕ → ℕ → Text → List G → Request F G V
  list_letters_call : Opening V → Text → Request F G V
  triage_call :
      Opening V
      → AppendIo
      → AppendIo
      → AppendIo
      → ℕ
      → Text
      → Text
      → TriageClassification
      → Text
      → Request F G V
  reprocess_call : Opening V → AppendIo → AppendIo → Text → Text → Request F G V
  purge_call : Opening V → AppendIo → Text → Text → Request F G V
  create_key_call : AppendIo → Text → Text → Request F G V
  revoke_key_call : AppendIo → Text → Request F G V
  configure_quota_call : ConfigureTenantQuotaParams → Request F G V
  quota_status_call : ℕ → Option Text → Request F G V

-- What a tool answers.
pub data Reply (F G V : Type 0) : Type 0 where
  enqueue_reply : EnqueueResult F G → Reply F G V
  claim_reply : ClaimResult V V → Reply F G V
  ack_reply : Bool → Reply F G V
  nack_reply : Bool → Reply F G V
  checkpoint_reply : Bool → Reply F G V
  publish_reply : Option ℕ → Reply F G V
  stream_reply : StreamPartialResultsResult V → Reply F G V
  configure_admission_reply : AdmissionConfig F → Reply F G V
  admission_status_reply : AdmissionStatusResult F → Reply F G V
  configure_route_reply : List Text → Reply F G V
  list_letters_reply : List (DeadLetterSummary V) → Reply F G V
  triage_reply : TriageDeadLetterResult → Reply F G V
  reprocess_reply : Bool → Reply F G V
  purge_reply : Bool → Reply F G V
  create_key_reply : (Text × TenantId) → Reply F G V
  revoke_key_reply : Bool → Reply F G V
  configure_quota_reply : (TenantId × QuotaConfig) → Reply F G V
  quota_status_reply : TenantQuotaStatusResult → Reply F G V

module _ {F G V : Type 0} (setting : Setting F G) where
  -- What the tool does once the caller is authorized.
  unfoldable pub perform : Option TenantId → Request F G V → Call (Server F G V) (Reply F G V)
  perform t (enqueue_call readings params) =
      enqueue_impl setting readings t params >>= λ a. pure (enqueue_reply a)
  perform t (claim_call opening now waiting queue) =
      claim_impl setting opening now waiting t queue >>= λ a. pure (claim_reply a)
  perform t (ack_call opening io at queue id token) =
      ack_impl setting opening io at t queue id token >>= λ a. pure (ack_reply a)
  perform t (nack_call opening attempt at queue id token reason) =
      nack_impl setting opening attempt at t queue id token reason >>= λ a. pure (nack_reply a)
  perform t (checkpoint_call opening io queue id token state) =
      checkpoint_impl setting opening io t queue id token state >>= λ a. pure (checkpoint_reply a)
  perform t (publish_call opening queue id token content final) =
      publish_partial_result_impl setting opening t queue id token content final >>= λ a.
      pure (publish_reply a)
  perform t (stream_call opening later queue id after) =
      stream_partial_results_impl setting opening later t queue id after >>= λ a.
      pure (stream_reply a)
  perform t (configure_admission_call queue tokens ceiling seconds) =
      configure_admission_impl setting t queue tokens ceiling seconds >>= λ a.
      pure (configure_admission_reply a)
  perform t (admission_status_call now queue) =
      admission_status_impl setting now t queue >>= λ a. pure (admission_status_reply a)
  perform t (configure_route_call sort insert_now keys_now queue values) =
      configure_route_impl setting sort insert_now keys_now t queue values >>= λ a.
      pure (configure_route_reply a)
  perform t (list_letters_call opening queue) =
      list_dead_letters_impl setting opening t queue >>= λ a. pure (list_letters_reply a)
  perform t (triage_call opening io dlq_io wal_io at queue id class reason) =
      triage_dead_letter_impl setting opening io dlq_io wal_io at t queue id class reason >>= λ a.
      pure (triage_reply a)
  perform t (reprocess_call opening dlq_io wal_io queue id) =
      reprocess_dead_letter_impl setting opening dlq_io wal_io t queue id >>= λ a.
      pure (reprocess_reply a)
  perform t (purge_call opening io queue id) =
      purge_dead_letter_impl setting opening io t queue id >>= λ a. pure (purge_reply a)
  perform t (create_key_call io raw_key tenant_id) =
      create_api_key_impl setting io raw_key t tenant_id >>= λ a. pure (create_key_reply a)
  perform t (revoke_key_call io api_key) =
      revoke_api_key_impl setting io t api_key >>= λ a. pure (revoke_key_reply a)
  perform t (configure_quota_call params) =
      configure_tenant_quota_impl setting t params >>= λ a. pure (configure_quota_reply a)
  perform t (quota_status_call now tenant_id) =
      tenant_quota_status_impl setting now t tenant_id >>= λ a. pure (quota_status_reply a)

  -- A tool call: the caller is authorized first.
  unfoldable pub serve : ℕ → Option TenantId → Request F G V → Call (Server F G V) (Reply F G V)
  unfolding perform
  serve now caller request = do t ← authorize now caller; perform t request
