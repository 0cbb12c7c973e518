-- ===== src/Server/State.antt =====
-- `QaasMcpServer` of crates/qaas-server/src/mcp.rs: the registry, the API keys and the audit log. A handle to
-- a queue, a budget or an index is the entry under its key, looked up again where it is used.
use queue_as_a_service.Base.{ℕ, Bool, Option, none, some, List}
use queue_as_a_service.Log.{Log}
use queue_as_a_service.Types.{MessageId, Text}
use queue_as_a_service.Retry.{Float, RetryPolicy}
use queue_as_a_service.Quota.{try_acquire, allowed, denied}
use queue_as_a_service.Admission.{Cost}
use queue_as_a_service.Semantic.{Float32}
use queue_as_a_service.Auth
use queue_as_a_service.Auth.{TenantId, ApiKeyStore, open_store}
use queue_as_a_service.Audit.{AuditLogger, AuditRecord, log, open_logger, default_config}
use queue_as_a_service.Server.Answers.{throttled, Call, pure, refuse, step, modify, ◌>>=◌}
use queue_as_a_service.Server.Registry.{Registry, new_registry, find_quota, set_quota, no_tenant}

-- Arithmetic, and what other crates compute: the digest, and the text of an id and its reading.
pub record Setting (F G : Type 0) : Type 0 where
  pub cost : Cost F
  pub float : Float F
  pub float32 : Float32 G
  pub policy : RetryPolicy F
  -- 0.95, and `>=`.
  pub dedup_similarity_threshold : G
  pub reaches : G → G → Bool
  pub sha256 : List ℕ → List ℕ
  pub parse_message_id : Text → Option MessageId
  pub to_text : MessageId → Text

-- Of a refusal only that there was one is kept.
pub data AuditEvent : Type 0 where
  enqueue_event : Text → Text → Option MessageId → Bool → Bool → AuditEvent
  ack_event : Text → Text → MessageId → Bool → AuditEvent
  nack_event : Text → Text → MessageId → Bool → Option Text → AuditEvent

pub record Server (F G V : Type 0) : Type 0 where
  pub registry : Registry F G V
  pub api_keys : ApiKeyStore
  pub audit : AuditLogger AuditEvent

unfoldable pub tenant_label : Option TenantId → Text
tenant_label none = no_tenant
tenant_label (some tenant) = tenant.text

module _ {F G V : Type 0} where
  -- `QaasMcpServer::new`, with what its two logs hold.
  unfoldable pub new_server : Log Auth.WalRecord → Log (AuditRecord AuditEvent) → Server F G V
  new_server keys events = record {
    registry = new_registry;
    api_keys = open_store keys;
    audit = open_logger default_config events;
  }

  unfoldable pub on_registry : {A : Type 0} → Call (Registry F G V) A → Call (Server F G V) A
  on_registry m s = let r = m s.registry in (record s { registry = r.0 }, r.1)

  unfoldable pub log_event : ℕ → AuditEvent → Call (Server F G V) (Unit {0})
  unfolding log
  log_event at event = modify (λ s. record s { audit = log at event s.audit })

  -- `authorize_impl`: a call of a tenant counts against its requests.
  unfoldable pub authorize : ℕ → Option TenantId → Call (Server F G V) (Option TenantId)
  authorize now none = pure none
  authorize now (some tenant) = do
    decision ← on_registry (
        step (λ r.
          let (r', quota) = find_quota tenant r in
          let (quota', decision) = try_acquire now quota in (set_quota tenant quota' r', decision)))
    elim decision [
      | allowed _ ↦ pure (some tenant)
      | denied retry_after ↦ refuse (throttled retry_after)
    ]
