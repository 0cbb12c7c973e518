-- ===== src/Server/Settings.antt =====
-- The tools of crates/qaas-server/src/mcp.rs that configure budgets, routes and quotas and report on them.
-- Windows are counted in nanoseconds.
use queue_as_a_service.Base.{ℕ, ◌-◌, ◌*◌, ◌/◌, Option, none, some, List}
use queue_as_a_service.Types.{Text}
use queue_as_a_service.Quota
use queue_as_a_service.Quota.{QuotaConfig, requests_in_window}
use queue_as_a_service.Admission
use queue_as_a_service.Admission.{AdmissionConfig, Cost, usage}
use queue_as_a_service.Semantic.{new_embedding, insert_embedding, live_keys}
use queue_as_a_service.Auth.{TenantId, new_tenant_id, Text-discrete}
use queue_as_a_service.Server.Answers.{
  invalid_params, invalid_request, Call, pure, refuse, step, or_refuse, modify, ◌>>=◌, ◌>>◌,
}
use queue_as_a_service.Server.Registry.{
  scope_key, tenant_key, validate_queue_name, find_quota, find_admission, find_routes,
  tenant_queue_count, tenant_pending_total, set_admission, set_routes, set_quota,
}
use queue_as_a_service.Server.State.{Setting, Server, on_registry}
use queue_as_a_service.Server.Producing.{or_default}

abbrev pub seconds : ℕ → ℕ
seconds n = n * 1000000000

-- `Option::map`.
abbrev map_option : {A B : Type 0} → (A → B) → Option A → Option B
map_option f none = none
map_option f (some a) = some (f a)

pub record AdmissionStatusResult (F : Type 0) : Type 0 where
  pub tokens_per_window : Option ℕ
  pub cost_ceiling_per_window : Option F
  pub window_seconds : ℕ
  pub tokens_used : ℕ
  pub cost_used : F
  pub tokens_remaining : Option ℕ
  pub cost_remaining : Option F

pub record ConfigureTenantQuotaParams : Type 0 where
  pub tenant_id : Text
  pub max_queues : Option ℕ
  pub max_pending_messages : Option ℕ
  pub requests_per_window : Option ℕ
  pub window_seconds : Option ℕ

pub record TenantQuotaStatusResult : Type 0 where
  pub tenant_id : Text
  pub max_queues : Option ℕ
  pub queues_open : ℕ
  pub max_pending_messages : Option ℕ
  pub pending_messages : ℕ
  pub requests_per_window : Option ℕ
  pub requests_in_window : ℕ
  pub window_seconds : ℕ

module _ {F G V : Type 0} (setting : Setting F G) where
  open setting use {cost, float, float32}

  unfoldable pub configure_admission_impl :
      Option TenantId
      → Text
      → Option ℕ
      → Option F
      → Option ℕ
      → Call (Server F G V) (AdmissionConfig F)
  configure_admission_impl tenant queue tokens ceiling window_seconds = on_registry (do
    controller ← find_admission tenant queue
    let config : AdmissionConfig F = record {
      tokens_per_window = tokens;
      cost_ceiling_per_window = ceiling;
      window = seconds (or_default 3600 window_seconds);
    }
    modify (set_admission (scope_key tenant queue) (Admission.set_config config controller))
    pure config)

  unfoldable pub admission_status_impl :
      ℕ → Option TenantId → Text → Call (Server F G V) (AdmissionStatusResult F)
  admission_status_impl now tenant queue = on_registry (do
    controller ← find_admission tenant queue
    let config = controller.config
    let looked = usage cost now controller
    modify (set_admission (scope_key tenant queue) looked.0)
    pure (record {
      tokens_per_window = config.tokens_per_window;
      cost_ceiling_per_window = config.cost_ceiling_per_window;
      window_seconds = config.window / 1000000000;
      tokens_used = looked.1.tokens_used;
      cost_used = looked.1.cost_used;
      tokens_remaining =
          map_option (λ limit. limit - looked.1.tokens_used) config.tokens_per_window;
      cost_remaining =
          map_option (λ ceiling. float.max_f (cost.sub ceiling looked.1.cost_used) cost.zero)
            config.cost_ceiling_per_window;
    }))

  -- `sort` is `sort_unstable`.
  unfoldable pub configure_route_impl :
      (List Text → List Text)
      → ℕ
      → ℕ
      → Option TenantId
      → Text
      → List G
      → Call (Server F G V) (List Text)
  configure_route_impl sort insert_now keys_now tenant queue values = do
    validate_queue_name queue
    e ← or_refuse (new_embedding float32 values) invalid_params
    names ← on_registry (
        step (λ r.
          let (r', routes) = find_routes tenant r in
          let looked =
            live_keys keys_now (insert_embedding Text-discrete insert_now queue e routes) in
          (set_routes (tenant_key tenant) looked.0 r', looked.1)))
    pure (sort names)

  -- Only the local connection may call it.
  unfoldable pub configure_tenant_quota_impl :
      Option TenantId → ConfigureTenantQuotaParams → Call (Server F G V) (TenantId × QuotaConfig)
  configure_tenant_quota_impl (some caller) params = refuse invalid_request
  configure_tenant_quota_impl none params = do
    tenant ← or_refuse (new_tenant_id params.tenant_id) invalid_params
    let config : QuotaConfig = record {
      max_queues = params.max_queues;
      max_pending_messages = params.max_pending_messages;
      requests_per_window = params.requests_per_window;
      window = seconds (or_default 60 params.window_seconds);
    }
    on_registry (
        modify (λ r.
          let (r', quota) = find_quota tenant r in
          set_quota tenant (Quota.set_config config quota) r'))
    pure (tenant, config)

  -- A tenant is told of itself, whatever it asks for.
  unfoldable pub reported_tenant : Option TenantId → Option Text → Call (Server F G V) TenantId
  reported_tenant (some tenant) tenant_id = pure tenant
  reported_tenant none none = refuse invalid_params
  reported_tenant none (some tenant_id) = or_refuse (new_tenant_id tenant_id) invalid_params

  unfoldable pub tenant_quota_status_impl :
      ℕ → Option TenantId → Option Text → Call (Server F G V) TenantQuotaStatusResult
  unfolding reported_tenant
  tenant_quota_status_impl now caller tenant_id = do
    tenant ← reported_tenant caller tenant_id
    on_registry (
        step (λ r.
          let (r', quota) = find_quota tenant r in
          let looked = requests_in_window now quota in
          (
            set_quota tenant looked.0 r',
            record {
              tenant_id = tenant.text;
              max_queues = quota.config.max_queues;
              queues_open = tenant_queue_count tenant r';
              max_pending_messages = quota.config.max_pending_messages;
              pending_messages = tenant_pending_total tenant r';
              requests_per_window = quota.config.requests_per_window;
              requests_in_window = looked.1;
              window_seconds = quota.config.window / 1000000000;
            },
          )))
