-- ===== src/Server/Registry.antt =====
-- `QueueRegistry` of crates/qaas-server/src/mcp.rs: what belongs to a queue is kept under a key made of the
-- tenant and the name of the queue, and what belongs to a tenant under the tenant.
use queue_as_a_service.Base.{
  ℕ, ◌+◌, min, Bool, true, false, ◌&&◌, [], ◌∷◌, ◌++◌, Option, none, some, Map, get, insert, length,
  leb, ◌==◌, if◌then◌else◌,
}
use queue_as_a_service.Log.{Log}
use queue_as_a_service.Types.{MessageId, Text}
use queue_as_a_service.Retry.{RetryPolicy}
use queue_as_a_service.DeadLetter
use queue_as_a_service.ConsumerGroup.State.{Group, WalRecord, len}
use queue_as_a_service.ConsumerGroup.Recovery.{open_group}
use queue_as_a_service.Quota
use queue_as_a_service.Quota.{TenantQuota, new_quota}
use queue_as_a_service.Admission
use queue_as_a_service.Admission.{AdmissionController, new_controller, saturating_add}
use queue_as_a_service.Semantic.{EmbeddingIndex, new_index}
use queue_as_a_service.Auth.{TenantId, Text-discrete, all_name_chars}
use queue_as_a_service.Server.Answers.{
  invalid_params, invalid_request, internal_error, Call, pure, refuse, gets, step, or_refuse,
  refuse_if, ◌>>=◌, ◌>>◌, modify,
}

-- 30 seconds and 600 seconds.
unfoldable pub visibility_timeout : ℕ
visibility_timeout = 30000000000

unfoldable pub dedup_ttl : ℕ
dedup_ttl = 600000000000

unfoldable pub is_queue_name : Text → Bool
is_queue_name [] = false
is_queue_name (c ∷ cs) = leb (length (c ∷ cs)) 128 && all_name_chars (c ∷ cs)

unfoldable pub validate_queue_name : {S : Type 0} → Text → Call S (Unit {0})
validate_queue_name name = if is_queue_name name then pure tt else refuse invalid_params

-- The tenant, a NUL byte and the name; the name alone for the local connection.
unfoldable pub scope_key : Option TenantId → Text → Text
scope_key none name = name
scope_key (some tenant) name = tenant.text ++ 0 ∷ name

unfoldable pub tenant_key : Option TenantId → Text
tenant_key none = []
tenant_key (some tenant) = tenant.text

unfoldable pub tenant_prefix : TenantId → Text
tenant_prefix tenant = tenant.text ++ 0 ∷ []

unfoldable pub starts_with : Text → Text → Bool
starts_with [] text = true
starts_with (p ∷ ps) [] = false
starts_with (p ∷ ps) (c ∷ cs) = p == c && starts_with ps cs

-- `split_once` at the first NUL byte.
unfoldable pub split_once : Text → Option (Text × Text)
split_once [] = none
split_once (c ∷ cs) =
    let rest = split_once cs in
    if c == 0
    then some ([], cs)
    else elim rest [ none ↦ none | some parts ↦ some (c ∷ parts.0, parts.1) ]

-- "none"
abbrev pub no_tenant : Text
no_tenant = 110 ∷ 111 ∷ 110 ∷ 101 ∷ []

unfoldable pub split_scope_key : Text → Text × Text
unfolding split_once
split_scope_key key = elim (split_once key) [ some parts ↦ parts | none ↦ (no_tenant, key) ]

pub record Registry (F G V : Type 0) : Type 0 where
  pub groups : Map Text (Group F V V)
  pub admission : Map Text (AdmissionController F)
  pub dedup : Map Text (EmbeddingIndex MessageId G)
  pub routes : Map Text (EmbeddingIndex Text G)
  pub tenant_quotas : Map Text TenantQuota

-- What the files of a queue hold when they are opened; `none` if the directory cannot be made or a file
-- cannot be opened.
abbrev pub Opening : Type 0 → Type 0
Opening V = Option (Log (WalRecord V V) × Log (DeadLetter.WalRecord V V))

module _ {F V : Type 0} where
  unfoldable pub count_matching : TenantId → Map Text (Group F V V) → ℕ
  unfolding starts_with tenant_prefix
  count_matching tenant [] = 0
  count_matching tenant ((key, g) ∷ groups) =
      let rest = count_matching tenant groups in
      if starts_with (tenant_prefix tenant) key then rest + 1 else rest

  unfoldable pub pending_total_from : TenantId → ℕ → Map Text (Group F V V) → ℕ
  unfolding starts_with tenant_prefix len
  pending_total_from tenant total [] = total
  pending_total_from tenant total ((key, g) ∷ groups) =
      pending_total_from tenant
        (if starts_with (tenant_prefix tenant) key
          then saturating_add total (min (len g) 18446744073709551615)
          else total)
        groups

module _ {F G V : Type 0} where
  unfoldable pub new_registry : Registry F G V
  new_registry = record { groups = []; admission = []; dedup = []; routes = []; tenant_quotas = [] }

  -- The look-ups that add what is missing. Each gives a handle to what the map holds under the key.
  unfoldable pub find_quota : TenantId → Registry F G V → Registry F G V × TenantQuota
  find_quota tenant r = elim (get Text-discrete tenant.text r.tenant_quotas) [
    | some quota ↦ (r, quota)
    | none ↦
        let quota = new_quota Quota.unlimited in
        (record r { tenant_quotas = insert Text-discrete tenant.text quota r.tenant_quotas }, quota)
  ]

  unfoldable pub find_admission :
      Option TenantId → Text → Call (Registry F G V) (AdmissionController F)
  unfolding validate_queue_name
  find_admission tenant name = do
    validate_queue_name name
    step (λ r. elim (get Text-discrete (scope_key tenant name) r.admission) [
      | some controller ↦ (r, controller)
      | none ↦
          let controller = new_controller Admission.unlimited in
          (
            record r {
              admission = insert Text-discrete (scope_key tenant name) controller r.admission;
            },
            controller,
          )
    ])

  unfoldable pub find_dedup :
      Option TenantId → Text → Call (Registry F G V) (EmbeddingIndex MessageId G)
  unfolding validate_queue_name
  find_dedup tenant name = do
    validate_queue_name name
    step (λ r. elim (get Text-discrete (scope_key tenant name) r.dedup) [
      | some index ↦ (r, index)
      | none ↦
          let index = new_index (some dedup_ttl) in
          (record r { dedup = insert Text-discrete (scope_key tenant name) index r.dedup }, index)
    ])

  unfoldable pub find_routes :
      Option TenantId → Registry F G V → Registry F G V × EmbeddingIndex Text G
  find_routes tenant r = elim (get Text-discrete (tenant_key tenant) r.routes) [
    | some index ↦ (r, index)
    | none ↦
        let index = new_index none in
        (record r { routes = insert Text-discrete (tenant_key tenant) index r.routes }, index)
  ]

  unfoldable pub tenant_queue_count : TenantId → Registry F G V → ℕ
  unfolding count_matching
  tenant_queue_count tenant r = count_matching tenant r.groups

  unfoldable pub tenant_pending_total : TenantId → Registry F G V → ℕ
  unfolding pending_total_from
  tenant_pending_total tenant r = pending_total_from tenant 0 r.groups

  -- Whether a new queue would be one too many.
  unfoldable pub at_queue_limit : Option TenantId → Registry F G V → Registry F G V × Bool
  unfolding find_quota count_matching
  at_queue_limit none r = (r, false)
  at_queue_limit (some tenant) r =
      let (r', quota) = find_quota tenant r in
      (
        r',
        elim quota.config.max_queues [
          | none ↦ false
          | some max_queues ↦ leb max_queues (count_matching tenant r'.groups)
        ],
      )

  unfoldable pub open_new :
      RetryPolicy F → Opening V → Option TenantId → Text → Call (Registry F G V) (Group F V V)
  unfolding at_queue_limit
  open_new policy opening tenant name = do
    full ← step (at_queue_limit tenant)
    refuse_if full invalid_request
    logs ← or_refuse opening internal_error
    let g : Group F V V = open_group logs.0 logs.1 visibility_timeout policy
    modify (λ r. record r { groups = insert Text-discrete (scope_key tenant name) g r.groups })
    pure g

  -- `QueueRegistry::get`.
  unfoldable pub find_group :
      RetryPolicy F → Opening V → Option TenantId → Text → Call (Registry F G V) (Group F V V)
  unfolding validate_queue_name open_new
  find_group policy opening tenant name = do
    validate_queue_name name
    found ← gets (λ r. get Text-discrete (scope_key tenant name) r.groups)
    elim found [ some g ↦ pure g | none ↦ open_new policy opening tenant name ]

  -- What a handle does to what it points to.
  abbrev pub set_group : Text → Group F V V → Registry F G V → Registry F G V
  set_group key g r = record r { groups = insert Text-discrete key g r.groups }

  abbrev pub set_admission : Text → AdmissionController F → Registry F G V → Registry F G V
  set_admission key c r = record r { admission = insert Text-discrete key c r.admission }

  abbrev pub set_dedup : Text → EmbeddingIndex MessageId G → Registry F G V → Registry F G V
  set_dedup key x r = record r { dedup = insert Text-discrete key x r.dedup }

  abbrev pub set_routes : Text → EmbeddingIndex Text G → Registry F G V → Registry F G V
  set_routes key x r = record r { routes = insert Text-discrete key x r.routes }

  abbrev pub set_quota : TenantId → TenantQuota → Registry F G V → Registry F G V
  set_quota tenant q r = record r {
    tenant_quotas = insert Text-discrete tenant.text q r.tenant_quotas;
  }
