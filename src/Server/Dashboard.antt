-- ===== src/Server/Dashboard.antt =====
-- The snapshots of crates/qaas-server/src/mcp.rs for the dashboard: one row for each queue and for each tenant.
use queue_as_a_service.Base.{ℕ, ◌*◌, List, [], ◌∷◌, Option, none, some, Map, get, length}
use queue_as_a_service.Types.{MessageId, Text}
use queue_as_a_service.Quota.{requests_in_window}
use queue_as_a_service.Admission.{usage}
use queue_as_a_service.ConsumerGroup.State.{Group, len}
use queue_as_a_service.ConsumerGroup.Enqueue.{oldest_pending_age}
use queue_as_a_service.ConsumerGroup.Letters.{dead_letters}
use queue_as_a_service.Auth.{TenantId, Text-discrete, new_tenant_id}
use queue_as_a_service.Server.Registry.{
  Registry, split_once, split_scope_key, find_quota, set_quota, set_admission, tenant_queue_count,
  tenant_pending_total,
}
use queue_as_a_service.Server.State.{Setting, Server}

pub record QueueStatus (F : Type 0) : Type 0 where
  pub tenant : Text
  pub queue : Text
  pub depth : ℕ
  pub oldest_pending_age_seconds : F
  pub dead_letters : ℕ
  pub tokens_used : ℕ
  pub tokens_per_window : Option ℕ
  pub cost_used : F
  pub cost_ceiling_per_window : Option F

pub record TenantStatus : Type 0 where
  pub tenant : Text
  pub queues_open : ℕ
  pub pending_messages : ℕ
  pub requests_in_window : ℕ
  pub requests_per_window : Option ℕ

pub record DashboardSnapshot (F : Type 0) : Type 0 where
  pub generated_at_ms : ℕ
  pub queues : List (QueueStatus F)
  pub tenants : List TenantStatus
  pub audit_events_written : ℕ
  pub audit_events_dropped : ℕ

-- The age is in milliseconds, a duration in nanoseconds.
abbrev age_seconds : {F G : Type 0} → Setting F G → Option ℕ → F
age_seconds setting none = setting.cost.zero
age_seconds setting (some age) = setting.float.as_secs (age * 1000000)

module _ {F G V : Type 0} (setting : Setting F G) (timestamp : MessageId → ℕ) where
  open setting use {cost}

  -- The row of a queue; a look at its budget drops what has left the window.
  unfoldable pub queue_status :
      ℕ → ℕ → Text → Group F V V → Registry F G V → Registry F G V × QueueStatus F
  queue_status wall_clock now key g r =
      let parts = split_scope_key key in
      elim (get Text-discrete key r.admission) [
        | none ↦ (
          r,
          record {
            tenant = parts.0;
            queue = parts.1;
            depth = len g;
            oldest_pending_age_seconds =
                age_seconds setting (oldest_pending_age timestamp wall_clock g);
            dead_letters = length (dead_letters g);
            tokens_used = 0;
            tokens_per_window = none;
            cost_used = cost.zero;
            cost_ceiling_per_window = none;
          },
        )
        | some controller ↦
            let looked = usage cost now controller in
            (
              set_admission key looked.0 r,
              record {
                tenant = parts.0;
                queue = parts.1;
                depth = len g;
                oldest_pending_age_seconds =
                    age_seconds setting (oldest_pending_age timestamp wall_clock g);
                dead_letters = length (dead_letters g);
                tokens_used = looked.1.tokens_used;
                tokens_per_window = controller.config.tokens_per_window;
                cost_used = looked.1.cost_used;
                cost_ceiling_per_window = controller.config.cost_ceiling_per_window;
              },
            )
      ]

  unfoldable pub queue_snapshots :
      ℕ → ℕ → Map Text (Group F V V) → Registry F G V → Registry F G V × List (QueueStatus F)
  unfolding queue_status
  queue_snapshots wall_clock now [] r = (r, [])
  queue_snapshots wall_clock now ((key, g) ∷ groups) r =
      let (r', row) = queue_status wall_clock now key g r in
      let (r'', rows) = queue_snapshots wall_clock now groups r' in (r'', row ∷ rows)

-- The tenants that have a queue open.
unfoldable pub tenant_labels : {A : Type 0} → Map Text A → List Text
tenant_labels [] = []
tenant_labels ((key, g) ∷ groups) =
    let rest = tenant_labels groups in
    elim (split_once key) [ none ↦ rest | some parts ↦ parts.0 ∷ rest ]

module _ {F G V : Type 0} where
  unfoldable pub tenant_status : ℕ → TenantId → Registry F G V → Registry F G V × TenantStatus
  tenant_status now tenant r =
      let (r', quota) = find_quota tenant r in
      let looked = requests_in_window now quota in
      (
        set_quota tenant looked.0 r',
        record {
          tenant = tenant.text;
          queues_open = tenant_queue_count tenant r';
          pending_messages = tenant_pending_total tenant r';
          requests_in_window = looked.1;
          requests_per_window = quota.config.requests_per_window;
        },
      )

  -- The rows of the labels; `none` where `expect` panics on a label.
  unfoldable pub tenant_rows :
      ℕ → List Text → Registry F G V → Registry F G V × Option (List TenantStatus)
  unfolding tenant_status
  tenant_rows now [] r = (r, some [])
  tenant_rows now (label ∷ labels) r = elim (new_tenant_id label) [
    | none ↦ (r, none)
    | some tenant ↦
        let (r', row) = tenant_status now tenant r in
        let rest = tenant_rows now labels r' in
        elim rest.1 [ none ↦ (rest.0, none) | some rows ↦ (rest.0, some (row ∷ rows)) ]
  ]

  -- `as_set` is the collection into a `BTreeSet`, which sorts and drops what stands twice.
  unfoldable pub tenant_snapshots :
      (List Text → List Text) → ℕ → Registry F G V → Registry F G V × Option (List TenantStatus)
  unfolding tenant_labels tenant_rows
  tenant_snapshots as_set now r = tenant_rows now (as_set (tenant_labels r.groups)) r

-- One reading of each clock stands for those of the rows.
unfoldable pub dashboard_snapshot :
    {F G V : Type 0}
    → Setting F G
    → (MessageId → ℕ)
    → (List Text → List Text)
    → ℕ
    → ℕ
    → Server F G V
    → Server F G V × Option (DashboardSnapshot F)
unfolding queue_snapshots tenant_snapshots
dashboard_snapshot setting timestamp as_set wall_clock now s =
    let queues = queue_snapshots setting timestamp wall_clock now s.registry.groups s.registry in
    let tenants = tenant_snapshots as_set now queues.0 in
    (
      record s { registry = tenants.0 },
      elim tenants.1 [
        | none ↦ none
        | some rows ↦ some (record {
          generated_at_ms = wall_clock;
          queues = queues.1;
          tenants = rows;
          audit_events_written = s.audit.written;
          audit_events_dropped = s.audit.dropped;
        })
      ],
    )
