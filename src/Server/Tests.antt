-- ===== src/Server/Tests.antt =====
-- The server on concrete inputs: two tenants and the local connection, with numbers for the floats.
mod Tenants
use queue_as_a_service.Base.{
  ℕ, ◌+◌, ◌-◌, ◌*◌, ◌^◌, min, max, ◌≤◌, ◌≡◌, refl, arith, true, List, [], ◌∷◌, ◌++◌, Option, none,
  some, ltb, leb, ◌==◌, get, ℕ_discrete, length,
}
use queue_as_a_service.Log
use queue_as_a_service.Log.{synced}
use queue_as_a_service.Types.{Text, MessageId, new_key}
use queue_as_a_service.Retry.{Float, RetryPolicy}
use queue_as_a_service.ConsumerGroup.State.{Group, len}
use queue_as_a_service.ConsumerGroup.Resolve.{Attempt}
use queue_as_a_service.ConsumerGroup.Claiming.{Round, expired}
use queue_as_a_service.Quota.{TenantQuota}
use queue_as_a_service.Admission.{Cost}
use queue_as_a_service.Semantic.{Float32}
use queue_as_a_service.Auth.{
  TenantId, Text-discrete, new_tenant_id, all_name_chars, is_name_char, authenticate, open_store,
  replay_from,
}
use queue_as_a_service.Server.Registry.{
  Registry, Opening, validate_queue_name, scope_key, find_admission, is_queue_name,
  tenant_queue_count, count_matching, find_group,
}
use queue_as_a_service.Server.Answers.{pure, refuse, or_refuse, gets, step, answered, ◌>>=◌, ◌>>◌}
use queue_as_a_service.Server.State.{on_registry, Setting, Server, new_server}
use queue_as_a_service.Server.Credentials.{
  AuthState, require_tenant, bearer, bearer_credential, strip_prefix, tenant_of, verify_jwt,
}
use queue_as_a_service.Server.Consuming.{timed_claim}
use queue_as_a_service.Server.Dashboard.{TenantStatus, tenant_snapshots}
use queue_as_a_service.Server.Scopes.{IsTenant}
use queue_as_a_service.Server.Spending.{IsUnspent}
use queue_as_a_service.Server.Producing.{
  EnqueueReadings, EnqueueParams, check, resolve_target_queue, enqueue_impl,
}
use queue_as_a_service.Server.Requests.{Request, enqueue_call, claim_call, ack_call}
use queue_as_a_service.Server.Isolation.{IsUntouched, serve_all, serve_all-IsUntouched}
use queue_as_a_service.Server.Keyed.{serve_mixed, tenant_snapshots-some}
use queue_as_a_service.Server.Interference.{
  answers_to, after_calls, own_calls, answers_to-own_calls,
}
use queue_as_a_service.Server.Views.Agreement.{IsSameFor}
use queue_as_a_service.Server.Limits.{find_group_bounded}
use queue_as_a_service.Server.Login.{Proves, require_tenant-Proves}

abbrev cost : Cost ℕ
cost = record {
  zero = 0;
  add = λ a b. a + b;
  sub = λ a b. a - b;
  exceeds = λ a b. ltb b a;
  is_at_most = leb;
  is_below = ltb;
}

abbrev float : Float ℕ
float = record {
  zero = 0;
  one = 1;
  add = λ a b. a + b;
  sub = λ a b. a - b;
  mul = λ a b. a * b;
  min_f = λ a b. min a b;
  max_f = λ a b. max a b;
  clamp = λ x lo hi. min (max x lo) hi;
  powi = λ a n. a ^ n;
  as_secs = λ n. n;
  from_secs = λ n. n;
}

abbrev float32 : Float32 ℕ
float32 = record {
  sum_start = 0;
  add = λ a b. a + b;
  mul = λ a b. a * b;
  div = λ a b. a;
  sqrt = λ a. a;
  is_zero = λ a. a == 0;
  is_finite = λ a. true;
  exceeds = λ a b. ltb b a;
}

abbrev policy : RetryPolicy ℕ
policy = record {
  base_delay = 500000000;
  max_delay = 60000000000;
  multiplier = 2;
  jitter = 0;
  max_attempts = some 5;
}

abbrev first_number : Text → Option MessageId
first_number [] = none
first_number (c ∷ _) = some c

abbrev setting : Setting ℕ ℕ
setting = record {
  cost = cost;
  float = float;
  float32 = float32;
  policy = policy;
  dedup_similarity_threshold = 1;
  reaches = λ a b. leb b a;
  sha256 = λ bytes. bytes;
  parse_message_id = first_number;
  to_text = λ id. id ∷ [];
}

-- "a" and "b"
abbrev tenant_a : TenantId
tenant_a = record { text = 97 ∷ [] }

abbrev tenant_b : TenantId
tenant_b = record { text = 98 ∷ [] }

abbrev queue : Text
queue = 113 ∷ []

abbrev opening : Opening ℕ
opening = some (Log.empty, Log.empty)

abbrev server : Server ℕ ℕ ℕ
server = new_server Log.empty Log.empty

abbrev enqueue_one : Request ℕ ℕ ℕ
enqueue_one =
    enqueue_call
      (record {
        routes_now = 0;
        opening = opening;
        dedup_now = 0;
        admit_now = 0;
        fresh_id = 7;
        io = synced;
        insert_now = 0;
        log_at = 0;
      })
      (record {
        queue = some queue;
        payload = 5;
        idempotency_key = none;
        estimated_tokens = some 3;
        estimated_cost = none;
        embedding = some (1 ∷ 2 ∷ []);
      })

IsTenant-a : IsTenant (some tenant_a)
unfolding new_tenant_id all_name_chars is_name_char
IsTenant-a = refl

IsTenant-b : IsTenant (some tenant_b)
unfolding new_tenant_id all_name_chars is_name_char
IsTenant-b = refl

is_name : is_queue_name queue ≡ true
unfolding is_queue_name all_name_chars is_name_char
is_name = refl

abbrev ack_one : Request ℕ ℕ ℕ
ack_one = ack_call opening synced 1 queue (7 ∷ []) 0

abbrev calls : List (ℕ × Request ℕ ℕ ℕ)
calls = (0, enqueue_one) ∷ (1, ack_one) ∷ []

serve_all-IsUntouched_example :
    IsUntouched
      (some tenant_b)
      server.registry
      (serve_all setting (some tenant_a) calls server).registry
serve_all-IsUntouched_example =
    serve_all-IsUntouched setting tenant_a (some tenant_b) calls server IsTenant-a IsTenant-b
      (λ e. absurd (ground (arith, e)))

abbrev attempt : Attempt ℕ
attempt = record { now = 20; timestamp = 20; draw = 0; dlq_io = synced; wal_io = synced }

abbrev round : Round ℕ
round = record { reclaim_now = 20; promote_now = 20; lease_now = 20; attempts = λ id. attempt }

abbrev leasing : Group ℕ ℕ ℕ
leasing = record {
  pending = [];
  leased =
      (
        7,
        record {
          item = 5;
          token = 0;
          expires_at = 10;
          delivery_count = 1;
          idempotency_key = none;
          checkpoint = none;
          stream = [];
        },
      )
      ∷ [];
  delayed = [];
  dedup = [];
  signals = [];
  wal = Log.empty;
  dlq = record { entries = []; wal = Log.empty };
  visibility_timeout = 30;
  retry_policy = policy;
  next_lease_token = 1;
}

tenant_snapshots-some_example :
    (rows : List TenantStatus) × ((tenant_snapshots
        (λ xs. xs)
        2
        (serve_mixed setting
          ((0, some tenant_a, enqueue_one) ∷ (1, none, enqueue_one) ∷ [])
          server).registry).1
      ≡ some rows)
unfolding new_server
tenant_snapshots-some_example =
    tenant_snapshots-some setting ((0, some tenant_a, enqueue_one) ∷ (1, none, enqueue_one) ∷ [])
      server (λ xs. xs) 2 refl (IsTenant-a, (tt, tt)) (λ P xs h. h)

-- One queue is allowed.
abbrev quota : TenantQuota
quota = record {
  config = record {
    max_queues = some 1;
    max_pending_messages = none;
    requests_per_window = none;
    window = 60000000000;
  };
  requests = [];
}

abbrev limited : Registry ℕ ℕ ℕ
limited = record {
  groups = [];
  admission = [];
  dedup = [];
  routes = [];
  tenant_quotas = ((97 ∷ []), quota) ∷ [];
}

find_group_bounded_example :
    tenant_queue_count tenant_a (find_group policy opening (some tenant_a) queue limited).0 ≤ 1
unfolding get Text-discrete tenant_queue_count count_matching ℕ_discrete
find_group_bounded_example =
    find_group_bounded policy opening tenant_a queue limited quota 1 refl refl (omega arith)

abbrev raw_key : Text
raw_key = 107 ∷ 49 ∷ []

abbrev with_token : AuthState
with_token = record { api_keys = open_store Log.empty; jwt_key = some (115 ∷ []) }

require_tenant-Proves_example :
    (credential : Text) × (tenant : TenantId) × (some (bearer ++ 116 ∷ [])
      ≡ some (bearer ++ credential))
    × Proves setting.sha256 (λ token key. some (97 ∷ [])) with_token credential tenant
    × ((97 ∷ []) ≡ tenant.text)
unfolding require_tenant bearer_credential strip_prefix tenant_of verify_jwt authenticate open_store
    get replay_from new_tenant_id all_name_chars is_name_char
require_tenant-Proves_example =
    require_tenant-Proves setting.sha256 (λ token key. some (97 ∷ [])) with_token
      (some (bearer ++ 116 ∷ [])) (λ tenant. tenant.text) (97 ∷ []) refl
