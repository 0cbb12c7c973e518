-- ===== src/Server/Tests/Tenants.antt =====
-- Calls of two tenants, and what an enqueue takes from a budget, on concrete inputs.
use queue_as_a_service.Base.{ℕ, ◌≡◌, List, [], ◌∷◌, none, some}
use queue_as_a_service.Log.{synced}
use queue_as_a_service.Auth.{TenantId}
use queue_as_a_service.Server.State.{Server}
use queue_as_a_service.Server.Producing.{EnqueueReadings, EnqueueParams}
use queue_as_a_service.Server.Requests.{Request, claim_call}
use queue_as_a_service.Server.Interference.{
  answers_to, after_calls, own_calls, answers_to-own_calls,
}
use queue_as_a_service.Server.Views.Agreement.{IsSameFor}
use queue_as_a_service.Server.Tests.{
  setting, tenant_a, tenant_b, IsTenant-a, IsTenant-b, queue, opening, server, enqueue_one, ack_one,
  round, leasing,
}

abbrev claim_one : Request ℕ ℕ ℕ
claim_one = claim_call opening 1 (record { rounds = round ∷ []; cut = none }) queue

-- Both tenants use a queue of the same name, and their messages have the same id.
abbrev mixed : List (ℕ × TenantId × Request ℕ ℕ ℕ)
mixed =
    (0, tenant_b, enqueue_one)
    ∷ (0, tenant_a, enqueue_one)
    ∷ (1, tenant_b, claim_one)
    ∷ (1, tenant_b, ack_one)
    ∷ (1, tenant_a, claim_one)
    ∷ (1, tenant_a, ack_one)
    ∷ []

answers_to-own_calls_example :
    (answers_to setting tenant_a mixed server
      ≡ answers_to setting tenant_a (own_calls setting tenant_a mixed) server)
    × IsSameFor tenant_a
        (after_calls setting mixed server).registry
        (after_calls setting (own_calls setting tenant_a mixed) server).registry
answers_to-own_calls_example =
    answers_to-own_calls setting tenant_a mixed server IsTenant-a
      (IsTenant-b, (IsTenant-a, (IsTenant-b, (IsTenant-b, (IsTenant-a, (IsTenant-a, tt))))))

-- A queue whose budget has admitted a request.
abbrev busy : Server ℕ ℕ ℕ
busy = record server {
  registry = record {
    groups = (97 ∷ 0 ∷ queue, leasing) ∷ [];
    admission =
        (
          97 ∷ 0 ∷ queue,
          record {
            config = record {
              tokens_per_window = some 5;
              cost_ceiling_per_window = none;
              window = 60000000000;
            };
            entries = record { at = 0; tokens = 3; cost = 0 } ∷ [];
          },
        )
        ∷ [];
    dedup = [];
    routes = [];
    tenant_quotas = [];
  };
}

abbrev readings : EnqueueReadings ℕ
readings = record {
  routes_now = 0;
  opening = opening;
  dedup_now = 0;
  admit_now = 0;
  fresh_id = 8;
  io = synced;
  insert_now = 0;
  log_at = 0;
}

-- The key is empty.
abbrev malformed : EnqueueParams ℕ ℕ ℕ
malformed = record {
  queue = some queue;
  payload = 5;
  idempotency_key = some [];
  estimated_tokens = some 3;
  estimated_cost = none;
  embedding = none;
}
