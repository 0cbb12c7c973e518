-- ===== src/Server/Spending/Enqueue.antt =====
-- What `enqueue_impl` of crates/qaas-server/src/mcp.rs takes from the budgets of the queues.
use queue_as_a_service.Base.{◌≡◌, true}
use queue_as_a_service.Admission
use queue_as_a_service.Admission.{UsageEntry, new_controller, unlimited}
use queue_as_a_service.Server.State.{Server}
use queue_as_a_service.Server.Producing.{EnqueueResult}
use queue_as_a_service.Server.Answers.{invalid_params, Answer, done, refused, Call}
use queue_as_a_service.Server.Spending.{IsUnspent}

-- The tool answers with an earlier message, or finds a parameter invalid.
abbrev pub IsFree : {F G : Type 0} → Answer (EnqueueResult F G) → Type 0
IsFree (done r) = r.deduplicated ≡ true
IsFree (refused e) = e ≡ invalid_params

module _ {F G V : Type 0} where
  Saves : Call (Server F G V) (EnqueueResult F G) → Type 0
  Saves m = (s : Server F G V) → IsFree (m s).1 → IsUnspent s.registry (m s).0.registry

module _ {F G V : Type 0} where
  IsCharged : Call (Server F G V) (EnqueueResult F G) → Type 0
  IsCharged m = (s : Server F G V) → IsFree (m s).1 → ⊥
