-- ===== src/ConsumerGroup/Recovery.antt =====
-- What `open` makes of the two logs.
use mathlib.Core.List.{foldl}
use queue_as_a_service.Base.{
  ℕ, ite, List, [], ◌∷◌, ◌++◌, Option, none, some, ℕ_discrete, Map, get, remove, insert,
}
use queue_as_a_service.Log.{Log, reopen}
use queue_as_a_service.Types.{MessageId, IdempotencyKey, IdempotencyKey-discrete}
use queue_as_a_service.Retry.{RetryPolicy}
use queue_as_a_service.DeadLetter
use queue_as_a_service.DeadLetter.{DeadLetterQueue, open_queue, ids_and_keys}
use queue_as_a_service.ConsumerGroup.State.{
  WalRecord, enqueued, acked, dead_lettered, checkpointed, Pending, Group,
}

-- The variables of the loop over the records.
pub record Replay (T V : Type 0) : Type 0 where
  pub pending : List (Pending T V)
  pub dedup : Map IdempotencyKey MessageId
  pub checkpoints : Map MessageId V

abbrev pub start : {T V : Type 0} → Replay T V
start = record { pending = []; dedup = []; checkpoints = [] }

abbrev pub release_key :
    Option IdempotencyKey → Map IdempotencyKey MessageId → Map IdempotencyKey MessageId
release_key none dedup = dedup
release_key (some key) dedup = remove IdempotencyKey-discrete key dedup

abbrev pub claim_key :
    Option IdempotencyKey → MessageId → Map IdempotencyKey MessageId → Map IdempotencyKey MessageId
claim_key none id dedup = dedup
claim_key (some key) id dedup = insert IdempotencyKey-discrete key id dedup

unfoldable pub seed_dedup :
    List (MessageId × Option IdempotencyKey)
    → Map IdempotencyKey MessageId
    → Map IdempotencyKey MessageId
seed_dedup [] dedup = dedup
seed_dedup ((id, key) ∷ rest) dedup = seed_dedup rest (claim_key key id dedup)

module _ {T V : Type 0} where
  -- The first entry with the id, `position` with `get`, and the others, `remove`.
  unfoldable pub find_pending : MessageId → List (Pending T V) → Option (Pending T V)
  find_pending id [] = none
  find_pending id (p ∷ ps) = ite (ℕ_discrete p.id id) (some p) (find_pending id ps)

  unfoldable pub remove_pending : MessageId → List (Pending T V) → List (Pending T V)
  remove_pending id [] = []
  remove_pending id (p ∷ ps) = ite (ℕ_discrete p.id id) ps (p ∷ remove_pending id ps)

  unfoldable pub apply : Replay T V → WalRecord T V → Replay T V
  apply r (enqueued id key item) = record r {
    dedup = claim_key key id r.dedup;
    pending =
        r.pending
        ++ record {
          id = id;
          item = item;
          delivery_count = 0;
          idempotency_key = key;
          checkpoint = none;
        }
          ∷ [];
  }
  apply r (acked id) = elim (find_pending id r.pending) [
    | none ↦ r
    | some entry ↦ record r {
      pending = remove_pending id r.pending;
      dedup = release_key entry.idempotency_key r.dedup;
    }
  ]
  apply r (dead_lettered id) = record r { pending = remove_pending id r.pending }
  apply r (checkpointed id state) = record r {
    checkpoints = insert ℕ_discrete id state r.checkpoints;
  }

  unfoldable pub replay : List (WalRecord T V) → Replay T V
  replay = foldl apply start

  -- Each entry takes its checkpoint out of the map.
  unfoldable pub attach : List (Pending T V) → Map MessageId V → List (Pending T V)
  attach [] checkpoints = []
  attach (p ∷ ps) checkpoints =
      record p { checkpoint = get ℕ_discrete p.id checkpoints }
      ∷ attach ps (remove ℕ_discrete p.id checkpoints)

  unfoldable pub open_group :
      {F : Type 0}
      → Log (WalRecord T V)
      → Log (DeadLetter.WalRecord T V)
      → ℕ
      → RetryPolicy F
      → Group F T V
  open_group wal dlq_wal visibility_timeout retry_policy =
      let r = replay wal.records in
      let dlq = open_queue dlq_wal in
      record {
        pending = attach r.pending r.checkpoints;
        leased = [];
        delayed = [];
        dedup = seed_dedup (ids_and_keys dlq) r.dedup;
        signals = [];
        wal = reopen wal;
        dlq = dlq;
        visibility_timeout = visibility_timeout;
        retry_policy = retry_policy;
        next_lease_token = 0;
      }
