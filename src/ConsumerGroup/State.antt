-- ===== src/ConsumerGroup/State.antt =====
-- The data of a consumer group: messages that are pending, leased or delayed, and the records of its log.
use queue_as_a_service.Base.{ℕ, Bool, List, Option, Map, length, ◌+◌}
use queue_as_a_service.Log.{Log}
use queue_as_a_service.Types.{MessageId, IdempotencyKey}
use queue_as_a_service.Retry.{RetryPolicy}
use queue_as_a_service.DeadLetter.{DeadLetterQueue}

pub data WalRecord (T V : Type 0) : Type 0 where
  enqueued : MessageId → Option IdempotencyKey → T → WalRecord T V
  acked : MessageId → WalRecord T V
  dead_lettered : MessageId → WalRecord T V
  checkpointed : MessageId → V → WalRecord T V

pub record Pending (T V : Type 0) : Type 0 where
  pub id : MessageId
  pub item : T
  pub delivery_count : ℕ
  pub idempotency_key : Option IdempotencyKey
  pub checkpoint : Option V

-- `LeaseToken`: a number that is drawn once.
abbrev pub LeaseToken : Type 0
LeaseToken = ℕ

pub record StreamChunk (V : Type 0) : Type 0 where
  pub sequence : ℕ
  pub content : V
  pub is_final : Bool

pub record Leased (T V : Type 0) : Type 0 where
  pub item : T
  pub token : LeaseToken
  pub expires_at : ℕ
  pub delivery_count : ℕ
  pub idempotency_key : Option IdempotencyKey
  pub checkpoint : Option V
  pub stream : List (StreamChunk V)

pub record Delayed (T V : Type 0) : Type 0 where
  pub id : MessageId
  pub item : T
  pub delivery_count : ℕ
  pub available_at : ℕ
  pub idempotency_key : Option IdempotencyKey
  pub checkpoint : Option V

pub data PartialResultsPoll (V : Type 0) : Type 0 where
  chunks : List (StreamChunk V) → PartialResultsPoll V
  not_active : PartialResultsPoll V

pub record Claim (T V : Type 0) : Type 0 where
  pub id : MessageId
  pub token : LeaseToken
  pub idempotency_key : IdempotencyKey
  pub item : T
  pub delivery_count : ℕ
  pub checkpoint : Option V

-- The calls of `Notify` on `changed`.
pub data Signal : Type 0 where
  notify_one notify_waiters : Signal

-- `ConsumerGroup` with its `State`; `signals` has the calls made on `changed`, the last one first.
pub record Group (F T V : Type 0) : Type 0 where
  pub pending : List (Pending T V)
  pub leased : Map MessageId (Leased T V)
  pub delayed : List (Delayed T V)
  pub dedup : Map IdempotencyKey MessageId
  pub signals : List Signal
  pub wal : Log (WalRecord T V)
  pub dlq : DeadLetterQueue T V
  pub visibility_timeout : ℕ
  pub retry_policy : RetryPolicy F
  pub next_lease_token : ℕ

unfoldable pub len : {F T V : Type 0} → Group F T V → ℕ
len g = length g.pending + length g.leased + length g.delayed
