-- ===== src/ConsumerGroup/Tests.antt =====
-- Consumer groups on concrete inputs.
pub mod Claims
pub mod Fences
pub mod Keys
pub mod Checkpoints
pub mod Races
use queue_as_a_service.Base.{
  ℕ, ◌+◌, ◌-◌, ◌*◌, ◌^◌, ◌≡◌, refl, min, max, Bool, true, false, List, [], ◌∷◌, Option, none, some,
  arith, ℕ_discrete, get, remove, insert, ==_refl,
}
use queue_as_a_service.Log.{Log, AppendIo, synced, rejected, Result, ok, failed, empty}
use queue_as_a_service.Types.{MessageId, Text, IdempotencyKey, IdempotencyKey-discrete}
use queue_as_a_service.Retry.{Float, RetryPolicy}
use queue_as_a_service.DeadLetter
use queue_as_a_service.ConsumerGroup.State.{Group, WalRecord, enqueued, dead_lettered}
use queue_as_a_service.ConsumerGroup.Recovery.{open_group, replay, attach}
use queue_as_a_service.ConsumerGroup.Messages.{Message, all, live, has_id, IsSingle, SameMessages}
use queue_as_a_service.ConsumerGroup.Enqueue.{
  enqueue_with_id_and_key, enqueue_with_key, write_enqueue_record,
}
use queue_as_a_service.ConsumerGroup.Resolve.{Attempt, ack, nack}
use queue_as_a_service.ConsumerGroup.Claiming.{Round, claim_round}
use queue_as_a_service.ConsumerGroup.History.{
  Steps, then, done, enqueues, claims, nacks, restarts, Step-IsConsistent, Steps-IsConsistent,
  restart-SameMessages,
}
use queue_as_a_service.ConsumerGroup.Restart.{
  IsConsistent, fresh_group, restart, fresh_group-IsConsistent,
}

-- Whole numbers in place of `f64`.
abbrev pub float : Float ℕ
float = record {
  zero = 0;
  one = 1;
  add = λ a b. a + b;
  sub = λ a b. a - b;
  mul = λ a b. a * b;
  min_f = λ a b. min a b;
  max_f = λ a b. max a b;
  clamp = λ x lo hi. min (max x lo) hi;
  powi = λ a n. a ^ n;
  as_secs = λ n. n;
  from_secs = λ x. x;
}

abbrev pub policy : RetryPolicy ℕ
policy = record {
  base_delay = 10;
  max_delay = 100;
  multiplier = 2;
  jitter = 0;
  max_attempts = some 1;
}

abbrev pub to_text : MessageId → Text
to_text id = id ∷ []

abbrev pub attempt : Attempt ℕ
attempt = record { now = 20; timestamp = 1020; draw = 0; dlq_io = synced; wal_io = synced }

abbrev pub round : Round ℕ
round = record { reclaim_now = 5; promote_now = 5; lease_now = 6; attempts = λ _. attempt }

abbrev pub key : IdempotencyKey
key = record { text = 107 ∷ [] }

abbrev pub opened : Group ℕ ℕ ℕ
opened = fresh_group 30 policy

abbrev pub filled : Group ℕ ℕ ℕ
filled = (enqueue_with_id_and_key synced 1 5 (some key) opened).0

abbrev pub leasing : Group ℕ ℕ ℕ
leasing = (claim_round float to_text round filled).0

abbrev pub nacked : Group ℕ ℕ ℕ
nacked = (nack float attempt 1 0 none leasing).0

pub fresh : all (has_id 1) opened ≡ 0
unfolding fresh_group open_group attach replay DeadLetter.open_queue DeadLetter.replay
fresh = refl

abbrev pub restarted : Group ℕ ℕ ℕ
restarted = restart 40 policy nacked

abbrev pub history : Steps float to_text opened restarted
history = then (enqueues 1 5 (some key) fresh) (
    then (claims round (λ _. refl) (λ _. refl))
      (then (nacks attempt 1 0 none refl refl) (then (restarts 40 policy) done)))

restart-SameMessages_example :
    all (λ m. m.item) (restart 30 policy restarted) ≡ all (λ m. m.item) restarted
restart-SameMessages_example =
    restart-SameMessages 30 policy float to_text restarted history (λ m. m.item)

Step-IsConsistent_example : IsConsistent filled
Step-IsConsistent_example =
    Step-IsConsistent float to_text opened filled (enqueues 1 5 (some key) fresh)
      (fresh_group-IsConsistent 30 policy)

pub filled-IsConsistent : IsConsistent filled
filled-IsConsistent =
    Steps-IsConsistent float to_text opened filled (then (enqueues 1 5 (some key) fresh) done)
      (fresh_group-IsConsistent 30 policy)

pub leasing-IsConsistent : IsConsistent leasing
leasing-IsConsistent =
    Steps-IsConsistent float to_text filled leasing
      (then (claims round (λ _. refl) (λ _. refl)) done) filled-IsConsistent

pub nacked-IsConsistent : IsConsistent nacked
nacked-IsConsistent =
    Steps-IsConsistent float to_text leasing nacked (then (nacks attempt 1 0 none refl refl) done)
      leasing-IsConsistent
