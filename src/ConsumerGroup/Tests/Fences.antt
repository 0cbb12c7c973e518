-- ===== src/ConsumerGroup/Tests/Fences.antt =====
-- Claims of one message after another on concrete inputs: tokens and delivery counts.
use queue_as_a_service.Base.{
  ℕ, ◌+◌, ◌<◌, ◌≤◌, ◌≡◌, dec_le, refl, true, false, some, none, arith, ℕ_discrete, get, remove,
  insert,
}
use queue_as_a_service.Log.{synced, rejected, ok}
use queue_as_a_service.Types.{IdempotencyKey-discrete}
use queue_as_a_service.Retry.{RetryPolicy, is_exhausted, delay_for, apply_jitter}
use queue_as_a_service.DeadLetter
use queue_as_a_service.ConsumerGroup.State.{Claim, Group}
use queue_as_a_service.ConsumerGroup.Recovery.{apply, open_group, replay, attach, seed_dedup}
use queue_as_a_service.ConsumerGroup.Enqueue.{enqueue_with_id_and_key, write_enqueue_record}
use queue_as_a_service.ConsumerGroup.Resolve.{ack, nack, checkpoint, resolve_failed_delivery}
use queue_as_a_service.ConsumerGroup.Stream.{publish_partial_result}
use queue_as_a_service.ConsumerGroup.Claiming.{
  Round, claim_round, claimed, reclaim_expired_leases, resolve_expired, expired, unexpired,
  promote_ready_delayed, ready, still_delayed, lease_first, effective_idempotency_key,
}
use queue_as_a_service.ConsumerGroup.Course.{Course, none_yet, calls, takes, enqueues, checkpoints}
use queue_as_a_service.ConsumerGroup.Attempts.{IsWithin}
use queue_as_a_service.ConsumerGroup.Attempts.Claims.{claim_round-IsWithin}
use queue_as_a_service.ConsumerGroup.Tokens.{claim_round-fenced, claim_round-restart}
use queue_as_a_service.ConsumerGroup.Restart.{restart, fresh_group}
use queue_as_a_service.ConsumerGroup.Tests.{float, to_text, attempt, round, key, opened}

-- A message has two attempts.
abbrev retrying : RetryPolicy ℕ
retrying = record {
  base_delay = 10;
  max_delay = 100;
  multiplier = 2;
  jitter = 0;
  max_attempts = some 2;
}

abbrev begun : Group ℕ ℕ ℕ
begun = restart 30 retrying opened

abbrev filled : Group ℕ ℕ ℕ
filled = (enqueue_with_id_and_key synced 1 5 (some key) begun).0

abbrev leasing : Group ℕ ℕ ℕ
leasing = (claim_round float to_text round filled).0

-- Behind the end of the first lease and of the delay that follows.
abbrev late : Round ℕ
late = record { reclaim_now = 40; promote_now = 40; lease_now = 41; attempts = λ _. attempt }

abbrev first : Claim ℕ ℕ
first = record {
  id = 1;
  token = 0;
  idempotency_key = key;
  item = 5;
  delivery_count = 1;
  checkpoint = none;
}

abbrev second : Claim ℕ ℕ
second = record first { token = 1; delivery_count = 2 }

abbrev between : Course float to_text leasing 0 (checkpoint rejected 1 0 9 leasing).0
between = calls none_yet (checkpoints rejected 1 0 9)

takes_first : (claim_round float to_text round filled).1 ≡ claimed first
unfolding claim_round reclaim_expired_leases expired promote_ready_delayed ready still_delayed
    lease_first enqueue_with_id_and_key write_enqueue_record fresh_group open_group attach replay
    DeadLetter.open_queue DeadLetter.replay effective_idempotency_key IdempotencyKey-discrete
    seed_dedup DeadLetter.ids_and_keys dec_le get
takes_first = refl

takes_second :
    (claim_round float to_text late (checkpoint rejected 1 0 9 leasing).0).1 ≡ claimed second
unfolding claim_round reclaim_expired_leases expired promote_ready_delayed ready still_delayed
    lease_first enqueue_with_id_and_key write_enqueue_record fresh_group open_group attach replay
    DeadLetter.open_queue DeadLetter.replay effective_idempotency_key IdempotencyKey-discrete
    seed_dedup DeadLetter.ids_and_keys dec_le get insert remove checkpoint unexpired resolve_expired
    resolve_failed_delivery is_exhausted delay_for apply_jitter ℕ_discrete
takes_second = refl

few_tokens : filled.next_lease_token + 0 + 1 < 18446744073709551616
unfolding enqueue_with_id_and_key write_enqueue_record fresh_group open_group attach replay
    DeadLetter.open_queue DeadLetter.replay IdempotencyKey-discrete seed_dedup
    DeadLetter.ids_and_keys get
few_tokens = omega arith

claim_round-fenced_example :
    let held = (claim_round float to_text late (checkpoint rejected 1 0 9 leasing).0).0 in
    (ack synced 1 0 held ≡ (held, ok false))
    × (nack float attempt 1 0 none held ≡ (held, ok false))
    × (checkpoint synced 1 0 9 held ≡ (held, ok false))
    × (publish_partial_result 1 0 8 true held ≡ (held, none))
    × ((ack synced 1 1 held).1 ≡ ok true)
claim_round-fenced_example =
    claim_round-fenced float to_text filled (checkpoint rejected 1 0 9 leasing).0 0 round late first
      second synced attempt none 9 8 true takes_first between takes_second refl few_tokens

claim_round-IsWithin_example :
    (1 ≤ second.delivery_count)
    × (second.delivery_count ≤ 2)
    × IsWithin 2 (claim_round float to_text late (checkpoint rejected 1 0 9 leasing).0).0
claim_round-IsWithin_example =
    claim_round-IsWithin float to_text 2 30 retrying opened (checkpoint rejected 1 0 9 leasing).0 1
      late second refl (omega arith) (omega arith)
      (calls (takes round first (calls none_yet (enqueues synced 1 5 (some key))) takes_first)
        (checkpoints rejected 1 0 9))
      takes_second

-- The claim of the same message after a restart.
takes_again : (claim_round float to_text round (restart 40 retrying leasing)).1 ≡ claimed first
unfolding claim_round reclaim_expired_leases expired promote_ready_delayed ready still_delayed
    lease_first enqueue_with_id_and_key write_enqueue_record fresh_group open_group attach replay
    DeadLetter.open_queue DeadLetter.replay effective_idempotency_key IdempotencyKey-discrete
    seed_dedup DeadLetter.ids_and_keys dec_le get apply
takes_again = refl

claim_round-restart_example :
    (first.token ≡ 0)
    × ((ack synced 1 0 (claim_round float to_text round (restart 40 retrying leasing)).0).1
        ≡ ok true)
claim_round-restart_example =
    claim_round-restart float to_text 30 40 retrying retrying opened filled leasing
      (restart 40 retrying leasing) 0 0 round round first first
      (calls none_yet (enqueues synced 1 5 (some key))) takes_first none_yet none_yet takes_again
      refl (omega arith)
