-- ===== src/ConsumerGroup/Tests/Claims.antt =====
-- Claims, leases and dead letters on concrete inputs.
use queue_as_a_service.Base.{
  ℕ, ◌≡◌, ◌≤◌, dec_le, refl, true, [], none, some, ℕ_discrete, get, remove, insert, All,
}
use queue_as_a_service.Log.{synced, ok}
use queue_as_a_service.Types.{IdempotencyKey-discrete}
use queue_as_a_service.DeadLetter
use queue_as_a_service.DeadLetter.{DeadLetterQueue}
use queue_as_a_service.ConsumerGroup.State.{Leased, Claim}
use queue_as_a_service.ConsumerGroup.Recovery.{open_group, replay, attach, seed_dedup}
use queue_as_a_service.ConsumerGroup.Messages.{all}
use queue_as_a_service.ConsumerGroup.Enqueue.{enqueue_with_id_and_key, write_enqueue_record}
use queue_as_a_service.ConsumerGroup.Resolve.{ack}
use queue_as_a_service.ConsumerGroup.Claiming.{
  claim_round, claimed, waits, reclaim_expired_leases, expired, promote_ready_delayed, ready,
  still_delayed, lease_first, earliest_wake, first_expiry, first_retry, effective_idempotency_key,
}
use queue_as_a_service.ConsumerGroup.Conservation.{claim_round-SameMessages}
use queue_as_a_service.ConsumerGroup.Leases.{claim_round-claimed, claim_round-waits}
use queue_as_a_service.ConsumerGroup.Restart.{fresh_group}
use queue_as_a_service.ConsumerGroup.Tests.{
  float, to_text, round, key, filled, leasing, filled-IsConsistent,
}

claim_round-SameMessages_example :
    all (λ m. m.item) (claim_round float to_text round filled).0 ≡ all (λ m. m.item) filled
claim_round-SameMessages_example =
    claim_round-SameMessages float to_text round filled (λ _. refl) filled-IsConsistent.single
      (λ m. m.item)

-- The claim of the round.
abbrev claim : Claim ℕ ℕ
claim = record {
  id = 1;
  token = 0;
  idempotency_key = key;
  item = 5;
  delivery_count = 1;
  checkpoint = none;
}

claims_first : (claim_round float to_text round filled).1 ≡ claimed claim
unfolding claim_round reclaim_expired_leases expired promote_ready_delayed ready still_delayed
    lease_first enqueue_with_id_and_key write_enqueue_record fresh_group open_group attach replay
    DeadLetter.open_queue DeadLetter.replay effective_idempotency_key IdempotencyKey-discrete
    seed_dedup DeadLetter.ids_and_keys dec_le get
claims_first = refl

claim_round-claimed_example :
    (lease : Leased ℕ ℕ) × (get ℕ_discrete 1 (claim_round float to_text round filled).0.leased
      ≡ some lease)
    × (lease.item ≡ 5)
    × (lease.delivery_count ≡ 1)
    × (lease.checkpoint ≡ none)
    × ((ack synced 1 0 (claim_round float to_text round filled).0).1 ≡ ok true)
claim_round-claimed_example = claim_round-claimed float to_text round filled claim claims_first

waits_first : (claim_round float to_text round leasing).1 ≡ waits (some 36)
unfolding claim_round reclaim_expired_leases expired promote_ready_delayed ready still_delayed
    lease_first enqueue_with_id_and_key write_enqueue_record fresh_group open_group attach replay
    DeadLetter.open_queue DeadLetter.replay effective_idempotency_key IdempotencyKey-discrete
    seed_dedup DeadLetter.ids_and_keys dec_le get insert remove earliest_wake first_expiry
    first_retry
waits_first = refl

claim_round-waits_example :
    ((claim_round float to_text round leasing).0.pending ≡ [])
    × All (λ e. 36 ≤ (e.1.expires_at)) (claim_round float to_text round leasing).0.leased
    × All (λ d. 36 ≤ d.available_at) (claim_round float to_text round leasing).0.delayed
claim_round-waits_example = claim_round-waits float to_text round leasing (some 36) waits_first
