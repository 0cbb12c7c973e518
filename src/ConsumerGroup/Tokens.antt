-- ===== src/ConsumerGroup/Tokens.antt =====
-- The tokens of leases: which claim has which, and whom they keep out.
mod Steps
use queue_as_a_service.Base.{
  ℕ, ◌+◌, ◌≡◌, ◌<◌, u64, refl, sym, ap, ◌∙◌, true, false, Bool, List, [], ◌∷◌, Option, none, some,
  arith, ℕ_discrete, Map, get,
}
use queue_as_a_service.Log.{AppendIo, synced, ok}
use queue_as_a_service.Types.{MessageId, Text, IdempotencyKey}
use queue_as_a_service.Retry.{Float, RetryPolicy}
use queue_as_a_service.ConsumerGroup.State.{
  Pending, Leased, LeaseToken, Claim, Group, notify_waiters,
}
use queue_as_a_service.ConsumerGroup.Recovery.{open_group}
use queue_as_a_service.ConsumerGroup.Enqueue.{enqueue_with_id_and_key, write_enqueue_record}
use queue_as_a_service.ConsumerGroup.Resolve.{
  Attempt, ack, nack, checkpoint, finish_checkpoint, resolve_failed_delivery,
}
use queue_as_a_service.ConsumerGroup.Stream.{publish_partial_result}
use queue_as_a_service.ConsumerGroup.Letters.{
  annotate_dead_letter, reprocess_dead_letter, purge_dead_letter,
}
use queue_as_a_service.ConsumerGroup.Claiming.{
  Round, claimed, waits, lease_first, claim_round, reclaim_expired_leases, resolve_expired, expired,
  unexpired, promote_ready_delayed,
}
use queue_as_a_service.ConsumerGroup.Leases.{
  lease_first-claimed, IsStale, stale_lem, claim_round-claimed,
}
use queue_as_a_service.ConsumerGroup.Course.{
  Call, enqueues, acks, nacks, checkpoints, publishes, annotates, reprocesses, purges, Course,
  none_yet, calls, misses, takes,
}
use queue_as_a_service.ConsumerGroup.Restart.{restart}
use queue_as_a_service.ConsumerGroup.Tokens.Steps.{
  enqueue_token, reprocess_token, resolve_token, resolve_expired_token, nack_token, reclaim_token,
  lease_first_token, lease_first_waits,
}

module _ {F T V : Type 0} (float : Float F) (to_text : MessageId → Text) where
  reclaimed_token :
      (round : Round F) (g : Group F T V)
      → (promote_ready_delayed round.promote_now
          (reclaim_expired_leases float round.reclaim_now round.attempts g)).next_lease_token
        ≡ g.next_lease_token
  unfolding promote_ready_delayed
  reclaimed_token round g = reclaim_token float round.reclaim_now round.attempts g

  claimed_token :
      (round : Round F) (g : Group F T V) (c : Claim T V)
      → (claim_round float to_text round g).1 ≡ claimed c
      → (c.token ≡ g.next_lease_token)
        × ((claim_round float to_text round g).0.next_lease_token ≡ u64 (g.next_lease_token + 1))
  unfolding claim_round
  claimed_token round g c h =
      let (token, next) = lease_first_token to_text round.lease_now _ _ c refl h in
      let same = reclaimed_token round g in (token ∙ same, next ∙ ap (λ n. u64 (n + 1)) same)

  waits_token :
      (round : Round F) (g : Group F T V) (wake : Option ℕ)
      → (claim_round float to_text round g).1 ≡ waits wake
      → (claim_round float to_text round g).0.next_lease_token ≡ g.next_lease_token
  unfolding claim_round
  waits_token round g wake h =
      lease_first_waits to_text round.lease_now _ _ wake refl h ∙ reclaimed_token round g

  call_token :
      (g h : Group F T V) → Call float to_text g h → h.next_lease_token ≡ g.next_lease_token
  unfolding ack checkpoint finish_checkpoint publish_partial_result annotate_dead_letter
      purge_dead_letter
  call_token g h (enqueues io id item key) = enqueue_token io id item key g
  call_token g h (acks io id token) = ground arith
  call_token g h (nacks attempt id token reason) = nack_token float attempt id token reason g
  call_token g h (checkpoints io id token state) = ground arith
  call_token g h (publishes id token content is_final) = ground arith
  call_token g h (annotates io id verdict) = refl
  call_token g h (reprocesses dlq_io wal_io id) = reprocess_token dlq_io wal_io id g
  call_token g h (purges io id) = ground arith

  -- The next token is the number of the claims, as long as it fits into a u64.
  course_token :
      (g : Group F T V) (n : ℕ) (h : Group F T V)
      → Course float to_text g n h
      → g.next_lease_token + n < 18446744073709551616
      → h.next_lease_token ≡ g.next_lease_token + n
  course_token g n h none_yet fits = omega arith
  course_token g n h (calls {h = m} course call) fits =
      call_token m h call ∙ course_token g n m course fits
  course_token g n h (misses {h = m} round wake course e) fits =
      waits_token round m wake e ∙ course_token g n m course fits
  course_token g k h (takes {n = n} {h = m} round c course e) fits =
      let before = course_token g n m course (omega (arith, fits)) in
      let (_, next) = claimed_token round m c e in omega (arith, before, next, fits)

  -- What is leased under the id of a claim has its token.
  claimed_lease :
      (round : Round F) (g : Group F T V) (c : Claim T V)
      → (claim_round float to_text round g).1 ≡ claimed c
      → (lease : Leased T V) × (get ℕ_discrete c.id (claim_round float to_text round g).0.leased
          ≡ some lease)
        × (lease.token ≡ c.token)
  unfolding claim_round
  claimed_lease round g c h =
      let (lease, here, token, _, _, _, _) =
        lease_first-claimed to_text round.lease_now _ _ c refl h in
      (lease, here, token)

  other_token :
      (round : Round F) (g : Group F T V) (c : Claim T V) (id : MessageId) (token : LeaseToken)
      → (claim_round float to_text round g).1 ≡ claimed c
      → c.id ≡ id
      → token < c.token
      → IsStale id token (claim_round float to_text round g).0
  other_token round g c id token h same lower lease here is =
      let (held, there, new) = claimed_lease round g c h in
      let one : held ≡ lease = ground (arith, there, here, same) in
      absurd (omega (arith, ap (λ l. l.token) one, new, is, lower))

  -- A message that is claimed again, its first lease being over: whatever calls run between the two claims and
  -- however their writes go, the holder of the first lease changes nothing by ack, nack, checkpoint or
  -- publish_partial_result, and an ack of the second holder succeeds if its record is written; where the
  -- tokens have not reached 2^64.
  pub claim_round-fenced :
      (g h : Group F T V) (n : ℕ) (round again : Round F) (first second : Claim T V) (io : AppendIo)
      (attempt : Attempt F) (reason : Option Text) (state content : V) (is_final : Bool)
      → (claim_round float to_text round g).1 ≡ claimed first
      → Course float to_text (claim_round float to_text round g).0 n h
      → (claim_round float to_text again h).1 ≡ claimed second
      → second.id ≡ first.id
      → g.next_lease_token + n + 1 < 18446744073709551616
      → let held = (claim_round float to_text again h).0 in
        (ack io first.id first.token held ≡ (held, ok false))
        × (nack float attempt first.id first.token reason held ≡ (held, ok false))
        × (checkpoint io first.id first.token state held ≡ (held, ok false))
        × (publish_partial_result first.id first.token content is_final held ≡ (held, none))
        × ((ack synced second.id second.token held).1 ≡ ok true)
  claim_round-fenced g h n round again first second io attempt reason state content is_final
        takes_first course takes_second same fits =
      let (first_token, next) = claimed_token round g first takes_first in
      let (second_token, _) = claimed_token again h second takes_second in
      let later =
        course_token (claim_round float to_text round g).0 n h course (omega (arith, next, fits)) in
      let stale =
        other_token again h second first.id first.token takes_second same
          (omega (arith, first_token, second_token, next, later, fits)) in
      let (no_ack, no_nack, no_state, no_chunk) =
        stale_lem float io attempt first.id first.token reason state content is_final _ stale in
      let (_, _, _, _, _, done) = claim_round-claimed float to_text again h second takes_second in
      (no_ack, no_nack, no_state, no_chunk, done)

  opened_token :
      (timeout : ℕ) (policy : RetryPolicy F) (k : Group F T V) (n : ℕ) (h : Group F T V)
      → Course float to_text (restart timeout policy k) n h
      → n < 18446744073709551616
      → h.next_lease_token ≡ n
  unfolding open_group
  opened_token timeout policy k n h course fits =
      let token = course_token (restart timeout policy k) n h course (omega (arith, fits)) in
      omega (arith, token)

  -- The claims of a process have the tokens 0, 1, 2 and so on, and those of the process after it again: if the
  -- claim that n others precede after a restart is of the message that the claim with n before it had in the
  -- process before, then the token of the earlier claim acknowledges the later lease, whatever else the two
  -- processes did, if the record is written and n fits into a u64.
  pub claim_round-restart :
      (timeout timeout' : ℕ) (policy policy' : RetryPolicy F) (origin g k h : Group F T V) (n m : ℕ)
      (round again : Round F) (first second : Claim T V)
      → Course float to_text (restart timeout policy origin) n g
      → (claim_round float to_text round g).1 ≡ claimed first
      → Course float to_text (claim_round float to_text round g).0 m k
      → Course float to_text (restart timeout' policy' k) n h
      → (claim_round float to_text again h).1 ≡ claimed second
      → second.id ≡ first.id
      → n < 18446744073709551616
      → (first.token ≡ n)
        × ((ack synced first.id first.token (claim_round float to_text again h).0).1 ≡ ok true)
  claim_round-restart timeout timeout' policy policy' origin g k h n m round again first second
        before takes_first _ after takes_second same fits =
      let first_token =
        (claimed_token round g first takes_first).0
        ∙ opened_token timeout policy origin n g before fits in
      let second_token =
        (claimed_token again h second takes_second).0
        ∙ opened_token timeout' policy' k n h after fits in
      let (_, _, _, _, _, done) = claim_round-claimed float to_text again h second takes_second in
      (
        first_token,
        ap (λ i. (ack synced i first.token (claim_round float to_text again h).0).1) (sym same)
            ∙ ap (λ t. (ack synced second.id t (claim_round float to_text again h).0).1)
                (first_token ∙ sym second_token)
            ∙ done,
      )
