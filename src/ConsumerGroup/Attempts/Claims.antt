-- ===== src/ConsumerGroup/Attempts/Claims.antt =====
-- Delivery counts over a course of calls.
use queue_as_a_service.Base.{ℕ, ◌≤◌, ◌<◌, ◌≡◌, refl, some}
use queue_as_a_service.Types.{MessageId, Text}
use queue_as_a_service.Retry.{Float, RetryPolicy}
use queue_as_a_service.ConsumerGroup.State.{Claim, Group}
use queue_as_a_service.ConsumerGroup.Letters.{annotate_dead_letter}
use queue_as_a_service.ConsumerGroup.Claiming.{
  Round, claimed, claim_round, reclaim_expired_leases, promote_ready_delayed,
}
use queue_as_a_service.ConsumerGroup.Course.{
  Call, enqueues, acks, nacks, checkpoints, publishes, annotates, reprocesses, purges, Course,
  none_yet, calls, misses, takes,
}
use queue_as_a_service.ConsumerGroup.Restart.{restart}
use queue_as_a_service.ConsumerGroup.Attempts.{IsWithin, same-IsWithin, restart-IsWithin}
use queue_as_a_service.ConsumerGroup.Attempts.Calls.{
  enqueue-IsWithin, ack-IsWithin, checkpoint-IsWithin, publish-IsWithin, reprocess-IsWithin,
  purge-IsWithin,
}
use queue_as_a_service.ConsumerGroup.Attempts.Failures.{
  nack-IsWithin, reclaim-IsWithin, promote-IsWithin, lease-IsWithin, lease_count,
}

module _ {F T V : Type 0} (float : Float F) (to_text : MessageId → Text) (m : ℕ) where
  ready_group-IsWithin :
      (round : Round F) (g : Group F T V)
      → IsWithin m g
      → IsWithin m (
          promote_ready_delayed round.promote_now
            (reclaim_expired_leases float round.reclaim_now round.attempts g))
  ready_group-IsWithin round g w =
      promote-IsWithin float m round.promote_now _
        (reclaim-IsWithin float m round.reclaim_now round.attempts g w)

  round-IsWithin :
      (round : Round F) (g : Group F T V)
      → m < 4294967296
      → IsWithin m g
      → IsWithin m (claim_round float to_text round g).0
  unfolding claim_round
  round-IsWithin round g fits w =
      lease-IsWithin float m to_text round.lease_now _ _ refl fits (ready_group-IsWithin round g w)

  call-IsWithin : (g h : Group F T V) → Call float to_text g h → 1 ≤ m → IsWithin m g → IsWithin m h
  unfolding annotate_dead_letter
  call-IsWithin g h (enqueues io id item key) some_ w = enqueue-IsWithin m io id item key g some_ w
  call-IsWithin g h (acks io id token) some_ w = ack-IsWithin m io id token g w
  call-IsWithin g h (nacks attempt id token reason) some_ w =
      nack-IsWithin float m attempt id token reason g w
  call-IsWithin g h (checkpoints io id token state) some_ w =
      checkpoint-IsWithin m io id token state g w
  call-IsWithin g h (publishes id token content is_final) some_ w =
      publish-IsWithin m id token content is_final g w
  call-IsWithin g h (annotates io id verdict) some_ w = same-IsWithin m g _ w refl refl refl refl
  call-IsWithin g h (reprocesses dlq_io wal_io id) some_ w =
      reprocess-IsWithin m dlq_io wal_io id g some_ w
  call-IsWithin g h (purges io id) some_ w = purge-IsWithin m io id g w

  course-IsWithin :
      (g : Group F T V) (n : ℕ) (h : Group F T V)
      → Course float to_text g n h
      → 1 ≤ m
      → m < 4294967296
      → IsWithin m g
      → IsWithin m h
  course-IsWithin g n h none_yet some_ fits w = w
  course-IsWithin g n h (calls {h = i} course call) some_ fits w =
      call-IsWithin i h call some_ (course-IsWithin g n i course some_ fits w)
  course-IsWithin g n h (misses {h = i} round wake course e) some_ fits w =
      round-IsWithin round i fits (course-IsWithin g n i course some_ fits w)
  course-IsWithin g k h (takes {n = n} {h = i} round c course e) some_ fits w =
      round-IsWithin round i fits (course-IsWithin g n i course some_ fits w)

  -- In a group whose policy gives a number `m` of attempts that is not 0 and fits into a u32: whatever calls and
  -- rounds of claim it goes through after a restart, and however their writes go, a claim tells a delivery
  -- count from 1 to `m`, and afterwards what is pending or delayed has a count below `m`, and what is leased
  -- at most `m`.
  pub claim_round-IsWithin :
      (timeout : ℕ) (policy : RetryPolicy F) (origin g : Group F T V) (n : ℕ) (round : Round F)
      (c : Claim T V)
      → policy.max_attempts ≡ some m
      → 1 ≤ m
      → m < 4294967296
      → Course float to_text (restart timeout policy origin) n g
      → (claim_round float to_text round g).1 ≡ claimed c
      → (1 ≤ c.delivery_count)
        × (c.delivery_count ≤ m)
        × IsWithin m (claim_round float to_text round g).0
  unfolding claim_round
  claim_round-IsWithin timeout policy origin g n round c attempts some_ fits course h =
      let w =
        course-IsWithin _ n g course some_ fits
          (restart-IsWithin m timeout policy origin attempts some_) in
      let (from, to) =
        lease_count float m to_text round.lease_now _ _ c refl h fits
          (ready_group-IsWithin round g w) in
      (from, to, round-IsWithin round g fits w)
