-- ===== src/ConsumerGroup/Schedules.antt =====
-- Schedules of the calls that run at once, from a new group on.
use queue_as_a_service.Base.{
  ℕ, ◌+◌, ◌≤◌, ◌≡◌, refl, ◌∙◌, Bool, [], ◌∷◌, Option, some, arith, ℕ_discrete, Map, get, remove,
  Option-cases, inl, inr, total, take_nth,
}
use queue_as_a_service.Log.{AppendIo, synced}
use queue_as_a_service.Types.{MessageId, IdempotencyKey, IdempotencyKey-discrete, Text}
use queue_as_a_service.Retry.{Float, RetryPolicy}
use queue_as_a_service.DeadLetter.{TriageVerdict, open_queue, DeadLetter, take_letter, add_letter}
use queue_as_a_service.ConsumerGroup.State.{Leased, LeaseToken, Group}
use queue_as_a_service.ConsumerGroup.Messages.{Message, has_id, live, in_letters}
use queue_as_a_service.ConsumerGroup.Enqueue.{write_enqueue_record}
use queue_as_a_service.ConsumerGroup.Resolve.{
  Attempt, nack, checkpoint, finish_checkpoint, resolve_failed_delivery,
}
use queue_as_a_service.ConsumerGroup.Stream.{publish_partial_result}
use queue_as_a_service.ConsumerGroup.Claiming.{
  timed_out, claim_round, Round, resolve_expired, reclaim_expired_leases, promote_ready_delayed,
  lease_first, expired, unexpired,
}
use queue_as_a_service.ConsumerGroup.Letters.{
  annotate_dead_letter, reprocess_dead_letter, purge_dead_letter,
}
use queue_as_a_service.ConsumerGroup.Conservation.{nack-SameMessages, claim_round-SameMessages}
use queue_as_a_service.ConsumerGroup.Updates.{checkpoint-SameMessages, publish-SameMessages}
use queue_as_a_service.ConsumerGroup.Keyed.{
  IsKept, nack-IsKept, claim_round-IsKept, annotate-IsKept,
}
use queue_as_a_service.ConsumerGroup.Redelivery.{
  reprocess-SameMessages, reprocess-IsKept, purge-IsKept, annotate-SameMessages,
}
use queue_as_a_service.ConsumerGroup.Restart.{fresh_group, fresh_group-IsConsistent}
use queue_as_a_service.ConsumerGroup.Recovery.{open_group, attach, replay}
use queue_as_a_service.ConsumerGroup.History.{checkpoint_dlq, publish_dlq}
use queue_as_a_service.DeadLetter
use mathlib.Core.Path.{subst}
use queue_as_a_service.ConsumerGroup.Racing.{
  Racing, alone, everything, begin_enqueue, write_enqueue, finish_enqueue, begin_ack, write_ack,
}
use queue_as_a_service.ConsumerGroup.Deduplication.{
  keyed, IsDeduplicated, moved, single-group, slot-le, release_slot, letters-remove,
  begin_enqueue-IsDeduplicated, write_enqueue-IsDeduplicated, finish_enqueue-IsDeduplicated,
  begin_ack-IsDeduplicated,
}

module _ {F T V : Type 0} (float : Float F) where
  resolve_failed_delivery-dedup :
      (attempt : Attempt F) (reason : Option Text) (id : MessageId) (lease : Leased T V)
      (g : Group F T V)
      → (resolve_failed_delivery float attempt reason id lease g).0.dedup ≡ g.dedup
  unfolding resolve_failed_delivery
  resolve_failed_delivery-dedup attempt reason id lease g = ground arith

  nack-dedup :
      (attempt : Attempt F) (id : MessageId) (token : LeaseToken) (reason : Option Text)
      (g : Group F T V)
      → (nack float attempt id token reason g).0.dedup ≡ g.dedup
  unfolding nack
  nack-dedup attempt id token reason g = elim (Option-cases (get ℕ_discrete id g.leased)) [
    | inl e ↦ rw (nack, e) refl
    | inr (lease, e) ↦
        let without : Group F T V = record g { leased = remove ℕ_discrete id g.leased } in
        ground (arith, e, resolve_failed_delivery-dedup attempt reason id lease without)
  ]

  resolve_expired-dedup :
      (attempts : MessageId → Attempt F) (ls : Map MessageId (Leased T V)) (g : Group F T V)
      → (resolve_expired float attempts ls g).dedup ≡ g.dedup
  unfolding resolve_expired
  resolve_expired-dedup attempts [] g = refl
  resolve_expired-dedup attempts ((id, lease) ∷ ls) g =
      resolve_expired-dedup attempts ls
        (resolve_failed_delivery float (attempts id) (some timed_out) id lease g).0
      ∙ resolve_failed_delivery-dedup (attempts id) (some timed_out) id lease g

  reclaim-dedup :
      (now : ℕ) (attempts : MessageId → Attempt F) (g : Group F T V)
      (ls : Map MessageId (Leased T V))
      → expired now g.leased ≡ ls
      → (reclaim_expired_leases float now attempts g).dedup ≡ g.dedup
  unfolding reclaim_expired_leases
  reclaim-dedup now attempts g [] e = rw (reclaim_expired_leases, e) refl
  reclaim-dedup now attempts g (l ∷ ls) e =
      rw (reclaim_expired_leases, e)
        (resolve_expired-dedup attempts (l ∷ ls) (record g { leased = unexpired now g.leased }))

  lease_first-dedup :
      (to_text : MessageId → Text) (now : ℕ) (g : Group F T V)
      → (lease_first to_text now g).0.dedup ≡ g.dedup
  unfolding lease_first
  lease_first-dedup to_text now g = ground arith

  claim_round-dedup :
      (to_text : MessageId → Text) (round : Round F) (g : Group F T V)
      → (claim_round float to_text round g).0.dedup ≡ g.dedup
  unfolding claim_round promote_ready_delayed
  claim_round-dedup to_text round g =
      let reclaimed = reclaim_expired_leases float round.reclaim_now round.attempts g in
      lease_first-dedup to_text round.lease_now (promote_ready_delayed round.promote_now reclaimed)
      ∙ reclaim-dedup round.reclaim_now round.attempts g (expired round.reclaim_now g.leased) refl

module _ {F T V : Type 0} where
  checkpoint-dedup :
      (id : MessageId) (token : LeaseToken) (state : V) (g : Group F T V)
      → (checkpoint synced id token state g).0.dedup ≡ g.dedup
  unfolding checkpoint finish_checkpoint
  checkpoint-dedup id token state g = ground arith

  publish-dedup :
      (id : MessageId) (token : LeaseToken) (content : V) (is_final : Bool) (g : Group F T V)
      → (publish_partial_result id token content is_final g).0.dedup ≡ g.dedup
  unfolding publish_partial_result
  publish-dedup id token content is_final g = ground arith

  reprocess-dedup :
      (id : MessageId) (g : Group F T V)
      → (reprocess_dead_letter synced synced id g).0.dedup ≡ g.dedup
  unfolding reprocess_dead_letter take_letter write_enqueue_record
  reprocess-dedup id g = ground arith

  purge-IsDeduplicated :
      (id : MessageId) (s : Racing F T V)
      → IsDeduplicated s
      → IsDeduplicated (record s { group = (purge_dead_letter synced id s.group).0 })
  unfolding purge_dead_letter take_letter
  purge-IsDeduplicated id s d = elim (Option-cases (get ℕ_discrete id s.group.dlq.entries)) [
    | inl e ↦ record {
      single = λ i. ground (arith, e, d.single i);
      kept = purge-IsKept id s.group d.kept;
      one = λ k. ground (arith, e, d.one k);
    }
    | inr (letter, e) ↦
        let less = λ (w : Message T → ℕ).
          letters-remove w id letter s.group.dlq.entries (omega (arith, d.single id)) e in
        let rest = λ (k : IdempotencyKey).
          live (keyed k) s.group
          + in_letters (keyed k) (remove ℕ_discrete id s.group.dlq.entries)
          + total (λ c. keyed k c.message) s.enqueues in
        record {
          single = λ i. ground (arith, e, d.single i, less (has_id i));
          kept = purge-IsKept id s.group d.kept;
          one = λ k. ground (
            arith,
            e,
            release_slot letter.idempotency_key s.group.dedup k (rest k)
                (omega (arith, d.one k, less (keyed k))),
          );
        }
  ]

  fresh-IsDeduplicated :
      (timeout : ℕ) (policy : RetryPolicy F)
      → let g : Group F T V = fresh_group timeout policy in IsDeduplicated (alone g)
  unfolding fresh_group open_group open_queue attach replay DeadLetter.replay
  fresh-IsDeduplicated timeout policy = record {
    single = λ id. omega arith;
    kept = (fresh_group-IsConsistent timeout policy).kept;
    one = λ k. omega arith;
  }

-- One step of a schedule: a part of an enqueue or an ack, however its write goes, or another call, whole and with its
-- writes done.
pub data Race {F T V : Type 0} (float : Float F) (to_text : MessageId → Text) (s : Racing F T V)
    : Racing F T V → Type 0 where
  begins :
      (id : MessageId) (item : T) (key : Option IdempotencyKey)
      → everything (has_id id) s ≡ 0
      → Race float to_text s (begin_enqueue id item key s).0
  writes : (io : AppendIo) (n : ℕ) → Race float to_text s (write_enqueue io n s)
  finishes : (n : ℕ) → Race float to_text s (finish_enqueue n s).0
  acks : (id : MessageId) (token : LeaseToken) → Race float to_text s (begin_ack id token s).0
  writes_ack : (io : AppendIo) (n : ℕ) → Race float to_text s (write_ack io n s).0
  nacks :
      (attempt : Attempt F) (id : MessageId) (token : LeaseToken) (reason : Option Text)
      → attempt.dlq_io ≡ synced
      → Race float to_text s (record s { group = (nack float attempt id token reason s.group).0 })
  claims :
      (round : Round F)
      → ((id : MessageId) → (round.attempts id).dlq_io ≡ synced)
      → Race float to_text s (record s { group = (claim_round float to_text round s.group).0 })
  checkpoints :
      (id : MessageId) (token : LeaseToken) (state : V)
      → Race float to_text s (record s { group = (checkpoint synced id token state s.group).0 })
  publishes :
      (id : MessageId) (token : LeaseToken) (content : V) (is_final : Bool)
      → Race float to_text s
          (record s { group = (publish_partial_result id token content is_final s.group).0 })
  annotates :
      (id : MessageId) (verdict : TriageVerdict)
      → Race float to_text s
          (record s { group = (annotate_dead_letter synced id verdict s.group).0 })
  reprocesses :
      (id : MessageId)
      → Race float to_text s
          (record s { group = (reprocess_dead_letter synced synced id s.group).0 })
  purges :
      (id : MessageId)
      → Race float to_text s (record s { group = (purge_dead_letter synced id s.group).0 })

module _ {F T V : Type 0} (float : Float F) (to_text : MessageId → Text) where
  pub data Races : Racing F T V → Racing F T V → Type 0 where
    stop : {s : Racing F T V} → Races s s
    next : {s t u : Racing F T V} → Race float to_text s t → Races t u → Races s u

  Race-IsDeduplicated :
      (s t : Racing F T V) → Race float to_text s t → IsDeduplicated s → IsDeduplicated t
  unfolding write_ack annotate_dead_letter
  Race-IsDeduplicated s t (begins id item key fresh) d =
      begin_enqueue-IsDeduplicated id item key s fresh d
  Race-IsDeduplicated s t (writes io n) d = write_enqueue-IsDeduplicated io n s d
  Race-IsDeduplicated s t (finishes n) d = finish_enqueue-IsDeduplicated n s d
  Race-IsDeduplicated s t (acks id token) d = begin_ack-IsDeduplicated id token s d
  Race-IsDeduplicated s t (writes_ack io n) d = elim (Option-cases (take_nth n s.acks)) [
    | inl e ↦ rw (write_ack, e) d
    | inr (found, e) ↦ rw (write_ack, e) (record { single = d.single; kept = d.kept; one = d.one })
  ]
  Race-IsDeduplicated s t (nacks attempt id token reason io) d =
      moved s (nack float attempt id token reason s.group).0
        (nack-SameMessages float attempt id token reason s.group io (single-group s d))
        (nack-dedup float attempt id token reason s.group)
        (nack-IsKept float attempt id token reason s.group io d.kept) d
  Race-IsDeduplicated s t (claims round io) d =
      moved s (claim_round float to_text round s.group).0
        (claim_round-SameMessages float to_text round s.group io (single-group s d))
        (claim_round-dedup float to_text round s.group)
        (claim_round-IsKept float to_text round s.group io d.kept) d
  Race-IsDeduplicated s t (checkpoints id token state) d =
      moved s (checkpoint synced id token state s.group).0
        (checkpoint-SameMessages id token state s.group (single-group s d))
        (checkpoint-dedup id token state s.group)
        (subst IsKept (checkpoint_dlq float to_text id token state s.group) d.kept) d
  Race-IsDeduplicated s t (publishes id token content is_final) d =
      moved s (publish_partial_result id token content is_final s.group).0
        (publish-SameMessages id token content is_final s.group (single-group s d))
        (publish-dedup id token content is_final s.group)
        (subst IsKept (publish_dlq float to_text id token content is_final s.group) d.kept) d
  Race-IsDeduplicated s t (annotates id verdict) d =
      moved s (annotate_dead_letter synced id verdict s.group).0
        (annotate-SameMessages id verdict s.group (single-group s d) d.kept) refl
        (annotate-IsKept id verdict s.group.dlq d.kept) d
  Race-IsDeduplicated s t (reprocesses id) d =
      moved s (reprocess_dead_letter synced synced id s.group).0
        (reprocess-SameMessages id s.group (single-group s d) d.kept) (reprocess-dedup id s.group)
        (reprocess-IsKept id s.group d.kept) d
  Race-IsDeduplicated s t (purges id) d = purge-IsDeduplicated id s d

  Races-IsDeduplicated : (s t : Racing F T V) → Races s t → IsDeduplicated s → IsDeduplicated t
  Races-IsDeduplicated s t stop d = d
  Races-IsDeduplicated s t (next {t = m} race races) d =
      Races-IsDeduplicated m t races (Race-IsDeduplicated s m race d)

  -- Whatever enqueues and acks run at once on a new group, in any order of their parts and however their writes go,
  -- and whatever other calls run between, a key never has two messages among those in the group, dead letters
  -- included, and those still being enqueued; if the writes of the other calls succeed and new ids are fresh.
  pub one_message :
      (timeout : ℕ) (policy : RetryPolicy F) (s : Racing F T V) (key : IdempotencyKey)
      → Races (alone (fresh_group timeout policy)) s
      → everything (keyed key) s ≤ 1
  one_message timeout policy s key races =
      let d =
        Races-IsDeduplicated (alone (fresh_group timeout policy)) s races
          (fresh-IsDeduplicated timeout policy) in
      omega (arith, d.one key, slot-le (get IdempotencyKey-discrete key s.group.dedup))
