-- ===== src/ConsumerGroup/Tokens/Steps.antt =====
-- The next token through each call and each part of a round of claim.
use queue_as_a_service.Base.{
  ℕ, ◌+◌, ◌≡◌, u64, refl, ◌∙◌, List, [], ◌∷◌, Option, none, some, arith, Map,
}
use queue_as_a_service.Log.{AppendIo}
use queue_as_a_service.Types.{MessageId, Text, IdempotencyKey}
use queue_as_a_service.Retry.{Float}
use queue_as_a_service.ConsumerGroup.State.{
  Pending, Leased, LeaseToken, Claim, Group, notify_waiters,
}
use queue_as_a_service.ConsumerGroup.Enqueue.{enqueue_with_id_and_key, write_enqueue_record}
use queue_as_a_service.ConsumerGroup.Resolve.{Attempt, nack, resolve_failed_delivery}
use queue_as_a_service.ConsumerGroup.Letters.{reprocess_dead_letter}
use queue_as_a_service.ConsumerGroup.Claiming.{
  claimed, waits, lease_first, reclaim_expired_leases, resolve_expired, expired, unexpired,
}

module _ {F T V : Type 0} where
  pub enqueue_token :
      (io : AppendIo) (id : MessageId) (item : T) (key : Option IdempotencyKey) (g : Group F T V)
      → (enqueue_with_id_and_key io id item key g).0.next_lease_token ≡ g.next_lease_token
  unfolding enqueue_with_id_and_key write_enqueue_record
  enqueue_token io id item none g = ground arith
  enqueue_token io id item (some key) g = ground arith

  pub reprocess_token :
      (dlq_io wal_io : AppendIo) (id : MessageId) (g : Group F T V)
      → (reprocess_dead_letter dlq_io wal_io id g).0.next_lease_token ≡ g.next_lease_token
  unfolding reprocess_dead_letter write_enqueue_record
  reprocess_token dlq_io wal_io id g = ground arith

module _ {F T V : Type 0} (float : Float F) where
  pub resolve_token :
      (attempt : Attempt F) (reason : Option Text) (id : MessageId) (lease : Leased T V)
      (g : Group F T V)
      → (resolve_failed_delivery float attempt reason id lease g).0.next_lease_token
        ≡ g.next_lease_token
  unfolding resolve_failed_delivery
  resolve_token attempt reason id lease g = ground arith

  pub resolve_expired_token :
      (attempts : MessageId → Attempt F) (ls : Map MessageId (Leased T V)) (g : Group F T V)
      → (resolve_expired float attempts ls g).next_lease_token ≡ g.next_lease_token
  unfolding resolve_expired
  resolve_expired_token attempts [] g = refl
  resolve_expired_token attempts ((id, lease) ∷ ls) g =
      resolve_expired_token attempts ls _ ∙ resolve_token (attempts id) _ id lease g

  pub nack_token :
      (attempt : Attempt F) (id : MessageId) (token : LeaseToken) (reason : Option Text)
      (g : Group F T V)
      → (nack float attempt id token reason g).0.next_lease_token ≡ g.next_lease_token
  unfolding nack resolve_failed_delivery
  nack_token attempt id token reason g = ground arith

  pub reclaim_token :
      (now : ℕ) (attempts : MessageId → Attempt F) (g : Group F T V)
      → (reclaim_expired_leases float now attempts g).next_lease_token ≡ g.next_lease_token
  unfolding reclaim_expired_leases
  reclaim_token now attempts g = go (expired now g.leased)
    where
      go :
          (ls : Map MessageId (Leased T V))
          → (elim ls as (λ _. Group F T V) [
            | [] ↦ g
            | l ∷ ls ↦
                let g' =
                  resolve_expired float attempts
                    (l ∷ ls)
                    (record g { leased = unexpired now g.leased }) in
                record g' { signals = notify_waiters ∷ g'.signals }
          ]).next_lease_token
            ≡ g.next_lease_token
      go [] = refl
      go (l ∷ ls) = resolve_expired_token attempts (l ∷ ls) _

module _ {F T V : Type 0} where
  pub lease_first_token :
      (to_text : MessageId → Text) (now : ℕ) (g : Group F T V) (ps : List (Pending T V))
      (c : Claim T V)
      → g.pending ≡ ps
      → (lease_first to_text now g).1 ≡ claimed c
      → (c.token ≡ g.next_lease_token)
        × ((lease_first to_text now g).0.next_lease_token ≡ u64 (g.next_lease_token + 1))
  unfolding lease_first
  lease_first_token to_text now g [] c e h = absurd (ground (arith, e, h))
  lease_first_token to_text now g (p ∷ ps) c e h = (ground (arith, e, h), ground (arith, e))

  pub lease_first_waits :
      (to_text : MessageId → Text) (now : ℕ) (g : Group F T V) (ps : List (Pending T V))
      (wake : Option ℕ)
      → g.pending ≡ ps
      → (lease_first to_text now g).1 ≡ waits wake
      → (lease_first to_text now g).0.next_lease_token ≡ g.next_lease_token
  unfolding lease_first
  lease_first_waits to_text now g [] wake e h = ground (arith, e)
  lease_first_waits to_text now g (p ∷ ps) wake e h = absurd (ground (arith, e, h))
