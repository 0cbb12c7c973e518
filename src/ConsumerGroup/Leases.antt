-- ===== src/ConsumerGroup/Leases.antt =====
-- Leases: who holds a message, and until when.
use mathlib.Core.Path.{subst}
use queue_as_a_service.Base.{
  ℕ, ◌+◌, ◌≤◌, ◌≡◌, refl, ap, ◌∙◌, Bool, true, false, List, [], ◌∷◌, Option, none, some, arith,
  ℕ_discrete, Map, get, get-insert, Option-cases, inl, inr, ◌==◌, All,
}
use queue_as_a_service.Log.{AppendIo, synced, ok}
use queue_as_a_service.Types.{MessageId, Text}
use queue_as_a_service.Retry.{Float}
use queue_as_a_service.ConsumerGroup.State.{Pending, Leased, Delayed, LeaseToken, Claim, Group}
use queue_as_a_service.ConsumerGroup.Resolve.{Attempt, ack, nack, checkpoint}
use queue_as_a_service.ConsumerGroup.Stream.{publish_partial_result}
use queue_as_a_service.ConsumerGroup.Claiming.{
  Round, claimed, waits, earliest, first_expiry, first_retry, earliest_wake, lease_of, lease_first,
  claim_round, reclaim_expired_leases, promote_ready_delayed,
}

-- A time that a timer may be set to, so that it does not pass over the time `t`.
abbrev pub Reaches : Option ℕ → ℕ → Type 0
Reaches none t = ⊥
Reaches (some s) t = s ≤ t

Reaches-earliest_left : (a b : Option ℕ) (t : ℕ) → Reaches a t → Reaches (earliest a b) t
Reaches-earliest_left none b t h = elim h [ ]
Reaches-earliest_left (some a) none t h = h
Reaches-earliest_left (some a) (some b) t h = omega (arith, h)

Reaches-earliest_right : (a b : Option ℕ) (t : ℕ) → Reaches b t → Reaches (earliest a b) t
Reaches-earliest_right none b t h = h
Reaches-earliest_right (some a) none t h = elim h [ ]
Reaches-earliest_right (some a) (some b) t h = omega (arith, h)

module _ {T V : Type 0} where
  Reaches-expiries :
      (ls : Map MessageId (Leased T V))
      → (o : Option ℕ) → ((t : ℕ) → Reaches (first_expiry ls) t → Reaches o t)
      → All (λ e. Reaches o (e.1.expires_at)) ls
  unfolding first_expiry
  Reaches-expiries [] o r = tt
  Reaches-expiries ((id, l) ∷ ls) o r = (
    r l.expires_at
        (Reaches-earliest_left (some l.expires_at) (first_expiry ls) l.expires_at (omega arith)),
    Reaches-expiries ls o
        (λ t h. r t (Reaches-earliest_right (some l.expires_at) (first_expiry ls) t h)),
  )

  Reaches-retries :
      (ds : List (Delayed T V))
      → (o : Option ℕ) → ((t : ℕ) → Reaches (first_retry ds) t → Reaches o t)
      → All (λ d. Reaches o d.available_at) ds
  unfolding first_retry
  Reaches-retries [] o r = tt
  Reaches-retries (d ∷ ds) o r = (
    r d.available_at
        (Reaches-earliest_left (some d.available_at) (first_retry ds) d.available_at (omega arith)),
    Reaches-retries ds o
        (λ t h. r t (Reaches-earliest_right (some d.available_at) (first_retry ds) t h)),
  )

module _ {F T V : Type 0} where
  -- Nobody holds the message under this token.
  abbrev pub IsStale : MessageId → LeaseToken → Group F T V → Type 0
  IsStale id token g =
      (lease : Leased T V) → get ℕ_discrete id g.leased ≡ some lease → ¬ (lease.token ≡ token)

module _ {F T V : Type 0} (float : Float F) where
  -- A caller whose lease is over, or that never had one, changes nothing, whichever way its writes would go.
  pub stale_lem :
      (io : AppendIo) (attempt : Attempt F) (id : MessageId) (token : LeaseToken)
      (reason : Option Text) (state content : V) (is_final : Bool) (g : Group F T V)
      → IsStale id token g
      → (ack io id token g ≡ (g, ok false))
        × (nack float attempt id token reason g ≡ (g, ok false))
        × (checkpoint io id token state g ≡ (g, ok false))
        × (publish_partial_result id token content is_final g ≡ (g, none))
  unfolding ack nack checkpoint publish_partial_result
  stale_lem io attempt id token reason state content is_final g stale =
      elim (Option-cases (get ℕ_discrete id g.leased)) [
        | inl e ↦ (ground (arith, e), ground (arith, e), ground (arith, e), ground (arith, e))
        | inr (lease, e) ↦
            let other : (lease.token == token) ≡ false = ground (arith, stale lease e) in
            (
              ground (arith, e, other),
              ground (arith, e, other),
              ground (arith, e, other),
              ground (arith, e, other),
            )
      ]

module _ {F T V : Type 0} where
  pub lease_first-claimed :
      (to_text : MessageId → Text) (now : ℕ) (g : Group F T V) (ps : List (Pending T V))
      (c : Claim T V)
      → g.pending ≡ ps
      → (lease_first to_text now g).1 ≡ claimed c
      → (lease : Leased T V) × (get ℕ_discrete c.id (lease_first to_text now g).0.leased
          ≡ some lease)
        × (lease.token ≡ c.token)
        × (lease.expires_at ≡ now + g.visibility_timeout)
        × (lease.item ≡ c.item)
        × (lease.delivery_count ≡ c.delivery_count)
        × (lease.checkpoint ≡ c.checkpoint)
  unfolding lease_first
  lease_first-claimed to_text now g [] c e h = absurd (ground (arith, e, h))
  lease_first-claimed to_text now g (p ∷ ps) c e h =
      let get_new = get-insert ℕ_discrete p.id p.id (lease_of now g p) g.leased in
      (
        lease_of now g p,
        ground (arith, e, h, get_new),
        ground (arith, e, h),
        refl,
        ground (arith, e, h),
        ground (arith, e, h),
        ground (arith, e, h),
      )

  lease_first_waits :
      (to_text : MessageId → Text) (now : ℕ) (g : Group F T V) (ps : List (Pending T V))
      (wake : Option ℕ)
      → g.pending ≡ ps
      → (lease_first to_text now g).1 ≡ waits wake
      → ((lease_first to_text now g).0 ≡ g) × (g.pending ≡ []) × (earliest_wake g ≡ wake)
  unfolding lease_first
  lease_first_waits to_text now g [] wake e h = (ground (arith, e), e, ground (arith, e, h))
  lease_first_waits to_text now g (p ∷ ps) wake e h = absurd (ground (arith, e, h))

module _ {F T V : Type 0} where
  ack_held :
      (g : Group F T V) (c : Claim T V) (lease : Leased T V)
      → get ℕ_discrete c.id g.leased ≡ some lease
      → lease.token ≡ c.token
      → (ack synced c.id c.token g).1 ≡ ok true
  unfolding ack
  ack_held g c lease here token = ground (arith, here, token)

  waits_of :
      (g h : Group F T V) (wake : Option ℕ)
      → h ≡ g
      → g.pending ≡ []
      → earliest_wake g ≡ wake
      → (h.pending ≡ [])
        × All (λ e. Reaches wake (e.1.expires_at)) h.leased
        × All (λ d. Reaches wake d.available_at) h.delayed
  unfolding earliest_wake
  waits_of g h wake same none_pending e = (
    ap (λ x. x.pending) same ∙ none_pending,
    rw same (
        Reaches-expiries g.leased wake (λ t r.
          subst (λ o. Reaches o t) e
            (Reaches-earliest_left (first_expiry g.leased) (first_retry g.delayed) t r))),
    rw same (
        Reaches-retries g.delayed wake (λ t r.
          subst (λ o. Reaches o t) e
            (Reaches-earliest_right (first_expiry g.leased) (first_retry g.delayed) t r))),
  )

module _ {F T V : Type 0} (float : Float F) where
  -- A round that claims a message has leased it, with the payload, the delivery count and the checkpoint that
  -- the claim tells, and an acknowledgement under the token of the claim succeeds, if its record is
  -- written.
  pub claim_round-claimed :
      (to_text : MessageId → Text) (round : Round F) (g : Group F T V) (c : Claim T V)
      → (claim_round float to_text round g).1 ≡ claimed c
      → (lease : Leased T V) × (get ℕ_discrete c.id (claim_round float to_text round g).0.leased
          ≡ some lease)
        × (lease.item ≡ c.item)
        × (lease.delivery_count ≡ c.delivery_count)
        × (lease.checkpoint ≡ c.checkpoint)
        × ((ack synced c.id c.token (claim_round float to_text round g).0).1 ≡ ok true)
  unfolding claim_round
  claim_round-claimed to_text round g c h =
      let g2 =
        promote_ready_delayed round.promote_now
          (reclaim_expired_leases float round.reclaim_now round.attempts g) in
      let (lease, here, token, expires, item, count, state) =
        lease_first-claimed to_text round.lease_now g2 g2.pending c refl h in
      (
        lease,
        here,
        item,
        count,
        state,
        ack_held (lease_first to_text round.lease_now g2).0 c lease here token,
      )

  -- A round that waits leaves nothing pending, and its timer is set no later than any time at which a lease
  -- ends or a delayed message is due; it is set whenever there is one.
  pub claim_round-waits :
      (to_text : MessageId → Text) (round : Round F) (g : Group F T V) (wake : Option ℕ)
      → (claim_round float to_text round g).1 ≡ waits wake
      → ((claim_round float to_text round g).0.pending ≡ [])
        × All (λ e. Reaches wake (e.1.expires_at)) (claim_round float to_text round g).0.leased
        × All (λ d. Reaches wake d.available_at) (claim_round float to_text round g).0.delayed
  unfolding claim_round
  claim_round-waits to_text round g wake h =
      let g2 =
        promote_ready_delayed round.promote_now
          (reclaim_expired_leases float round.reclaim_now round.attempts g) in
      let (same, none_pending, e) =
        lease_first_waits to_text round.lease_now g2 g2.pending wake refl h in
      waits_of g2 (lease_first to_text round.lease_now g2).0 wake same none_pending e
