-- ===== src/ConsumerGroup/Conservation.antt =====
-- The messages of a group under the calls that move them between the pending, the leased, the delayed
-- and the dead.
use queue_as_a_service.Base.{
  ℕ, ◌+◌, ◌≤◌, ◌≡◌, refl, ap, ◌∙◌, List, [], ◌∷◌, Option, some, arith, ℕ_discrete, Map, get, remove,
  insert, only-eq-zero, total-append, Option-cases, inl, inr,
}
use queue_as_a_service.Log.{synced}
use queue_as_a_service.Types.{MessageId, Text}
use queue_as_a_service.Retry.{Float, delay_for}
use queue_as_a_service.DeadLetter.{DeadLetter, add_letter}
use queue_as_a_service.ConsumerGroup.State.{Pending, Leased, Delayed, LeaseToken, Group}
use queue_as_a_service.ConsumerGroup.Messages.{
  Message, of_pending, of_leased, of_delayed, of_letter, in_pending, in_leased, in_delayed,
  in_letters, has_id, all, IsSingle, SameMessages, SameMessages-IsSingle, in_leased-remove,
  in_letters-remove, in_leased-get, in_leased-remove_self,
}
use queue_as_a_service.ConsumerGroup.Resolve.{
  Attempt, letter_of, delayed_of, resolve_failed_delivery, nack,
}
use queue_as_a_service.ConsumerGroup.Claiming.{
  timed_out, lease_of, expired, unexpired, resolve_expired, reclaim_expired_leases, ready,
  still_delayed, promote_ready_delayed, lease_first, claim_round, Round,
}

module _ {T V : Type 0} where
  -- A new dead letter adds its weight.
  in_letters-insert :
      (w : Message T → ℕ) (id : MessageId) (l : DeadLetter T V) (m : Map MessageId (DeadLetter T V))
      → in_letters (has_id id) m ≡ 0
      → in_letters w (insert ℕ_discrete id l m) ≡ w (of_letter (id, l)) + in_letters w m
  unfolding insert
  in_letters-insert w id l m h = omega (
    arith,
    in_letters-remove w id m,
    only-eq-zero (λ (e : MessageId × DeadLetter T V). e.0) id (λ e. w (of_letter e)) m h,
  )

  -- A new lease does.
  pub in_leased-insert :
      (w : Message T → ℕ) (id : MessageId) (l : Leased T V) (m : Map MessageId (Leased T V))
      → in_leased (has_id id) m ≡ 0
      → in_leased w (insert ℕ_discrete id l m) ≡ w (of_leased (id, l)) + in_leased w m
  unfolding insert
  in_leased-insert w id l m h = omega (
    arith,
    in_leased-remove w id m,
    only-eq-zero (λ (e : MessageId × Leased T V). e.0) id (λ e. w (of_leased e)) m h,
  )

module _ {F T V : Type 0} (float : Float F) where
  -- A failed delivery becomes a delayed message or a dead letter, if the dead letter can be written.
  pub all-resolve_failed_delivery :
      (w : Message T → ℕ) (attempt : Attempt F) (reason : Option Text) (id : MessageId)
      (lease : Leased T V) (g : Group F T V)
      → attempt.dlq_io ≡ synced
      → all (has_id id) g ≡ 0
      → all w (resolve_failed_delivery float attempt reason id lease g).0
        ≡ w (of_leased (id, lease)) + all w g
  unfolding resolve_failed_delivery add_letter
  all-resolve_failed_delivery w attempt reason id lease g io h = ground (
    arith,
    in_letters-insert w id (letter_of float attempt reason id lease) g.dlq.entries,
    total-append (λ (d : Delayed T V). w (of_delayed d)) g.delayed
        (delayed_of float attempt (delay_for float g.retry_policy attempt.draw lease.delivery_count)
            id lease
          ∷ []),
  )

  -- A nack keeps every message, with its payload and its key, if the dead letter it may have to write
  -- is written.
  pub nack-SameMessages :
      (attempt : Attempt F) (id : MessageId) (token : LeaseToken) (reason : Option Text)
      (g : Group F T V)
      → attempt.dlq_io ≡ synced
      → IsSingle g
      → SameMessages (nack float attempt id token reason g).0 g
  unfolding nack
  nack-SameMessages attempt id token reason g io single w =
      elim (Option-cases (get ℕ_discrete id g.leased)) [
        | inl e ↦ rw (e, nack)
        | inr (lease, e) ↦
            let without : Group F T V = record g { leased = remove ℕ_discrete id g.leased } in
            let present = in_leased-get (λ _. 1) id lease g.leased (omega (arith, single id)) e in
            let taken = in_leased-get w id lease g.leased (omega (arith, single id)) e in
            let gone : all (has_id id) without ≡ 0 =
              omega (arith, single id, present, in_leased-remove_self id g.leased) in
            rw (e, nack)
              (ground (
                arith,
                taken,
                in_leased-remove w id g.leased,
                all-resolve_failed_delivery w attempt reason id lease without io gone,
              ))
      ]

module _ {T V : Type 0} where
  pub in_leased-expired :
      (w : Message T → ℕ) (now : ℕ) (m : Map MessageId (Leased T V))
      → in_leased w (expired now m) + in_leased w (unexpired now m) ≡ in_leased w m
  unfolding expired unexpired
  in_leased-expired w now [] = refl
  in_leased-expired w now ((id, l) ∷ m) = ground (arith, in_leased-expired w now m)

  in_delayed-ready :
      (w : Message T → ℕ) (now : ℕ) (ds : List (Delayed T V))
      → in_pending w (ready now ds) + in_delayed w (still_delayed now ds) ≡ in_delayed w ds
  unfolding ready still_delayed
  in_delayed-ready w now [] = refl
  in_delayed-ready w now (d ∷ ds) = ground (arith, in_delayed-ready w now ds)

module _ {F T V : Type 0} where
  pub promote-SameMessages :
      (now : ℕ) (g : Group F T V) → SameMessages (promote_ready_delayed now g) g
  unfolding promote_ready_delayed
  promote-SameMessages now g w = omega (
    arith,
    in_delayed-ready w now g.delayed,
    total-append (λ (p : Pending T V). w (of_pending p)) g.pending (ready now g.delayed),
  )

  lease_first-pending :
      (to_text : MessageId → Text) (now : ℕ) (g : Group F T V) (ps : List (Pending T V))
      → g.pending ≡ ps
      → IsSingle g
      → SameMessages (lease_first to_text now g).0 g
  unfolding lease_first
  lease_first-pending to_text now g [] e single w = ground arith
  lease_first-pending to_text now g (p ∷ ps) e single w =
      let pending = ap (in_pending (has_id p.id)) e in
      let free : in_leased (has_id p.id) g.leased ≡ 0 = ground (arith, single p.id, pending) in
      ground (arith, in_leased-insert w p.id (lease_of now g p) g.leased free)

  pub lease_first-SameMessages :
      (to_text : MessageId → Text) (now : ℕ) (g : Group F T V)
      → IsSingle g
      → SameMessages (lease_first to_text now g).0 g
  lease_first-SameMessages to_text now g = lease_first-pending to_text now g g.pending refl

module _ {F T V : Type 0} (float : Float F) where
  resolve_expired-all :
      (attempts : MessageId → Attempt F)
      → ((id : MessageId) → (attempts id).dlq_io ≡ synced)
      → (ls : Map MessageId (Leased T V)) (g : Group F T V)
      → ((id : MessageId) → in_leased (has_id id) ls + all (has_id id) g ≤ 1)
      → (w : Message T → ℕ) → all w (resolve_expired float attempts ls g) ≡ in_leased w ls + all w g
  unfolding resolve_expired
  resolve_expired-all attempts io [] g single w = omega arith
  resolve_expired-all attempts io ((id, l) ∷ ls) g single w =
      let gone : all (has_id id) g ≡ 0 = ground (arith, single id) in
      let moved = λ (v : Message T → ℕ).
        all-resolve_failed_delivery float v (attempts id) (some timed_out) id l g (io id) gone in
      let rest =
        resolve_expired-all attempts io ls
          (resolve_failed_delivery float (attempts id) (some timed_out) id l g).0
          (λ j. omega (arith, single j, moved (has_id j))) w in
      omega (arith, rest, moved w)

  reclaim-list :
      (now : ℕ) (attempts : MessageId → Attempt F) (g : Group F T V)
      (ls : Map MessageId (Leased T V))
      → expired now g.leased ≡ ls
      → ((id : MessageId) → (attempts id).dlq_io ≡ synced)
      → IsSingle g
      → SameMessages (reclaim_expired_leases float now attempts g) g
  unfolding reclaim_expired_leases
  reclaim-list now attempts g [] e io single w = rw (e, reclaim_expired_leases)
  reclaim-list now attempts g (l ∷ ls) e io single w =
      let kept : Group F T V = record g { leased = unexpired now g.leased } in
      let split = λ (v : Message T → ℕ). rw e at (in_leased-expired v now g.leased) in
      let moved =
        resolve_expired-all attempts io (l ∷ ls) kept
          (λ id. omega (arith, single id, split (has_id id))) w in
      rw (e, reclaim_expired_leases) (omega (arith, moved, split w))

  pub reclaim-SameMessages :
      (now : ℕ) (attempts : MessageId → Attempt F) (g : Group F T V)
      → ((id : MessageId) → (attempts id).dlq_io ≡ synced)
      → IsSingle g
      → SameMessages (reclaim_expired_leases float now attempts g) g
  reclaim-SameMessages now attempts g = reclaim-list now attempts g (expired now g.leased) refl

  -- A round of `claim` keeps every message, with its payload and its key, if the dead letters that
  -- it may have to write are written.
  pub claim_round-SameMessages :
      (to_text : MessageId → Text) (round : Round F) (g : Group F T V)
      → ((id : MessageId) → (round.attempts id).dlq_io ≡ synced)
      → IsSingle g
      → SameMessages (claim_round float to_text round g).0 g
  unfolding claim_round
  claim_round-SameMessages to_text round g io single w =
      let g1 = reclaim_expired_leases float round.reclaim_now round.attempts g in
      let g2 = promote_ready_delayed round.promote_now g1 in
      let same1 = reclaim-SameMessages round.reclaim_now round.attempts g io single in
      let same2 = promote-SameMessages round.promote_now g1 in
      let single1 = SameMessages-IsSingle g1 g same1 single in
      let single2 = SameMessages-IsSingle g2 g1 same2 single1 in
      lease_first-SameMessages to_text round.lease_now g2 single2 w ∙ same2 w ∙ same1 w
