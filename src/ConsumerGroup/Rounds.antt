-- ===== src/ConsumerGroup/Rounds.antt =====
-- The log of a group under `nack` and the rounds of `claim`.
use queue_as_a_service.Base.{
  ℕ, ◌+◌, ◌≤◌, ◌≡◌, refl, ap, ◌∙◌, List, [], ◌∷◌, Option, some, arith, ℕ_discrete, Map, get, remove,
  only-eq-zero, Option-cases, inl, inr, Bool-cases, ◌==◌,
}
use queue_as_a_service.Log.{synced}
use queue_as_a_service.Types.{MessageId, Text}
use queue_as_a_service.Retry.{Float}
use queue_as_a_service.ConsumerGroup.State.{Pending, Leased, LeaseToken, Group}
use queue_as_a_service.ConsumerGroup.Messages.{
  Message, of_leased, in_leased, in_letters, has_id, only_id, all, IsSingle, SameMessages-IsSingle,
  in_leased-remove, in_leased-get, in_leased-remove_self, live-leased, live-absent,
}
use queue_as_a_service.ConsumerGroup.Conservation.{
  in_leased-expired, lease_first-SameMessages, promote-SameMessages, reclaim-SameMessages,
  all-resolve_failed_delivery,
}
use queue_as_a_service.ConsumerGroup.Durability.{
  logged, IsDurable, Covers, resolved, resolved-Covers,
}
use queue_as_a_service.ConsumerGroup.Resolve.{Attempt, resolve_failed_delivery, nack}
use queue_as_a_service.ConsumerGroup.Claiming.{
  timed_out, expired, unexpired, resolve_expired, reclaim_expired_leases, promote_ready_delayed,
  lease_first, claim_round, Round,
}

module _ {F T V : Type 0} where
  promote-IsDurable :
      (now : ℕ) (g : Group F T V) → IsDurable g → IsDurable (promote_ready_delayed now g)
  unfolding promote_ready_delayed
  promote-IsDurable now g d = record {
    sound = d.sound;
    agrees = λ w. ground (arith, promote-SameMessages now g w, d.agrees w);
  }

  -- Leasing writes nothing.
  pub lease_first_logs :
      (to_text : MessageId → Text) (now : ℕ) (g : Group F T V) (ps : List (Pending T V))
      → g.pending ≡ ps
      → ((lease_first to_text now g).0.wal ≡ g.wal) × ((lease_first to_text now g).0.dlq ≡ g.dlq)
  unfolding lease_first
  lease_first_logs to_text now g [] e = rw (e, lease_first) (refl, refl)
  lease_first_logs to_text now g (p ∷ ps) e = rw (e, lease_first) (refl, refl)

  lease_first-IsDurable :
      (to_text : MessageId → Text) (now : ℕ) (g : Group F T V)
      → IsSingle g
      → IsDurable g
      → IsDurable (lease_first to_text now g).0
  lease_first-IsDurable to_text now g single d =
      let (wal, dlq) = lease_first_logs to_text now g g.pending refl in
      record {
        sound = ap (λ l. l.spoiled) wal ∙ d.sound;
        agrees = λ w.
            ap (λ l. logged w l.records) wal
            ∙ omega (
              arith,
              lease_first-SameMessages to_text now g single w,
              d.agrees w,
              ap (λ q. in_letters w q.entries) dlq,
            );
      }

module _ {F T V : Type 0} (float : Float F) where
  -- A nack keeps the log in agreement with the memory, if the records it may have to write are written.
  pub nack-IsDurable :
      (attempt : Attempt F) (id : MessageId) (token : LeaseToken) (reason : Option Text)
      (g : Group F T V)
      → attempt.dlq_io ≡ synced
      → attempt.wal_io ≡ synced
      → IsSingle g
      → IsDurable g
      → IsDurable (nack float attempt id token reason g).0
  unfolding nack resolved
  nack-IsDurable attempt id token reason g io io' single d =
      elim (Option-cases (get ℕ_discrete id g.leased)) [
        | inl e ↦ rw (e, nack) d
        | inr (lease, e) ↦
            let without : Group F T V = record g { leased = remove ℕ_discrete id g.leased } in
            let here = λ (w : Message T → ℕ).
              in_leased-get w id lease g.leased (omega (arith, single id)) e in
            let (sound, agrees) =
              resolved-Covers float attempt reason id lease without (λ _. 0) io io'
                (λ w. omega (arith, live-leased w id lease g single e, here w, gone w))
                (d.sound, λ w. omega (arith, d.agrees w, here w, in_leased-remove w id g.leased)) in
            elim (Bool-cases (lease.token == token)) [
              | inl t ↦
                  rw (e, nack)
                    (rw t (record {
                      sound = ground (arith, sound);
                      agrees = λ w. ground (arith, agrees w);
                    }))
              | inr t ↦ rw (e, nack) (rw t d)
            ]
      ]
    where
      gone : (w : Message T → ℕ) → in_leased (only_id id w) (remove ℕ_discrete id g.leased) ≡ 0
      gone w =
          only-eq-zero (λ (e : MessageId × Leased T V). e.0) id (λ e. w (of_leased e))
            (remove ℕ_discrete id g.leased) (in_leased-remove_self id g.leased)

  resolve_expired-Covers :
      (attempts : MessageId → Attempt F)
      → ((id : MessageId) → (attempts id).dlq_io ≡ synced)
      → ((id : MessageId) → (attempts id).wal_io ≡ synced)
      → (ls : Map MessageId (Leased T V)) (g : Group F T V)
      → ((id : MessageId) → in_leased (has_id id) ls + all (has_id id) g ≤ 1)
      → Covers float (λ w. in_leased w ls) g
      → Covers float (λ _. 0) (resolve_expired float attempts ls g)
  unfolding resolve_expired resolved
  resolve_expired-Covers attempts io io' [] g single covers = covers
  resolve_expired-Covers attempts io io' ((id, l) ∷ ls) g single covers =
      let alone : in_leased (has_id id) ls + all (has_id id) g ≡ 0 = ground (arith, single id) in
      let moved = λ (v : Message T → ℕ).
        all-resolve_failed_delivery float v (attempts id) (some timed_out) id l g (io id)
          (omega (arith, alone)) in
      resolve_expired-Covers attempts io io' ls
        (resolve_failed_delivery float (attempts id) (some timed_out) id l g).0
        (λ j. omega (arith, single j, moved (has_id j)))
        (resolved-Covers float (attempts id) (some timed_out) id l g (λ w. in_leased w ls) (io id)
          (io' id)
          (λ w. omega (
            arith,
            only-eq-zero (λ (e : MessageId × Leased T V). e.0) id (λ e. w (of_leased e)) ls
                (omega (arith, alone)),
            live-absent w id g (omega (arith, alone)),
          ))
          covers)

  reclaim_list-IsDurable :
      (now : ℕ) (attempts : MessageId → Attempt F) (g : Group F T V)
      (ls : Map MessageId (Leased T V))
      → expired now g.leased ≡ ls
      → ((id : MessageId) → (attempts id).dlq_io ≡ synced)
      → ((id : MessageId) → (attempts id).wal_io ≡ synced)
      → IsSingle g
      → IsDurable g
      → IsDurable (reclaim_expired_leases float now attempts g)
  unfolding reclaim_expired_leases
  reclaim_list-IsDurable now attempts g [] e io io' single d = rw (e, reclaim_expired_leases) d
  reclaim_list-IsDurable now attempts g (l ∷ ls) e io io' single d =
      let kept : Group F T V = record g { leased = unexpired now g.leased } in
      let split = λ (v : Message T → ℕ). rw e at (in_leased-expired v now g.leased) in
      let (sound, agrees) =
        resolve_expired-Covers attempts io io' (l ∷ ls) kept
          (λ id. omega (arith, single id, split (has_id id)))
          (d.sound, λ w. omega (arith, d.agrees w, split w)) in
      rw (e, reclaim_expired_leases)
        (record { sound = sound; agrees = λ w. omega (arith, agrees w) })

  -- A round of `claim` keeps the log in agreement with the memory, if the records that it may have to
  -- write are written.
  pub claim_round-IsDurable :
      (to_text : MessageId → Text) (round : Round F) (g : Group F T V)
      → ((id : MessageId) → (round.attempts id).dlq_io ≡ synced)
      → ((id : MessageId) → (round.attempts id).wal_io ≡ synced)
      → IsSingle g
      → IsDurable g
      → IsDurable (claim_round float to_text round g).0
  unfolding claim_round
  claim_round-IsDurable to_text round g io io' single d =
      let g1 = reclaim_expired_leases float round.reclaim_now round.attempts g in
      let g2 = promote_ready_delayed round.promote_now g1 in
      let same1 = reclaim-SameMessages float round.reclaim_now round.attempts g io single in
      let same2 = promote-SameMessages round.promote_now g1 in
      lease_first-IsDurable to_text round.lease_now g2
        (SameMessages-IsSingle g2 g1 same2 (SameMessages-IsSingle g1 g same1 single))
        (promote-IsDurable round.promote_now g1 (
          reclaim_list-IsDurable round.reclaim_now round.attempts g
            (expired round.reclaim_now g.leased) refl io io' single d))
