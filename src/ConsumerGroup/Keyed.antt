-- ===== src/ConsumerGroup/Keyed.antt =====
-- The dead letters of a group: their ids and their log.
use mathlib.Core.Path.{subst}
use queue_as_a_service.Base.{
  ℕ, ◌≡◌, refl, sym, true, false, [], ◌∷◌, Option, some, arith, ℕ_discrete, Map, get, remove,
  get-remove, get-insert, Option-cases, inl, inr, Bool-cases, ◌==◌,
}
use queue_as_a_service.Log.{synced}
use queue_as_a_service.Types.{MessageId, Text}
use queue_as_a_service.Retry.{Float, is_exhausted}
use queue_as_a_service.DeadLetter.{
  DeadLetter, DeadLetterQueue, TriageVerdict, add_letter, take_letter, annotate, finish_annotate,
  set_triage,
}
use queue_as_a_service.DeadLetter.Durability.{
  add_letter-IsDurable, take_letter-IsDurable, annotate-IsDurable,
}
use queue_as_a_service.DeadLetter.Durability
use queue_as_a_service.ConsumerGroup.State.{Leased, LeaseToken, Group}
use queue_as_a_service.ConsumerGroup.Resolve.{Attempt, letter_of, resolve_failed_delivery, nack}
use queue_as_a_service.ConsumerGroup.Rounds.{lease_first_logs}
use queue_as_a_service.ConsumerGroup.Claiming.{
  timed_out, expired, unexpired, resolve_expired, reclaim_expired_leases, promote_ready_delayed,
  claim_round, Round,
}

module _ {T V : Type 0} where
  pub record IsKept (q : DeadLetterQueue T V) : Type 0 where
    pub keyed :
        (id : MessageId) (l : DeadLetter T V) → get ℕ_discrete id q.entries ≡ some l → l.id ≡ id
    pub durable : Durability.IsDurable q

  pub add_letter-IsKept :
      (letter : DeadLetter T V) (q : DeadLetterQueue T V)
      → IsKept q
      → IsKept (add_letter synced letter q).0
  unfolding add_letter
  add_letter-IsKept letter q k = record {
    keyed = λ id l h.
        ground (arith, h, get-insert ℕ_discrete letter.id id letter q.entries, k.keyed id l);
    durable = add_letter-IsDurable letter q k.durable;
  }

module _ {F T V : Type 0} (float : Float F) where
  resolve-letter :
      (attempt : Attempt F) (reason : Option Text) (id : MessageId) (lease : Leased T V)
      (g : Group F T V)
      → is_exhausted g.retry_policy lease.delivery_count ≡ true
      → attempt.dlq_io ≡ synced
      → (resolve_failed_delivery float attempt reason id lease g).0.dlq
        ≡ (add_letter synced (letter_of float attempt reason id lease) g.dlq).0
  unfolding resolve_failed_delivery add_letter
  resolve-letter attempt reason id lease g e io = ground (arith, e, io)

  resolve-retry :
      (attempt : Attempt F) (reason : Option Text) (id : MessageId) (lease : Leased T V)
      (g : Group F T V)
      → is_exhausted g.retry_policy lease.delivery_count ≡ false
      → (resolve_failed_delivery float attempt reason id lease g).0.dlq ≡ g.dlq
  unfolding resolve_failed_delivery
  resolve-retry attempt reason id lease g e = ground (arith, e)

  resolve-IsKept :
      (attempt : Attempt F) (reason : Option Text) (id : MessageId) (lease : Leased T V)
      (g : Group F T V)
      → attempt.dlq_io ≡ synced
      → IsKept g.dlq
      → IsKept (resolve_failed_delivery float attempt reason id lease g).0.dlq
  resolve-IsKept attempt reason id lease g io k =
      elim (Bool-cases (is_exhausted g.retry_policy lease.delivery_count)) [
        | inl e ↦
            subst IsKept (sym (resolve-letter attempt reason id lease g e io))
              (add_letter-IsKept (letter_of float attempt reason id lease) g.dlq k)
        | inr e ↦ subst IsKept (sym (resolve-retry attempt reason id lease g e)) k
      ]

  resolve_expired-IsKept :
      (attempts : MessageId → Attempt F)
      → ((id : MessageId) → (attempts id).dlq_io ≡ synced)
      → (ls : Map MessageId (Leased T V)) (g : Group F T V) → IsKept g.dlq
      → IsKept (resolve_expired float attempts ls g).dlq
  unfolding resolve_expired
  resolve_expired-IsKept attempts io [] g k = k
  resolve_expired-IsKept attempts io ((id, l) ∷ ls) g k =
      resolve_expired-IsKept attempts io ls
        (resolve_failed_delivery float (attempts id) (some timed_out) id l g).0
        (resolve-IsKept (attempts id) (some timed_out) id l g (io id) k)

  pub nack-IsKept :
      (attempt : Attempt F) (id : MessageId) (token : LeaseToken) (reason : Option Text)
      (g : Group F T V)
      → attempt.dlq_io ≡ synced
      → IsKept g.dlq
      → IsKept (nack float attempt id token reason g).0.dlq
  unfolding nack
  nack-IsKept attempt id token reason g io k = elim (Option-cases (get ℕ_discrete id g.leased)) [
    | inl e ↦ rw (e, nack) k
    | inr (lease, e) ↦
        let without : Group F T V = record g { leased = remove ℕ_discrete id g.leased } in
        let kept = resolve-IsKept attempt reason id lease without io k in
        elim (Bool-cases (lease.token == token)) [
          | inl t ↦ rw (e, nack) (rw t (subst IsKept (ground arith) kept))
          | inr t ↦ rw (e, nack) (rw t k)
        ]
  ]

  reclaim_list-IsKept :
      (now : ℕ) (attempts : MessageId → Attempt F) (g : Group F T V)
      (ls : Map MessageId (Leased T V))
      → expired now g.leased ≡ ls
      → ((id : MessageId) → (attempts id).dlq_io ≡ synced)
      → IsKept g.dlq
      → IsKept (reclaim_expired_leases float now attempts g).dlq
  unfolding reclaim_expired_leases
  reclaim_list-IsKept now attempts g [] e io k = rw (e, reclaim_expired_leases) k
  reclaim_list-IsKept now attempts g (l ∷ ls) e io k =
      rw (e, reclaim_expired_leases)
        (resolve_expired-IsKept attempts io (l ∷ ls) (record g { leased = unexpired now g.leased })
          k)

  pub claim_round-IsKept :
      (to_text : MessageId → Text) (round : Round F) (g : Group F T V)
      → ((id : MessageId) → (round.attempts id).dlq_io ≡ synced)
      → IsKept g.dlq
      → IsKept (claim_round float to_text round g).0.dlq
  unfolding claim_round promote_ready_delayed
  claim_round-IsKept to_text round g io k =
      let g1 = reclaim_expired_leases float round.reclaim_now round.attempts g in
      let g2 = promote_ready_delayed round.promote_now g1 in
      subst IsKept (sym (lease_first_logs to_text round.lease_now g2 g2.pending refl).1) (
        reclaim_list-IsKept round.reclaim_now round.attempts g (expired round.reclaim_now g.leased)
          refl io k)

module _ {T V : Type 0} where
  pub take_letter-IsKept :
      (id : MessageId) (q : DeadLetterQueue T V) → IsKept q → IsKept (take_letter synced id q).0
  unfolding take_letter
  take_letter-IsKept id q k = record {
    keyed = elim (Option-cases (get ℕ_discrete id q.entries)) [
      | inl e ↦ rw (e, take_letter) k.keyed
      | inr (letter, e) ↦
          λ j l h. ground (arith, e, h, get-remove ℕ_discrete id j q.entries, k.keyed j l)
    ];
    durable = take_letter-IsDurable id q k.durable;
  }

  pub annotate-IsKept :
      (id : MessageId) (verdict : TriageVerdict) (q : DeadLetterQueue T V)
      → IsKept q
      → IsKept (annotate synced id verdict q).0
  unfolding annotate finish_annotate set_triage
  annotate-IsKept id verdict q k = record {
    keyed = elim (Option-cases (get ℕ_discrete id q.entries)) [
      | inl e ↦ rw (e, annotate) k.keyed
      | inr (letter, e) ↦ λ j l h. ground (
        arith,
        e,
        h,
        k.keyed j l,
        k.keyed id letter,
        get-insert ℕ_discrete id j (record letter { triage = some verdict }) q.entries,
      )
    ];
    durable = annotate-IsDurable id verdict q k.durable;
  }
