-- ===== src/ConsumerGroup/Durability.antt =====
-- The log of a group against its messages in memory: each record, and the calls that write one.
use mathlib.Core.List.{foldl-append}
use queue_as_a_service.Base.{
  ℕ, ◌+◌, ◌≤◌, ◌≡◌, refl, ap, ◌∙◌, true, false, List, [], ◌∷◌, ◌++◌, Option, none, arith,
  ℕ_discrete, get, total-append, Option-cases, inl, inr, Bool-cases, ◌==◌,
}
use queue_as_a_service.Log.{synced}
use queue_as_a_service.Types.{MessageId, IdempotencyKey, Text}
use queue_as_a_service.Retry.{Float, is_exhausted, delay_for}
use queue_as_a_service.DeadLetter.{add_letter}
use queue_as_a_service.ConsumerGroup.State.{
  WalRecord, enqueued, acked, dead_lettered, checkpointed, Pending, Leased, Delayed, LeaseToken,
  Group,
}
use queue_as_a_service.ConsumerGroup.Recovery.{find_pending, remove_pending, apply, replay}
use queue_as_a_service.ConsumerGroup.Messages.{
  Message, of_pending, of_leased, of_delayed, in_pending, has_id, only_id, live, IsSingle,
  in_leased-remove, in_leased-get, in_pending-remove_pending, live-leased,
}
use queue_as_a_service.ConsumerGroup.Enqueue.{new_pending, write_enqueue_record}
use queue_as_a_service.ConsumerGroup.Resolve.{Attempt, delayed_of, resolve_failed_delivery, ack}

module _ {T V : Type 0} where
  pub replay-append :
      (rs : List (WalRecord T V)) (r : WalRecord T V) → replay (rs ++ r ∷ []) ≡ apply (replay rs) r
  unfolding replay
  replay-append rs r = rw foldl-append

  -- The sum of a weight over the messages that a log holds.
  abbrev pub logged : (Message T → ℕ) → List (WalRecord T V) → ℕ
  logged w rs = in_pending w (replay rs).pending

  logged-enqueued :
      (w : Message T → ℕ) (rs : List (WalRecord T V)) (id : MessageId) (key : Option IdempotencyKey)
      (item : T)
      → logged w (rs ++ enqueued id key item ∷ [])
        ≡ w (record { id = id; item = item; idempotency_key = key }) + logged w rs
  unfolding apply
  logged-enqueued w rs id key item = rw (replay-append rs (enqueued id key item)) (
      omega (
        arith,
        total-append (λ (p : Pending T V). w (of_pending p)) (replay rs).pending
            (new_pending id item key ∷ []),
      ))

  remove_pending_absent :
      (id : MessageId) (ps : List (Pending T V))
      → find_pending id ps ≡ none
      → remove_pending id ps ≡ ps
  unfolding find_pending remove_pending
  remove_pending_absent id [] e = refl
  remove_pending_absent id (p ∷ ps) e = ground (arith, remove_pending_absent id ps)

  logged-dead_lettered :
      (w : Message T → ℕ) (rs : List (WalRecord T V)) (id : MessageId)
      → logged (has_id id) rs ≤ 1
      → logged w (rs ++ dead_lettered id ∷ []) + logged (only_id id w) rs ≡ logged w rs
  unfolding apply
  logged-dead_lettered w rs id h =
      rw (replay-append rs (dead_lettered id))
        (in_pending-remove_pending w id (replay rs).pending h)

  acked_pending :
      (rs : List (WalRecord T V)) (id : MessageId)
      → (replay (rs ++ acked id ∷ [])).pending ≡ remove_pending id (replay rs).pending
  unfolding apply
  acked_pending rs id =
      rw (replay-append rs (acked id))
        (ground (arith, remove_pending_absent id (replay rs).pending))

  logged-acked :
      (w : Message T → ℕ) (rs : List (WalRecord T V)) (id : MessageId)
      → logged (has_id id) rs ≤ 1
      → logged w (rs ++ acked id ∷ []) + logged (only_id id w) rs ≡ logged w rs
  logged-acked w rs id h =
      rw (acked_pending rs id) (in_pending-remove_pending w id (replay rs).pending h)

  pub logged-checkpointed :
      (w : Message T → ℕ) (rs : List (WalRecord T V)) (id : MessageId) (state : V)
      → logged w (rs ++ checkpointed id state ∷ []) ≡ logged w rs
  unfolding apply
  logged-checkpointed w rs id state = rw (replay-append rs (checkpointed id state))

module _ {F T V : Type 0} where
  -- No part of a record stands in the log, and the log holds the messages that are not acknowledged.
  pub record IsDurable (g : Group F T V) : Type 0 where
    pub sound : g.wal.spoiled ≡ false
    pub agrees : (w : Message T → ℕ) → logged w g.wal.records ≡ live w g

  -- A message that is written is in the log and in the memory.
  pub write_enqueue_record-IsDurable :
      (id : MessageId) (item : T) (key : Option IdempotencyKey) (g : Group F T V)
      → IsDurable g
      → IsDurable (write_enqueue_record synced id item key g).0
  unfolding write_enqueue_record
  write_enqueue_record-IsDurable id item key g d = record {
    sound = d.sound;
    agrees = λ w. rw d.sound (
        omega (
          arith,
          logged-enqueued w g.wal.records id key item,
          d.agrees w,
          total-append (λ (p : Pending T V). w (of_pending p)) g.pending
              (new_pending id item key ∷ []),
        ));
  }

  -- An acknowledged message leaves both.
  pub ack-IsDurable :
      (id : MessageId) (token : LeaseToken) (g : Group F T V)
      → IsSingle g
      → IsDurable g
      → IsDurable (ack synced id token g).0
  unfolding ack
  ack-IsDurable id token g single d = elim (Option-cases (get ℕ_discrete id g.leased)) [
    | inl e ↦ rw (e, ack) d
    | inr (lease, e) ↦ elim (Bool-cases (lease.token == token)) [
      | inl t ↦
          rw (e, ack)
            (rw t (record {
              sound = d.sound;
              agrees = λ w. rw d.sound (
                  omega (
                    arith,
                    logged-acked w g.wal.records id
                        (omega (arith, single id, d.agrees (has_id id))),
                    d.agrees w,
                    d.agrees (only_id id w),
                    live-leased w id lease g single e,
                    in_leased-get w id lease g.leased (omega (arith, single id)) e,
                    in_leased-remove w id g.leased,
                  ));
            }))
      | inr t ↦ rw (e, ack) (rw t d)
    ]
  ]

module _ {F T V : Type 0} (float : Float F) where
  -- `rest` stands for messages that were taken out of the group and are still to be resolved.
  abbrev pub Covers : ((Message T → ℕ) → ℕ) → Group F T V → Type 0
  Covers rest g =
      (g.wal.spoiled ≡ false) × ((w : Message T → ℕ) → logged w g.wal.records ≡ rest w + live w g)

  -- What a failed delivery that is given up does to the log, and one that is retried to the group.
  module _ (attempt : Attempt F) (reason : Option Text) (id : MessageId) (lease : Leased T V)
      (g : Group F T V) where
    unfoldable pub resolved : Group F T V
    unfolding resolve_failed_delivery add_letter
    resolved = (resolve_failed_delivery float attempt reason id lease g).0

    resolved-letter :
        is_exhausted g.retry_policy lease.delivery_count ≡ true
        → attempt.dlq_io ≡ synced
        → attempt.wal_io ≡ synced
        → g.wal.spoiled ≡ false
        → (resolved.wal.spoiled ≡ false)
          × (resolved.wal.records ≡ g.wal.records ++ dead_lettered id ∷ [])
          × ((w : Message T → ℕ) → live w resolved ≡ live w g)
    unfolding resolved
    resolved-letter e io io' sound = (ground arith, ground arith, λ w. ground arith)

    resolved-retry :
        is_exhausted g.retry_policy lease.delivery_count ≡ false
        → (resolved.wal ≡ g.wal)
          × ((w : Message T → ℕ) → live w resolved ≡ w (of_leased (id, lease)) + live w g)
    unfolding resolved
    resolved-retry e =
        let delay = delay_for float g.retry_policy attempt.draw lease.delivery_count in
        (
          ground arith,
          λ w. ground (
            arith,
            total-append (λ (d : Delayed T V). w (of_delayed d)) g.delayed
                (delayed_of float attempt delay id lease ∷ []),
          ),
        )

    pub resolved-Covers :
        (rest : (Message T → ℕ) → ℕ)
        → attempt.dlq_io ≡ synced
        → attempt.wal_io ≡ synced
        → ((w : Message T → ℕ) → rest (only_id id w) + live (only_id id w) g ≡ 0)
        → Covers (λ w. w (of_leased (id, lease)) + rest w) g
        → Covers rest resolved
    resolved-Covers rest io io' gone (sound, covers) =
        elim (Bool-cases (is_exhausted g.retry_policy lease.delivery_count)) [
          | inl e ↦
              let (sound', records, same) = resolved-letter e io io' sound in
              let one : logged (has_id id) g.wal.records ≤ 1 =
                ground (arith, covers (has_id id), gone (λ _. 1)) in
              (
                sound',
                λ w. rw records (
                    ground (
                      arith,
                      logged-dead_lettered w g.wal.records id one,
                      covers w,
                      covers (only_id id w),
                      gone w,
                      same w,
                    )),
              )
          | inr e ↦
              let (same, more) = resolved-retry e in
              (ap (λ l. l.spoiled) same ∙ sound, λ w. rw same (omega (arith, covers w, more w)))
        ]
