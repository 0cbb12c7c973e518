-- ===== src/ConsumerGroup/Attempts/Calls.antt =====
-- Delivery counts through the calls that resolve no failed delivery.
use queue_as_a_service.Base.{
  ℕ, ◌≤◌, ◌≡◌, refl, true, false, Bool, Option, none, some, arith, ℕ_discrete, get, insert, All,
  All-append, Option-cases, Bool-cases, inl, inr, ◌==◌,
}
use queue_as_a_service.Log.{AppendIo, Result, ok, failed, append, synced, unsynced, torn, rejected}
use queue_as_a_service.Types.{MessageId, IdempotencyKey, IdempotencyKey-discrete}
use queue_as_a_service.DeadLetter.{DeadLetter, take_letter}
use queue_as_a_service.ConsumerGroup.State.{checkpointed, Leased, LeaseToken, Group}
use queue_as_a_service.ConsumerGroup.Enqueue.{enqueue_with_id_and_key, write_enqueue_record}
use queue_as_a_service.ConsumerGroup.Resolve.{ack, checkpoint, finish_checkpoint}
use queue_as_a_service.ConsumerGroup.Stream.{publish_partial_result}
use queue_as_a_service.ConsumerGroup.Letters.{reprocess_dead_letter, purge_dead_letter}
use queue_as_a_service.ConsumerGroup.Attempts.{
  IsWithin, same-IsWithin, get-IsWithin, remove-IsWithin,
}

module _ {F T V : Type 0} (m : ℕ) where
  pub write-IsWithin :
      (io : AppendIo) (id : MessageId) (item : T) (key : Option IdempotencyKey) (g : Group F T V)
      → 1 ≤ m
      → IsWithin m g
      → IsWithin m (write_enqueue_record io id item key g).0
  unfolding write_enqueue_record
  write-IsWithin synced id item key g some_ w = record {
    policy = w.policy;
    pending = All-append _ g.pending _ w.pending (omega (arith, some_), tt);
    leased = w.leased;
    delayed = w.delayed;
  }
  write-IsWithin unsynced id item key g some_ w = same-IsWithin m g _ w refl refl refl refl
  write-IsWithin torn id item key g some_ w = same-IsWithin m g _ w refl refl refl refl
  write-IsWithin rejected id item key g some_ w = same-IsWithin m g _ w refl refl refl refl

  pub enqueue-IsWithin :
      (io : AppendIo) (id : MessageId) (item : T) (key : Option IdempotencyKey) (g : Group F T V)
      → 1 ≤ m
      → IsWithin m g
      → IsWithin m (enqueue_with_id_and_key io id item key g).0
  unfolding enqueue_with_id_and_key
  enqueue-IsWithin io id item none g some_ w = write-IsWithin io id item none g some_ w
  enqueue-IsWithin io id item (some key) g some_ w =
      elim (Option-cases (get IdempotencyKey-discrete key g.dedup)) [
        | inr (existing, e) ↦ rw (e, enqueue_with_id_and_key) w
        | inl e ↦
            rw (e, enqueue_with_id_and_key)
              (write-IsWithin io id item (some key) _ some_
                (same-IsWithin m g _ w refl refl refl refl))
      ]

  pub ack-IsWithin :
      (io : AppendIo) (id : MessageId) (token : LeaseToken) (g : Group F T V)
      → IsWithin m g
      → IsWithin m (ack io id token g).0
  unfolding ack
  ack-IsWithin io id token g w = elim (Option-cases (get ℕ_discrete id g.leased)) [
    | inl e ↦ rw (e, ack) w
    | inr (lease, e) ↦ elim (Bool-cases (lease.token == token)) [
      | inl is ↦
          rw (e, ack)
            (rw is (record {
              policy = w.policy;
              pending = w.pending;
              leased = remove-IsWithin m id g.leased w.leased;
              delayed = w.delayed;
            }))
      | inr other ↦ rw (e, ack) (rw other w)
    ]
  ]

  replace-IsWithin :
      (id : MessageId) (lease lease' : Leased T V) (g : Group F T V)
      → get ℕ_discrete id g.leased ≡ some lease
      → lease'.delivery_count ≡ lease.delivery_count
      → IsWithin m g
      → All (λ e. e.1.delivery_count ≤ m) (insert ℕ_discrete id lease' g.leased)
  unfolding insert
  replace-IsWithin id lease lease' g e same w = (
    omega (arith, same, get-IsWithin m id g.leased lease w.leased e),
    remove-IsWithin m id g.leased w.leased,
  )

  finish-IsWithin :
      (id : MessageId) (token : LeaseToken) (state : V) (g : Group F T V)
      → IsWithin m g
      → IsWithin m (finish_checkpoint id token state g).0
  unfolding finish_checkpoint
  finish-IsWithin id token state g w = elim (Option-cases (get ℕ_discrete id g.leased)) [
    | inl e ↦ rw (e, finish_checkpoint) w
    | inr (lease, e) ↦ elim (Bool-cases (lease.token == token)) [
      | inl is ↦
          rw (e, finish_checkpoint)
            (rw is (record {
              policy = w.policy;
              pending = w.pending;
              leased = replace-IsWithin id lease _ g e refl w;
              delayed = w.delayed;
            }))
      | inr other ↦ rw (e, finish_checkpoint) (rw other w)
    ]
  ]

  pub checkpoint-IsWithin :
      (io : AppendIo) (id : MessageId) (token : LeaseToken) (state : V) (g : Group F T V)
      → IsWithin m g
      → IsWithin m (checkpoint io id token state g).0
  unfolding checkpoint
  checkpoint-IsWithin io id token state g w = elim (Option-cases (get ℕ_discrete id g.leased)) [
    | inl e ↦ rw (e, checkpoint) w
    | inr (lease, e) ↦ elim (Bool-cases (lease.token == token)) [
      | inr other ↦ rw (e, checkpoint) (rw other w)
      | inl is ↦ rw (e, checkpoint) (rw is (written io))
    ]
  ]
    where
      written :
          (io : AppendIo)
          → let (wal, logged) = append io (checkpointed id state) g.wal in
            let g' : Group F T V = record g { wal = wal } in
            let (finished, current) = finish_checkpoint id token state g' in
            IsWithin m
              (elim logged as (λ _. Group F T V × Result Bool) [
                | ok _ ↦ (finished, ok current)
                | failed ↦ (g', failed)
              ]).0
      written synced = finish-IsWithin id token state _ (same-IsWithin m g _ w refl refl refl refl)
      written unsynced = same-IsWithin m g _ w refl refl refl refl
      written torn = same-IsWithin m g _ w refl refl refl refl
      written rejected = same-IsWithin m g _ w refl refl refl refl

  pub publish-IsWithin :
      (id : MessageId) (token : LeaseToken) (content : V) (is_final : Bool) (g : Group F T V)
      → IsWithin m g
      → IsWithin m (publish_partial_result id token content is_final g).0
  unfolding publish_partial_result
  publish-IsWithin id token content is_final g w =
      elim (Option-cases (get ℕ_discrete id g.leased)) [
        | inl e ↦ rw (e, publish_partial_result) w
        | inr (lease, e) ↦ elim (Bool-cases (lease.token == token)) [
          | inl is ↦
              rw (e, publish_partial_result)
                (rw is (record {
                  policy = w.policy;
                  pending = w.pending;
                  leased = replace-IsWithin id lease _ g e refl w;
                  delayed = w.delayed;
                }))
          | inr other ↦ rw (e, publish_partial_result) (rw other w)
        ]
      ]

  either-IsWithin :
      {A : Type 0} (x : Result A) (g : Group F T V)
      → IsWithin m g
      → IsWithin m
          (elim x as (λ _. Group F T V × Result Bool) [
            | failed ↦ (g, failed)
            | ok _ ↦ (g, ok true)
          ]).0
  either-IsWithin failed g w = w
  either-IsWithin (ok _) g w = w

  pub reprocess-IsWithin :
      (dlq_io wal_io : AppendIo) (id : MessageId) (g : Group F T V)
      → 1 ≤ m
      → IsWithin m g
      → IsWithin m (reprocess_dead_letter dlq_io wal_io id g).0
  unfolding reprocess_dead_letter
  reprocess-IsWithin dlq_io wal_io id g some_ w = taken-IsWithin (take_letter dlq_io id g.dlq).1
    where
      g' : Group F T V
      g' = record g { dlq = (take_letter dlq_io id g.dlq).0 }

      taken-IsWithin :
          (x : Result (Option (DeadLetter T V)))
          → IsWithin m
              (elim x as (λ _. Group F T V × Result Bool) [
                | failed ↦ (g', failed)
                | ok none ↦ (g', ok false)
                | ok (some letter) ↦
                    let (g'', written) =
                      write_enqueue_record wal_io letter.id letter.item letter.idempotency_key g' in
                    elim written [ failed ↦ (g'', failed) | ok _ ↦ (g'', ok true) ]
              ]).0
      taken-IsWithin failed = same-IsWithin m g _ w refl refl refl refl
      taken-IsWithin (ok none) = same-IsWithin m g _ w refl refl refl refl
      taken-IsWithin (ok (some letter)) =
          either-IsWithin
            (write_enqueue_record wal_io letter.id letter.item letter.idempotency_key g').1 _
            (write-IsWithin wal_io letter.id letter.item letter.idempotency_key g' some_
              (same-IsWithin m g g' w refl refl refl refl))

  pub purge-IsWithin :
      (io : AppendIo) (id : MessageId) (g : Group F T V)
      → IsWithin m g
      → IsWithin m (purge_dead_letter io id g).0
  unfolding purge_dead_letter
  purge-IsWithin io id g w =
      same-IsWithin m g _ w (ground arith) (ground arith) (ground arith) (ground arith)
