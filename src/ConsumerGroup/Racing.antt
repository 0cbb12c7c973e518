-- ===== src/ConsumerGroup/Racing.antt =====
-- Calls of crates/qaas-core/src/consumer_group.rs that run at once: `enqueue_with_id_and_key` and `ack` give up the
-- lock while their record is written, so each is cut here into what it does under the lock and the write.
use queue_as_a_service.Base.{
  ℕ, ◌+◌, Bool, true, false, List, [], ◌∷◌, ◌++◌, Option, none, some, ℕ_discrete, get, remove,
  if◌then◌else◌, ◌==◌, total, take_nth,
}
use queue_as_a_service.Log.{AppendIo, Result, ok, failed, append}
use queue_as_a_service.Types.{MessageId, IdempotencyKey, IdempotencyKey-discrete}
use queue_as_a_service.ConsumerGroup.State.{enqueued, acked, notify_one, LeaseToken, Group}
use queue_as_a_service.ConsumerGroup.Recovery.{release_key, claim_key}
use queue_as_a_service.ConsumerGroup.Enqueue.{new_pending}
use queue_as_a_service.ConsumerGroup.Messages.{Message, all}

-- An enqueue in flight: before its record is written, and after the write succeeded or failed.
pub data Progress : Type 0 where
  reserved written unwritten : Progress

pub record InFlight (T : Type 0) : Type 0 where
  pub message : Message T
  pub progress : Progress

-- A group with the enqueues and the acks in flight.
pub record Racing (F T V : Type 0) : Type 0 where
  pub group : Group F T V
  pub enqueues : List (InFlight T)
  pub acks : List MessageId

module _ {F T V : Type 0} where
  -- No call in flight.
  abbrev pub alone : Group F T V → Racing F T V
  alone g = record { group = g; enqueues = []; acks = [] }

  -- The messages of the group and of the enqueues in flight.
  abbrev pub everything : (Message T → ℕ) → Racing F T V → ℕ
  everything w s = all w s.group + total (λ c. w c.message) s.enqueues

  -- The key is looked up and reserved; where it is known the call is answered at once.
  unfoldable pub begin_enqueue :
      MessageId → T → Option IdempotencyKey → Racing F T V → Racing F T V × Option MessageId
  begin_enqueue id item key s =
      let call : InFlight T = record {
        message = record { id = id; item = item; idempotency_key = key };
        progress = reserved;
      } in
      let known : Option MessageId = elim key [
        | none ↦ none
        | some k ↦ get IdempotencyKey-discrete k s.group.dedup
      ] in
      elim known [
        | some existing ↦ (s, some existing)
        | none ↦ (
          record s {
            group = record s.group { dedup = claim_key key id s.group.dedup };
            enqueues = call ∷ s.enqueues;
          },
          none,
        )
      ]

  -- The write of the n-th call in flight.
  unfoldable pub write_enqueue : AppendIo → ℕ → Racing F T V → Racing F T V
  write_enqueue io n s = elim (take_nth n s.enqueues) [
    | none ↦ s
    | some (call, rest) ↦
        let m = call.message in
        let (wal, logged) = append io (enqueued m.id m.idempotency_key m.item) s.group.wal in
        let result : Progress = elim logged [ ok _ ↦ written | failed ↦ unwritten ] in
        elim call.progress [
          | reserved ↦ record s {
            group = record s.group { wal = wal };
            enqueues = record call { progress = result } ∷ rest;
          }
          | written ↦ s
          | unwritten ↦ s
        ]
  ]

  -- The end of the n-th call, under the lock taken again.
  unfoldable pub finish_enqueue : ℕ → Racing F T V → Racing F T V × Option (Result MessageId)
  finish_enqueue n s = elim (take_nth n s.enqueues) [
    | none ↦ (s, none)
    | some (call, rest) ↦
        let m = call.message in
        elim call.progress [
          | reserved ↦ (s, none)
          | written ↦ (
            record s {
              group = record s.group {
                pending = s.group.pending ++ new_pending m.id m.item m.idempotency_key ∷ [];
                signals = notify_one ∷ s.group.signals;
              };
              enqueues = rest;
            },
            some (ok m.id),
          )
          | unwritten ↦ (
            record s {
              group = record s.group { dedup = release_key m.idempotency_key s.group.dedup };
              enqueues = rest;
            },
            some failed,
          )
        ]
  ]

  -- The lease and the key are given up before the record is written.
  unfoldable pub begin_ack : MessageId → LeaseToken → Racing F T V → Racing F T V × Bool
  begin_ack id token s = elim (get ℕ_discrete id s.group.leased) [
    | none ↦ (s, false)
    | some lease ↦
        let g : Group F T V = record s.group {
          leased = remove ℕ_discrete id s.group.leased;
          dedup = release_key lease.idempotency_key s.group.dedup;
        } in
        if lease.token == token
        then (record s { group = g; acks = id ∷ s.acks }, true)
        else (s, false)
  ]

  unfoldable pub write_ack : AppendIo → ℕ → Racing F T V → Racing F T V × Option (Result Bool)
  write_ack io n s = elim (take_nth n s.acks) [
    | none ↦ (s, none)
    | some (id, rest) ↦
        let (wal, logged) = append io (acked id) s.group.wal in
        let result : Result Bool = elim logged [ ok _ ↦ ok true | failed ↦ failed ] in
        (record s { group = record s.group { wal = wal }; acks = rest }, some result)
  ]
