-- ===== src/ConsumerGroup/Claiming.antt =====
-- `claim`, one round of its loop: expired leases are resolved, delayed messages whose time has come are
-- moved, and the first pending message is leased.
use queue_as_a_service.Base.{
  ℕ, ◌+◌, min, List, [], ◌∷◌, ◌++◌, Option, none, some, ite, dec_le, ℕ_discrete, Map, insert, u32,
  u64,
}
use queue_as_a_service.Types.{MessageId, IdempotencyKey, Text}
use queue_as_a_service.Retry.{Float}
use queue_as_a_service.ConsumerGroup.State.{
  Pending, Leased, Delayed, Claim, notify_one, notify_waiters, Group,
}
use queue_as_a_service.ConsumerGroup.Resolve.{Attempt, resolve_failed_delivery}

-- "visibility timeout expired"
abbrev pub timed_out : Text
timed_out =
    b'v' ∷ b'i' ∷ b's' ∷ b'i' ∷ b'b' ∷ b'i' ∷ b'l' ∷ b'i' ∷ b't' ∷ b'y' ∷ b' ' ∷ b't' ∷ b'i' ∷ b'm'
    ∷ b'e' ∷ b'o' ∷ b'u' ∷ b't' ∷ b' ' ∷ b'e' ∷ b'x' ∷ b'p' ∷ b'i' ∷ b'r' ∷ b'e' ∷ b'd' ∷ []

-- The readings of one round.
pub record Round (F : Type 0) : Type 0 where
  pub reclaim_now : ℕ
  pub promote_now : ℕ
  pub lease_now : ℕ
  pub attempts : MessageId → Attempt F

-- What a round ends in: a claim, or a wait with the time of the timer if one is set.
pub data Outcome (T V : Type 0) : Type 0 where
  claimed : Claim T V → Outcome T V
  waits : Option ℕ → Outcome T V

-- The smaller of two times, of which each may be missing.
abbrev pub earliest : Option ℕ → Option ℕ → Option ℕ
earliest none b = b
earliest (some a) none = some a
earliest (some a) (some b) = some (min a b)

module _ {T V : Type 0} where
  unfoldable pub expired : ℕ → Map MessageId (Leased T V) → Map MessageId (Leased T V)
  expired now [] = []
  expired now ((id, l) ∷ ls) =
      ite (dec_le l.expires_at now) ((id, l) ∷ expired now ls) (expired now ls)

  unfoldable pub unexpired : ℕ → Map MessageId (Leased T V) → Map MessageId (Leased T V)
  unexpired now [] = []
  unexpired now ((id, l) ∷ ls) =
      ite (dec_le l.expires_at now) (unexpired now ls) ((id, l) ∷ unexpired now ls)

  abbrev pub promoted : Delayed T V → Pending T V
  promoted d = record {
    id = d.id;
    item = d.item;
    delivery_count = d.delivery_count;
    idempotency_key = d.idempotency_key;
    checkpoint = d.checkpoint;
  }

  unfoldable pub ready : ℕ → List (Delayed T V) → List (Pending T V)
  ready now [] = []
  ready now (d ∷ ds) = ite (dec_le d.available_at now) (promoted d ∷ ready now ds) (ready now ds)

  unfoldable pub still_delayed : ℕ → List (Delayed T V) → List (Delayed T V)
  still_delayed now [] = []
  still_delayed now (d ∷ ds) =
      ite (dec_le d.available_at now) (still_delayed now ds) (d ∷ still_delayed now ds)

  unfoldable pub first_expiry : Map MessageId (Leased T V) → Option ℕ
  first_expiry [] = none
  first_expiry ((id, l) ∷ ls) = earliest (some l.expires_at) (first_expiry ls)

  unfoldable pub first_retry : List (Delayed T V) → Option ℕ
  first_retry [] = none
  first_retry (d ∷ ds) = earliest (some d.available_at) (first_retry ds)

-- The key of the producer, or the text of the id, which `to_text` gives and which is never empty.
unfoldable pub effective_idempotency_key :
    (MessageId → Text) → MessageId → Option IdempotencyKey → IdempotencyKey
effective_idempotency_key to_text id none = record { text = to_text id }
effective_idempotency_key to_text id (some key) = key

module _ {F T V : Type 0} where
  unfoldable pub promote_ready_delayed : ℕ → Group F T V → Group F T V
  promote_ready_delayed now g = record g {
    pending = g.pending ++ ready now g.delayed;
    delayed = still_delayed now g.delayed;
  }

  unfoldable pub earliest_wake : Group F T V → Option ℕ
  earliest_wake g = earliest (first_expiry g.leased) (first_retry g.delayed)

  abbrev pub lease_of : ℕ → Group F T V → Pending T V → Leased T V
  lease_of now g p = record {
    item = p.item;
    token = g.next_lease_token;
    expires_at = now + g.visibility_timeout;
    delivery_count = u32 (p.delivery_count + 1);
    idempotency_key = p.idempotency_key;
    checkpoint = p.checkpoint;
    stream = [];
  }

  -- The part of the round under the lock: the first pending message is leased, if there is one.
  unfoldable pub lease_first : (MessageId → Text) → ℕ → Group F T V → Group F T V × Outcome T V
  unfolding effective_idempotency_key
  lease_first to_text now g = elim g.pending [
    | [] ↦ (g, waits (earliest_wake g))
    | p ∷ ps ↦ (
      record g {
        pending = ps;
        leased = insert ℕ_discrete p.id (lease_of now g p) g.leased;
        next_lease_token = u64 (g.next_lease_token + 1);
        signals = notify_one ∷ g.signals;
      },
      claimed (record {
        id = p.id;
        token = g.next_lease_token;
        idempotency_key = effective_idempotency_key to_text p.id p.idempotency_key;
        item = p.item;
        delivery_count = u32 (p.delivery_count + 1);
        checkpoint = p.checkpoint;
      }),
    )
  ]

module _ {F T V : Type 0} (float : Float F) where
  -- An error is logged only, so the result is dropped.
  unfoldable pub resolve_expired :
      (MessageId → Attempt F) → Map MessageId (Leased T V) → Group F T V → Group F T V
  resolve_expired attempts [] g = g
  resolve_expired attempts ((id, lease) ∷ ls) g =
      resolve_expired attempts ls
        (resolve_failed_delivery float (attempts id) (some timed_out) id lease g).0

  unfoldable pub reclaim_expired_leases : ℕ → (MessageId → Attempt F) → Group F T V → Group F T V
  reclaim_expired_leases now attempts g = elim (expired now g.leased) [
    | [] ↦ g
    | l ∷ ls ↦
        let g' = resolve_expired attempts (l ∷ ls) (record g { leased = unexpired now g.leased }) in
        record g' { signals = notify_waiters ∷ g'.signals }
  ]

  unfoldable pub claim_round :
      (MessageId → Text) → Round F → Group F T V → Group F T V × Outcome T V
  unfolding lease_first
  claim_round to_text round g = lease_first to_text round.lease_now (
      promote_ready_delayed round.promote_now
        (reclaim_expired_leases round.reclaim_now round.attempts g))
