-- ===== src/ConsumerGroup/Deduplication.antt =====
-- One message for each key, whatever runs at once.
use mathlib.Core.Path.{subst}
use queue_as_a_service.Base.{
  ℕ, ◌+◌, ◌≤◌, ◌≡◌, refl, [], ◌∷◌, ◌++◌, Option, none, some, arith, ℕ_discrete, Map, get, remove,
  ite, get-remove, get-insert, Option-cases, Bool-cases, inl, inr, ◌⊎◌, ◌==◌, total, total-append,
  take_nth, total-take_nth,
}
use queue_as_a_service.Log.{AppendIo}
use queue_as_a_service.Types.{MessageId, IdempotencyKey, IdempotencyKey-discrete}
use queue_as_a_service.DeadLetter.{DeadLetter}
use queue_as_a_service.ConsumerGroup.State.{Leased, LeaseToken, Group, Pending}
use queue_as_a_service.ConsumerGroup.Recovery.{release_key, claim_key}
use queue_as_a_service.ConsumerGroup.Messages.{
  Message, of_pending, of_leased, of_letter, in_pending, in_leased, in_letters, has_id, all,
  SameMessages, in_leased-remove, in_leased-get, in_letters-remove, in_letters-get,
}
use queue_as_a_service.ConsumerGroup.Enqueue.{new_pending}
use queue_as_a_service.ConsumerGroup.Keyed.{IsKept}
use queue_as_a_service.ConsumerGroup.Racing.{
  Progress, reserved, written, unwritten, Racing, everything, begin_enqueue, write_enqueue,
  finish_enqueue, begin_ack,
}

-- How often a message counts for a key.
abbrev pub weight : Option IdempotencyKey → IdempotencyKey → ℕ
weight none k = 0
weight (some j) k = ite (IdempotencyKey-discrete j k) 1 0

abbrev pub keyed : {T : Type 0} → IdempotencyKey → Message T → ℕ
keyed k m = weight m.idempotency_key k

abbrev pub slot : Option MessageId → ℕ
slot none = 0
slot (some id) = 1

-- A key that is registered has one message at most, in the group or in flight, and one that is not has none.
pub record IsDeduplicated {F T V : Type 0} (s : Racing F T V) : Type 0 where
  pub single : (id : MessageId) → everything (has_id id) s ≤ 1
  pub kept : IsKept s.group.dlq
  pub one :
      (k : IdempotencyKey)
      → everything (keyed k) s ≤ slot (get IdempotencyKey-discrete k s.group.dedup)

pub slot-le : (o : Option MessageId) → slot o ≤ 1
slot-le none = omega arith
slot-le (some id) = omega arith

-- A message leaves with its key.
pub release_slot :
    (key : Option IdempotencyKey) (dedup : Map IdempotencyKey MessageId) (k : IdempotencyKey)
    (n : ℕ)
    → weight key k + n ≤ slot (get IdempotencyKey-discrete k dedup)
    → n ≤ slot (get IdempotencyKey-discrete k (release_key key dedup))
release_slot none dedup k n h = omega arith
release_slot (some j) dedup k n h = ground (
  arith,
  h,
  slot-le (get IdempotencyKey-discrete k dedup),
  get-remove IdempotencyKey-discrete j k dedup,
)

-- A message comes with its key.
claim_slot :
    (key : Option IdempotencyKey) (id : MessageId) (dedup : Map IdempotencyKey MessageId)
    (k : IdempotencyKey) (n : ℕ)
    → ((j : IdempotencyKey) → key ≡ some j → get IdempotencyKey-discrete j dedup ≡ none)
    → n ≤ slot (get IdempotencyKey-discrete k dedup)
    → weight key k + n ≤ slot (get IdempotencyKey-discrete k (claim_key key id dedup))
claim_slot none id dedup k n unknown h = omega arith
claim_slot (some j) id dedup k n unknown h =
    let free : j ≡ k → get IdempotencyKey-discrete k dedup ≡ none =
      λ e. subst (λ i. get IdempotencyKey-discrete i dedup ≡ none) e (unknown j refl) in
    ground (arith, h, free, get-insert IdempotencyKey-discrete j k id dedup)

Progress-cases : (p : Progress) → (p ≡ reserved) ⊎ (p ≡ written) ⊎ (p ≡ unwritten)
Progress-cases reserved = inl refl
Progress-cases written = inr (inl refl)
Progress-cases unwritten = inr (inr refl)

module _ {T V : Type 0} where
  leased-remove :
      (w : Message T → ℕ) (id : MessageId) (lease : Leased T V) (m : Map MessageId (Leased T V))
      → in_leased (has_id id) m ≤ 1
      → get ℕ_discrete id m ≡ some lease
      → in_leased w (remove ℕ_discrete id m) + w (of_leased (id, lease)) ≡ in_leased w m
  leased-remove w id lease m h e =
      omega (arith, in_leased-remove w id m, in_leased-get w id lease m h e)

  pub letters-remove :
      (w : Message T → ℕ) (id : MessageId) (letter : DeadLetter T V)
      (m : Map MessageId (DeadLetter T V))
      → in_letters (has_id id) m ≤ 1
      → get ℕ_discrete id m ≡ some letter
      → in_letters w (remove ℕ_discrete id m) + w (of_letter (id, letter)) ≡ in_letters w m
  letters-remove w id letter m h e =
      omega (arith, in_letters-remove w id m, in_letters-get w id letter m h e)

module _ {F T V : Type 0} where
  added :
      (w : Message T → ℕ) (g : Group F T V) (m : Message T)
      → in_pending w (g.pending ++ new_pending m.id m.item m.idempotency_key ∷ [])
        ≡ in_pending w g.pending + w m
  added w g m = omega (
    arith,
    total-append (λ (p : Pending T V). w (of_pending p)) g.pending
        (new_pending m.id m.item m.idempotency_key ∷ []),
  )

  -- A call that only moves messages.
  pub moved :
      (s : Racing F T V) (h : Group F T V)
      → SameMessages h s.group
      → h.dedup ≡ s.group.dedup
      → IsKept h.dlq
      → IsDeduplicated s
      → IsDeduplicated (record s { group = h })
  moved s h same dedup kept d = record {
    single = λ id. omega (arith, d.single id, same (has_id id));
    kept = kept;
    one = λ k. rw dedup (omega (arith, d.one k, same (keyed k)));
  }

  pub single-group :
      (s : Racing F T V) → IsDeduplicated s → (id : MessageId) → all (has_id id) s.group ≤ 1
  single-group s d id = omega (arith, d.single id)

  pub began :
      (id : MessageId) (item : T) (key : Option IdempotencyKey) (progress : Progress)
      (s : Racing F T V)
      → everything (has_id id) s ≡ 0
      → ((j : IdempotencyKey) → key ≡ some j → get IdempotencyKey-discrete j s.group.dedup ≡ none)
      → IsDeduplicated s
      → IsDeduplicated (record s {
        group = record s.group { dedup = claim_key key id s.group.dedup };
        enqueues =
            record {
              message = record { id = id; item = item; idempotency_key = key };
              progress = progress;
            }
            ∷ s.enqueues;
      })
  began id item key progress s fresh unknown d = record {
    single = λ i.
        let none_yet : id ≡ i → everything (has_id i) s ≡ 0 =
          λ e. subst (λ j. everything (has_id j) s ≡ 0) e fresh in
        ground (arith, d.single i, none_yet);
    kept = d.kept;
    one = λ k.
        omega (arith, claim_slot key id s.group.dedup k (everything (keyed k) s) unknown (d.one k));
  }

  pub begin_enqueue-IsDeduplicated :
      (id : MessageId) (item : T) (key : Option IdempotencyKey) (s : Racing F T V)
      → everything (has_id id) s ≡ 0
      → IsDeduplicated s
      → IsDeduplicated (begin_enqueue id item key s).0
  unfolding begin_enqueue
  begin_enqueue-IsDeduplicated id item none s fresh d =
      began id item none reserved s fresh (λ j e. absurd (ground (arith, e))) d
  begin_enqueue-IsDeduplicated id item (some k) s fresh d =
      elim (Option-cases (get IdempotencyKey-discrete k s.group.dedup)) [
        | inr (existing, e) ↦ rw (begin_enqueue, e) d
        | inl e ↦
            let unknown : (j : IdempotencyKey)
                → some k ≡ some j
                → get IdempotencyKey-discrete j s.group.dedup ≡ none =
              λ j h. ground (arith, e, h) in
            rw (begin_enqueue, e) (began id item (some k) reserved s fresh unknown d)
      ]

  pub write_enqueue-IsDeduplicated :
      (io : AppendIo) (n : ℕ) (s : Racing F T V)
      → IsDeduplicated s
      → IsDeduplicated (write_enqueue io n s)
  unfolding write_enqueue
  write_enqueue-IsDeduplicated io n s d = elim (Option-cases (take_nth n s.enqueues)) [
    | inl e ↦ rw (write_enqueue, e) d
    | inr ((call, rest), e) ↦ elim (Progress-cases call.progress) [
      | inr done ↦ rw (write_enqueue, e) (elim done [ inl e' ↦ rw e' d | inr e' ↦ rw e' d ])
      | inl e' ↦
          rw (write_enqueue, e, e')
            (record {
              single = λ i. omega (
                arith,
                d.single i,
                total-take_nth (λ c. has_id i c.message) n s.enqueues call rest e,
              );
              kept = d.kept;
              one = λ k. omega (
                arith,
                d.one k,
                total-take_nth (λ c. keyed k c.message) n s.enqueues call rest e,
              );
            })
    ]
  ]

  pub finish_enqueue-IsDeduplicated :
      (n : ℕ) (s : Racing F T V) → IsDeduplicated s → IsDeduplicated (finish_enqueue n s).0
  unfolding finish_enqueue
  finish_enqueue-IsDeduplicated n s d = elim (Option-cases (take_nth n s.enqueues)) [
    | inl e ↦ rw (finish_enqueue, e) d
    | inr ((call, rest), e) ↦ elim (Progress-cases call.progress) [
      | inl e' ↦ rw (finish_enqueue, e, e') d
      | inr (inl e') ↦
          rw (finish_enqueue, e, e')
            (record {
              single = λ i. omega (
                arith,
                d.single i,
                total-take_nth (λ c. has_id i c.message) n s.enqueues call rest e,
                added (has_id i) s.group call.message,
              );
              kept = d.kept;
              one = λ k. omega (
                arith,
                d.one k,
                total-take_nth (λ c. keyed k c.message) n s.enqueues call rest e,
                added (keyed k) s.group call.message,
              );
            })
      | inr (inr e') ↦
          rw (finish_enqueue, e, e')
            (record {
              single = λ i. omega (
                arith,
                d.single i,
                total-take_nth (λ c. has_id i c.message) n s.enqueues call rest e,
              );
              kept = d.kept;
              one = λ k.
                  release_slot call.message.idempotency_key s.group.dedup k
                    (all (keyed k) s.group + total (λ c. keyed k c.message) rest)
                    (omega (
                      arith,
                      d.one k,
                      total-take_nth (λ c. keyed k c.message) n s.enqueues call rest e,
                    ));
            })
    ]
  ]

  pub begin_ack-IsDeduplicated :
      (id : MessageId) (token : LeaseToken) (s : Racing F T V)
      → IsDeduplicated s
      → IsDeduplicated (begin_ack id token s).0
  unfolding begin_ack
  begin_ack-IsDeduplicated id token s d = elim (Option-cases (get ℕ_discrete id s.group.leased)) [
    | inl e ↦ rw (begin_ack, e) d
    | inr (lease, e) ↦ elim (Bool-cases (lease.token == token)) [
      | inr stale ↦ rw (begin_ack, e, stale) d
      | inl current ↦
          rw (begin_ack, e, current)
            (let less = λ (w : Message T → ℕ).
                leased-remove w id lease s.group.leased (omega (arith, d.single id)) e in
              record {
                single = λ i. omega (arith, d.single i, less (has_id i));
                kept = d.kept;
                one = λ k.
                    release_slot lease.idempotency_key s.group.dedup k
                      (all (keyed k)
                          (record s.group { leased = remove ℕ_discrete id s.group.leased })
                        + total (λ c. keyed k c.message) s.enqueues)
                      (omega (arith, d.one k, less (keyed k)));
              })
    ]
  ]
