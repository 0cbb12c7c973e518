-- ===== src/ConsumerGroup/Messages.antt =====
-- The messages of a group, wherever they are: what a message carries through all its deliveries.
use queue_as_a_service.Base.{
  ℕ, ◌+◌, ◌≤◌, ◌≡◌, refl, List, [], ◌∷◌, Option, some, arith, ℕ_discrete, Map, get, remove, total,
  only, has, only-eq-zero,
}
use queue_as_a_service.Types.{MessageId, IdempotencyKey}
use queue_as_a_service.DeadLetter.{DeadLetter}
use queue_as_a_service.ConsumerGroup.State.{Pending, Leased, Delayed, Group}
use queue_as_a_service.ConsumerGroup.Recovery.{remove_pending}

pub record Message (T : Type 0) : Type 0 where
  pub id : MessageId
  pub item : T
  pub idempotency_key : Option IdempotencyKey

module _ {T V : Type 0} where
  abbrev pub of_pending : Pending T V → Message T
  of_pending p = record { id = p.id; item = p.item; idempotency_key = p.idempotency_key }

  abbrev pub of_leased : MessageId × Leased T V → Message T
  of_leased e = record { id = e.0; item = e.1.item; idempotency_key = e.1.idempotency_key }

  abbrev pub of_delayed : Delayed T V → Message T
  of_delayed d = record { id = d.id; item = d.item; idempotency_key = d.idempotency_key }

  abbrev pub of_letter : MessageId × DeadLetter T V → Message T
  of_letter e = record { id = e.0; item = e.1.item; idempotency_key = e.1.idempotency_key }

  -- The sums of a weight over the parts of a group.
  abbrev pub in_pending : (Message T → ℕ) → List (Pending T V) → ℕ
  in_pending w = total (λ p. w (of_pending p))

  abbrev pub in_leased : (Message T → ℕ) → Map MessageId (Leased T V) → ℕ
  in_leased w = total (λ e. w (of_leased e))

  abbrev pub in_delayed : (Message T → ℕ) → List (Delayed T V) → ℕ
  in_delayed w = total (λ d. w (of_delayed d))

  abbrev pub in_letters : (Message T → ℕ) → Map MessageId (DeadLetter T V) → ℕ
  in_letters w = total (λ e. w (of_letter e))

module _ {T : Type 0} where
  abbrev pub only_id : MessageId → (Message T → ℕ) → Message T → ℕ
  only_id = only (λ (m : Message T). m.id)

  abbrev pub has_id : MessageId → Message T → ℕ
  has_id = has (λ (m : Message T). m.id)

module _ {F T V : Type 0} where
  -- Over the messages that are not acknowledged, and over these and the dead letters.
  abbrev pub live : (Message T → ℕ) → Group F T V → ℕ
  live w g = in_pending w g.pending + in_leased w g.leased + in_delayed w g.delayed

  abbrev pub all : (Message T → ℕ) → Group F T V → ℕ
  all w g = live w g + in_letters w g.dlq.entries

  -- No message is in two places.
  abbrev pub IsSingle : Group F T V → Type 0
  IsSingle g = (id : MessageId) → all (has_id id) g ≤ 1

  -- Two groups have the same messages, and the same dead letters taken together.
  abbrev pub SameMessages : Group F T V → Group F T V → Type 0
  SameMessages g h = (w : Message T → ℕ) → all w g ≡ all w h

  pub SameMessages-IsSingle : (g h : Group F T V) → SameMessages g h → IsSingle h → IsSingle g
  SameMessages-IsSingle g h same single id = omega (arith, same (has_id id), single id)

module _ {T V : Type 0} where
  -- Taking a key out of a map takes the weight of its messages.
  pub in_leased-remove :
      (w : Message T → ℕ) (id : MessageId) (m : Map MessageId (Leased T V))
      → in_leased w (remove ℕ_discrete id m) + in_leased (only_id id w) m ≡ in_leased w m
  unfolding remove
  in_leased-remove w id [] = refl
  in_leased-remove w id ((j, l) ∷ m) = ground (arith, in_leased-remove w id m)

  pub in_letters-remove :
      (w : Message T → ℕ) (id : MessageId) (m : Map MessageId (DeadLetter T V))
      → in_letters w (remove ℕ_discrete id m) + in_letters (only_id id w) m ≡ in_letters w m
  unfolding remove
  in_letters-remove w id [] = refl
  in_letters-remove w id ((j, l) ∷ m) = ground (arith, in_letters-remove w id m)

  pub in_leased-remove_self :
      (id : MessageId) (m : Map MessageId (Leased T V))
      → in_leased (has_id id) (remove ℕ_discrete id m) ≡ 0
  unfolding remove
  in_leased-remove_self id [] = refl
  in_leased-remove_self id ((j, l) ∷ m) = ground (arith, in_leased-remove_self id m)

  pub in_letters-remove_self :
      (id : MessageId) (m : Map MessageId (DeadLetter T V))
      → in_letters (has_id id) (remove ℕ_discrete id m) ≡ 0
  unfolding remove
  in_letters-remove_self id [] = refl
  in_letters-remove_self id ((j, l) ∷ m) = ground (arith, in_letters-remove_self id m)

  -- So does taking the first entry with an id out of a list that has at most one.
  pub in_pending-remove_pending :
      (w : Message T → ℕ) (id : MessageId) (ps : List (Pending T V))
      → in_pending (has_id id) ps ≤ 1
      → in_pending w (remove_pending id ps) + in_pending (only_id id w) ps ≡ in_pending w ps
  unfolding remove_pending
  in_pending-remove_pending w id [] h = refl
  in_pending-remove_pending w id (p ∷ ps) h = ground (
    arith,
    in_pending-remove_pending w id ps,
    only-eq-zero (λ (p : Pending T V). p.id) id (λ p. w (of_pending p)) ps,
  )

  -- The one message with an id, found in a map.
  pub in_leased-get :
      (w : Message T → ℕ) (id : MessageId) (l : Leased T V) (m : Map MessageId (Leased T V))
      → in_leased (has_id id) m ≤ 1
      → get ℕ_discrete id m ≡ some l
      → in_leased (only_id id w) m ≡ w (of_leased (id, l))
  unfolding get
  in_leased-get w id l [] h e = cc
  in_leased-get w id l ((j, k) ∷ m) h e = ground (
    arith,
    in_leased-get w id l m,
    only-eq-zero (λ (e : MessageId × Leased T V). e.0) id (λ e. w (of_leased e)) m,
  )

  pub in_letters-get :
      (w : Message T → ℕ) (id : MessageId) (l : DeadLetter T V) (m : Map MessageId (DeadLetter T V))
      → in_letters (has_id id) m ≤ 1
      → get ℕ_discrete id m ≡ some l
      → in_letters (only_id id w) m ≡ w (of_letter (id, l))
  unfolding get
  in_letters-get w id l [] h e = cc
  in_letters-get w id l ((j, k) ∷ m) h e = ground (
    arith,
    in_letters-get w id l m,
    only-eq-zero (λ (e : MessageId × DeadLetter T V). e.0) id (λ e. w (of_letter e)) m,
  )

module _ {F T V : Type 0} where
  -- A leased message is nowhere else.
  pub live-leased :
      (w : Message T → ℕ) (id : MessageId) (l : Leased T V) (g : Group F T V)
      → IsSingle g
      → get ℕ_discrete id g.leased ≡ some l
      → live (only_id id w) g ≡ w (of_leased (id, l))
  live-leased w id l g single e =
      let here = in_leased-get (λ _. 1) id l g.leased (omega (arith, single id)) e in
      omega (
        arith,
        single id,
        here,
        in_leased-get w id l g.leased (omega (arith, single id)) e,
        only-eq-zero (λ (p : Pending T V). p.id) id (λ p. w (of_pending p)) g.pending
            (omega (arith, single id, here)),
        only-eq-zero (λ (d : Delayed T V). d.id) id (λ d. w (of_delayed d)) g.delayed
            (omega (arith, single id, here)),
      )

  -- An id that no message has weighs nothing.
  pub live-absent :
      (w : Message T → ℕ) (id : MessageId) (g : Group F T V)
      → live (has_id id) g ≡ 0
      → live (only_id id w) g ≡ 0
  live-absent w id g h = omega (
    arith,
    only-eq-zero (λ (p : Pending T V). p.id) id (λ p. w (of_pending p)) g.pending (omega arith),
    only-eq-zero (λ (e : MessageId × Leased T V). e.0) id (λ e. w (of_leased e)) g.leased
        (omega arith),
    only-eq-zero (λ (d : Delayed T V). d.id) id (λ d. w (of_delayed d)) g.delayed (omega arith),
  )
