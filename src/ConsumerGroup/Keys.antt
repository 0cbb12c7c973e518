-- ===== src/ConsumerGroup/Keys.antt =====
-- Idempotency keys: `enqueue_with_key` called again, failed, and after a restart.
use mathlib.Core.List.{foldl, foldl-append}
use mathlib.Core.Path.{subst}
use queue_as_a_service.Base.{
  ℕ, ◌≡◌, refl, sym, ap, ◌∙◌, false, List, [], ◌∷◌, ◌++◌, Option, none, some, arith, Map, get,
  insert, get-insert, get-remove, ℕ_discrete, All, All-append, All-ite, All-imp, ite, if_pos,
  if_neg, Option-cases, inl, inr,
}
use queue_as_a_service.Log.{Log, AppendIo, ok, failed}
use queue_as_a_service.Types.{MessageId, IdempotencyKey, IdempotencyKey-discrete}
use queue_as_a_service.Retry.{RetryPolicy}
use queue_as_a_service.DeadLetter
use queue_as_a_service.DeadLetter.{open_queue, ids_and_keys}
use queue_as_a_service.ConsumerGroup.State.{
  WalRecord, enqueued, acked, dead_lettered, checkpointed, Pending, Group,
}
use queue_as_a_service.ConsumerGroup.Recovery.{
  Replay, start, replay, apply, find_pending, remove_pending, claim_key, release_key, open_group,
  seed_dedup,
}
use queue_as_a_service.ConsumerGroup.Enqueue.{
  write_enqueue_record, enqueue_with_id_and_key, enqueue_with_key,
}

module _ {F T V : Type 0} where
  -- A second enqueue with a key gives the id of the first, and changes nothing, whatever it carries.
  pub enqueue_with_key_twice :
      (io io' : AppendIo) (id id' found : MessageId) (item item' : T) (key : IdempotencyKey)
      (g : Group F T V)
      → (enqueue_with_key io id item key g).1 ≡ ok found
      → enqueue_with_key io' id' item' key (enqueue_with_key io id item key g).0
        ≡ ((enqueue_with_key io id item key g).0, ok found)
  unfolding enqueue_with_key enqueue_with_id_and_key write_enqueue_record
  enqueue_with_key_twice io io' id id' found item item' key g h =
      elim (Option-cases (get IdempotencyKey-discrete key g.dedup)) [
        | inl e ↦ ground (arith, e, h, get-insert IdempotencyKey-discrete key key id g.dedup)
        | inr (existing, e) ↦ ground (arith, e, h)
      ]

  -- An enqueue that fails, or an acknowledged message, leaves its key free.
  pub enqueue_with_key_failed :
      (io : AppendIo) (id : MessageId) (item : T) (key : IdempotencyKey) (g : Group F T V)
      → (enqueue_with_key io id item key g).1 ≡ failed
      → (get IdempotencyKey-discrete key (enqueue_with_key io id item key g).0.dedup ≡ none)
        × ((enqueue_with_key io id item key g).0.pending ≡ g.pending)
  unfolding enqueue_with_key enqueue_with_id_and_key write_enqueue_record
  enqueue_with_key_failed io id item key g h =
      elim (Option-cases (get IdempotencyKey-discrete key g.dedup)) [
        | inl e ↦ (
          ground (
            arith,
            e,
            h,
            get-remove IdempotencyKey-discrete key key
                (insert IdempotencyKey-discrete key id g.dedup),
          ),
          ground (arith, e, h),
        )
        | inr (existing, e) ↦ (ground (arith, e, h), ground (arith, e, h))
      ]

-- A record that neither enqueues with the key nor acknowledges the message.
abbrev pub IsQuiet : {T V : Type 0} → MessageId → IdempotencyKey → WalRecord T V → Type 0
IsQuiet id key (enqueued id' key' item) = ¬ (key' ≡ some key)
IsQuiet id key (acked id') = ¬ (id' ≡ id)
IsQuiet id key (dead_lettered id') = Unit
IsQuiet id key (checkpointed id' state) = Unit

module _ (key : IdempotencyKey) where
  claim_other :
      (key' : Option IdempotencyKey) (j : MessageId) (dedup : Map IdempotencyKey MessageId)
      → ¬ (key' ≡ some key)
      → get IdempotencyKey-discrete key (claim_key key' j dedup)
        ≡ get IdempotencyKey-discrete key dedup
  claim_other none j dedup other = refl
  claim_other (some k) j dedup other =
      get-insert IdempotencyKey-discrete k key j dedup
      ∙ if_neg (IdempotencyKey-discrete k key) (λ e. other (ap some e)) _ _

  release_other :
      (key' : Option IdempotencyKey) (dedup : Map IdempotencyKey MessageId)
      → ¬ (key' ≡ some key)
      → get IdempotencyKey-discrete key (release_key key' dedup)
        ≡ get IdempotencyKey-discrete key dedup
  release_other none dedup other = refl
  release_other (some k) dedup other =
      get-remove IdempotencyKey-discrete k key dedup
      ∙ if_neg (IdempotencyKey-discrete k key) (λ e. other (ap some e)) _ _

module _ {T V : Type 0} (id : MessageId) (key : IdempotencyKey) where
  -- The key stands for the message, and no other pending message has it.
  abbrev IsKnown : Replay T V → Type 0
  IsKnown r =
      (get IdempotencyKey-discrete key r.dedup ≡ some id)
      × All (λ p. p.idempotency_key ≡ some key → p.id ≡ id) r.pending

  find_pending-All :
      (P : Pending T V → Type 0) (j : MessageId) (ps : List (Pending T V)) (entry : Pending T V)
      → All P ps
      → find_pending j ps ≡ some entry
      → P entry × (entry.id ≡ j)
  unfolding find_pending
  find_pending-All P j [] entry h e = absurd (ground (arith, e))
  find_pending-All P j (p ∷ ps) entry (h, hs) e =
      go (ℕ_discrete p.id j) e (find_pending-All P j ps entry hs)
    where
      go :
          (d : Dec (p.id ≡ j))
          → ite d (some p) (find_pending j ps) ≡ some entry
          → (find_pending j ps ≡ some entry → P entry × (entry.id ≡ j))
          → P entry × (entry.id ≡ j)
      go (yes is) same rest =
          let one : p ≡ entry = ground (arith, same) in
          (subst P one h, ap (λ x. x.id) (sym one) ∙ is)
      go (no _) same rest = rest same

  remove_pending-All :
      (P : Pending T V → Type 0) (j : MessageId) (ps : List (Pending T V))
      → All P ps
      → All P (remove_pending j ps)
  unfolding remove_pending
  remove_pending-All P j [] h = tt
  remove_pending-All P j (p ∷ ps) (h, hs) =
      All-ite P (ℕ_discrete p.id j) _ _ hs (h, remove_pending-All P j ps hs)

  apply-IsKnown :
      (r : Replay T V) (entry : WalRecord T V)
      → IsQuiet id key entry
      → IsKnown r
      → IsKnown (apply r entry)
  unfolding apply
  apply-IsKnown r (enqueued j key' item) other (known, only) = (
    claim_other key key' j r.dedup other ∙ known,
    All-append _ r.pending _ only ((λ e. absurd (other e)), tt),
  )
  apply-IsKnown r (acked j) other (known, only) = elim (Option-cases (find_pending j r.pending)) [
    | inl e ↦ rw (e, apply) (known, only)
    | inr (entry, e) ↦
        let (mine, named) = find_pending-All _ j r.pending entry only e in
        rw (e, apply)
          (
            release_other key entry.idempotency_key r.dedup (λ has. other (sym named ∙ mine has))
                ∙ known,
            remove_pending-All _ j r.pending only,
          )
  ]
  apply-IsKnown r (dead_lettered j) other (known, only) =
      (known, remove_pending-All _ j r.pending only)
  apply-IsKnown r (checkpointed j state) other known = known

  replay-IsKnown :
      (rs : List (WalRecord T V)) (r : Replay T V)
      → All (IsQuiet id key) rs
      → IsKnown r
      → IsKnown (foldl apply r rs)
  replay-IsKnown [] r h known = known
  replay-IsKnown (entry ∷ rs) r (h, hs) known =
      replay-IsKnown rs (apply r entry) hs (apply-IsKnown r entry h known)

  enqueued-IsKnown :
      (item : T) (r : Replay T V)
      → All (λ p. ¬ (p.idempotency_key ≡ some key)) r.pending
      → IsKnown (apply r (enqueued id (some key) item))
  unfolding apply
  enqueued-IsKnown item r free = (
    get-insert IdempotencyKey-discrete key key id r.dedup
        ∙ if_pos (IdempotencyKey-discrete key key) refl _ _,
    All-append _ r.pending _ (All-imp _ _ r.pending (λ p no_key has. absurd (no_key has)) free)
        ((λ _. refl), tt),
  )

module _ {F T V : Type 0} where
  -- After a restart the key of a message that was given up and purged still stands for it: if the log has an
  -- enqueue of the message with the key, when no pending message had the key, and behind it a record that the
  -- message was given up, and otherwise nothing that acknowledges the message or enqueues with the key, and if
  -- the dead-letter log holds no letter any more, then an enqueue with the key returns the id of that message
  -- and enqueues nothing.
  pub enqueue_with_key_purged :
      (rs between later : List (WalRecord T V)) (dlq_wal : Log (DeadLetter.WalRecord T V))
      (timeout : ℕ) (policy : RetryPolicy F) (io : AppendIo) (id id' : MessageId) (item item' : T)
      (key : IdempotencyKey)
      → All (λ p. ¬ (p.idempotency_key ≡ some key)) (replay rs).pending
      → All (IsQuiet id key) between
      → All (IsQuiet id key) later
      → DeadLetter.replay dlq_wal.records ≡ []
      → let wal : Log (WalRecord T V) = record {
        records = rs ++ enqueued id (some key) item ∷ (between ++ dead_lettered id ∷ later);
        spoiled = false;
      } in
        let g : Group F T V = open_group wal dlq_wal timeout policy in
        enqueue_with_key io id' item' key g ≡ (g, ok id)
  unfolding enqueue_with_key enqueue_with_id_and_key open_group open_queue ids_and_keys seed_dedup
      replay
  enqueue_with_key_purged rs between later dlq_wal timeout policy io id id' item item' key free
        quiet quiet' purged =
      let rest = between ++ dead_lettered id ∷ later in
      let quiet_rest : All (IsQuiet id key) rest = All-append _ between _ quiet (tt, quiet') in
      let known =
        replay-IsKnown id key rest (apply (foldl apply start rs) (enqueued id (some key) item))
          quiet_rest (enqueued-IsKnown id key item (foldl apply start rs) free) in
      let whole : get IdempotencyKey-discrete key
            (foldl apply start (rs ++ enqueued id (some key) item ∷ rest)).dedup
          ≡ some id =
        rw foldl-append known.0 in
      ground (arith, purged, whole)
