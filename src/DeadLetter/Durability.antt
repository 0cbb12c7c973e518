-- ===== src/DeadLetter/Durability.antt =====
-- The log of a dead-letter queue against its entries.
use mathlib.Core.List.{foldl-append}
use queue_as_a_service.Base.{
  ◌≡◌, refl, ap, ◌∙◌, false, List, [], ◌∷◌, ◌++◌, none, some, arith, ℕ_discrete, get, get-remove,
  Option-cases, inl, inr,
}
use queue_as_a_service.Log.{Log, synced, rejected, failed}
use queue_as_a_service.Types.{MessageId}
use queue_as_a_service.DeadLetter.{
  DeadLetter, TriageVerdict, WalRecord, dead_letter, removed, annotated, DeadLetterQueue, apply,
  replay, open_queue, add_letter, take_letter, annotate, finish_annotate,
}

module _ {T V : Type 0} where
  replay-append :
      (rs : List (WalRecord T V)) (r : WalRecord T V) → replay (rs ++ r ∷ []) ≡ apply (replay rs) r
  unfolding replay
  replay-append rs r = rw foldl-append

  -- No part of a record stands in the log, and replaying it gives the entries.
  pub record IsDurable (q : DeadLetterQueue T V) : Type 0 where
    pub sound : q.wal.spoiled ≡ false
    pub agrees : replay q.wal.records ≡ q.entries

  pub open_queue-IsDurable : (wal : Log (WalRecord T V)) → IsDurable (open_queue wal)
  unfolding open_queue
  open_queue-IsDurable wal = record { sound = refl; agrees = refl }

  pub add_letter-IsDurable :
      (letter : DeadLetter T V) (q : DeadLetterQueue T V)
      → IsDurable q
      → IsDurable (add_letter synced letter q).0
  unfolding add_letter apply
  add_letter-IsDurable letter q d = record {
    sound = d.sound;
    agrees = rw d.sound (
        replay-append q.wal.records (dead_letter letter)
        ∙ ap (λ m. apply m (dead_letter letter)) d.agrees);
  }

  -- Whatever the id, a `take` whose record is written keeps the log and the entries in agreement.
  pub take_letter-IsDurable :
      (id : MessageId) (q : DeadLetterQueue T V)
      → IsDurable q
      → IsDurable (take_letter synced id q).0
  unfolding take_letter apply
  take_letter-IsDurable id q d = elim (Option-cases (get ℕ_discrete id q.entries)) [
    | inl e ↦ rw (e, take_letter) d
    | inr (letter, e) ↦
        rw (e, take_letter)
          (record {
            sound = d.sound;
            agrees = rw d.sound (
                replay-append q.wal.records (removed id) ∙ ap (λ m. apply m (removed id)) d.agrees);
          })
  ]

  -- An annotation whose record is written keeps the log and the entries in agreement.
  pub annotate-IsDurable :
      (id : MessageId) (verdict : TriageVerdict) (q : DeadLetterQueue T V)
      → IsDurable q
      → IsDurable (annotate synced id verdict q).0
  unfolding annotate finish_annotate apply
  annotate-IsDurable id verdict q d = elim (Option-cases (get ℕ_discrete id q.entries)) [
    | inl e ↦ rw (e, annotate) d
    | inr (letter, e) ↦
        let step =
          replay-append q.wal.records (annotated id verdict)
          ∙ ap (λ m. apply m (annotated id verdict)) d.agrees in
        record { sound = ground (arith, e, d.sound); agrees = ground (arith, e, d.sound, step) }
  ]

  -- A letter that is taken while its record cannot be written is gone from memory and is there again
  -- after a restart.
  pub take_letter-rejected :
      (id : MessageId) (letter : DeadLetter T V) (q : DeadLetterQueue T V)
      → IsDurable q
      → get ℕ_discrete id q.entries ≡ some letter
      → (take_letter rejected id q).1 ≡ failed
        × (get ℕ_discrete id (take_letter rejected id q).0.entries ≡ none)
        × (get ℕ_discrete id (open_queue (take_letter rejected id q).0.wal).entries ≡ some letter)
  unfolding take_letter open_queue
  take_letter-rejected id letter q d e = (
    ground (arith, e),
    ground (arith, e, get-remove ℕ_discrete id id q.entries),
    ground (arith, e, d.agrees),
  )
