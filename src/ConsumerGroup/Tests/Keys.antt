-- ===== src/ConsumerGroup/Tests/Keys.antt =====
-- Idempotency keys on concrete inputs.
use queue_as_a_service.Base.{
  ℕ, ◌≡◌, arith, All, List, ◌++◌, refl, false, [], ◌∷◌, none, some, ℕ_discrete, get, remove, insert,
}
use queue_as_a_service.Log.{Log, synced, rejected, ok, failed}
use queue_as_a_service.DeadLetter
use queue_as_a_service.DeadLetter.{DeadLetter}
use queue_as_a_service.ConsumerGroup.State.{WalRecord, enqueued, acked, dead_lettered}
use queue_as_a_service.ConsumerGroup.Recovery.{open_group, replay, attach, seed_dedup}
use queue_as_a_service.ConsumerGroup.Enqueue.{
  enqueue_with_key, enqueue_with_id_and_key, write_enqueue_record,
}
use queue_as_a_service.ConsumerGroup.Keys.{IsQuiet, enqueue_with_key_purged}
use queue_as_a_service.ConsumerGroup.Restart.{fresh_group}
use queue_as_a_service.ConsumerGroup.Tests.{key, opened, policy}

enqueues_first : (enqueue_with_key synced 1 5 key opened).1 ≡ ok 1
unfolding enqueue_with_key enqueue_with_id_and_key write_enqueue_record fresh_group open_group
    attach replay DeadLetter.open_queue DeadLetter.replay DeadLetter.ids_and_keys seed_dedup get
enqueues_first = refl

fails_first : (enqueue_with_key rejected 1 5 key opened).1 ≡ failed
unfolding enqueue_with_key enqueue_with_id_and_key write_enqueue_record fresh_group open_group
    attach replay DeadLetter.open_queue DeadLetter.replay DeadLetter.ids_and_keys seed_dedup get
fails_first = refl

-- A letter that was purged.
abbrev letter : DeadLetter ℕ ℕ
letter = record {
  id = 1;
  idempotency_key = some key;
  item = 5;
  delivery_count = 1;
  last_error = none;
  dead_lettered_at = 1020;
  checkpoint = none;
  triage = none;
}

abbrev purged : Log (DeadLetter.WalRecord ℕ ℕ)
purged = record {
  records = DeadLetter.dead_letter letter ∷ DeadLetter.removed 1 ∷ [];
  spoiled = false;
}

purged_empty : DeadLetter.replay purged.records ≡ []
unfolding DeadLetter.replay DeadLetter.apply insert remove ℕ_discrete
purged_empty = refl

-- Behind the message another one with a key of its own, which is acknowledged later.
abbrev between : List (WalRecord ℕ ℕ)
between = enqueued 7 (some (record { text = 111 ∷ [] })) 8 ∷ []

abbrev wal : Log (WalRecord ℕ ℕ)
wal = record {
  records = enqueued 1 (some key) 5 ∷ (between ++ dead_lettered 1 ∷ acked 7 ∷ []);
  spoiled = false;
}

quiet : All (IsQuiet 1 key) between
quiet = (λ e. ground (arith, e), tt)

free : All (λ p. ¬ (p.idempotency_key ≡ some key)) (replay {T = ℕ} {V = ℕ} []).pending
unfolding replay
free = tt

enqueue_with_key_purged_example :
    enqueue_with_key synced 2 6 key (open_group wal purged 30 policy)
    ≡ (open_group wal purged 30 policy, ok 1)
enqueue_with_key_purged_example =
    enqueue_with_key_purged [] between (acked 7 ∷ []) purged 30 policy synced 1 2 5 6 key free quiet
      ((λ e. ground (arith, e)), tt) purged_empty
