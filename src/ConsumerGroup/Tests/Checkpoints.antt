-- ===== src/ConsumerGroup/Tests/Checkpoints.antt =====
-- A reprocessed message on a concrete group.
use queue_as_a_service.Base.{ℕ, ◌≡◌, refl, false, [], ◌∷◌, none, some, ℕ_discrete, get}
use queue_as_a_service.Log.{synced}
use queue_as_a_service.DeadLetter.{DeadLetter, dead_letter}
use queue_as_a_service.ConsumerGroup.State.{Group}
use queue_as_a_service.ConsumerGroup.Recovery.{open_group}
use queue_as_a_service.ConsumerGroup.Enqueue.{new_pending}
use queue_as_a_service.ConsumerGroup.Letters.{reprocess_dead_letter}
use queue_as_a_service.ConsumerGroup.Checkpoints.{given_up, reprocess_dead_letter-checkpoint}
use queue_as_a_service.ConsumerGroup.Tests.{key, policy}

abbrev letter : DeadLetter ℕ ℕ
letter = record {
  id = 1;
  idempotency_key = some key;
  item = 5;
  delivery_count = 1;
  last_error = none;
  dead_lettered_at = 1020;
  checkpoint = some 9;
  triage = none;
}

abbrev lettered : Group ℕ ℕ ℕ
lettered = record {
  pending = [];
  leased = [];
  delayed = [];
  dedup = (key, 1) ∷ [];
  signals = [];
  wal = record { records = given_up 1 (some key) 5 9; spoiled = false };
  dlq = record {
    entries = (1, letter) ∷ [];
    wal = record { records = dead_letter letter ∷ []; spoiled = false };
  };
  visibility_timeout = 30;
  retry_policy = policy;
  next_lease_token = 1;
}

has_letter : get ℕ_discrete 1 lettered.dlq.entries ≡ some letter
unfolding get ℕ_discrete
has_letter = refl

abbrev after : Group ℕ ℕ ℕ
after = (reprocess_dead_letter synced synced 1 lettered).0

reprocess_dead_letter-checkpoint_example :
    (after.pending ≡ new_pending 1 5 (some key) ∷ [])
    × ((open_group after.wal after.dlq.wal 30 policy).pending
        ≡ record (new_pending 1 5 (some key)) { checkpoint = some 9 } ∷ [])
reprocess_dead_letter-checkpoint_example =
    reprocess_dead_letter-checkpoint 1 (some key) 5 9 letter lettered 30 policy refl refl has_letter
      refl
