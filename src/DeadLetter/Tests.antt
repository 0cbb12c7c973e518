-- ===== src/DeadLetter/Tests.antt =====
-- Dead letters on concrete inputs.
use queue_as_a_service.Base.{
  ℕ, ◌≡◌, refl, false, [], ◌∷◌, none, some, ℕ_discrete, get, insert, remove,
}
use queue_as_a_service.Log.{Log}
use queue_as_a_service.DeadLetter.{
  DeadLetter, TriageVerdict, permanent, WalRecord, dead_letter, DeadLetterQueue, open_queue, replay,
  apply,
}

abbrev letter : DeadLetter ℕ ℕ
letter = record {
  id = 1;
  idempotency_key = none;
  item = 5;
  delivery_count = 3;
  last_error = none;
  dead_lettered_at = 1020;
  checkpoint = none;
  triage = none;
}

abbrev wal : Log (WalRecord ℕ ℕ)
wal = record { records = dead_letter letter ∷ []; spoiled = false }

abbrev queue : DeadLetterQueue ℕ ℕ
queue = open_queue wal

abbrev verdict : TriageVerdict
verdict = record { classification = permanent; reason = []; triaged_at = 1030 }

has_letter : get ℕ_discrete 1 queue.entries ≡ some letter
unfolding open_queue replay apply insert remove get ℕ_discrete
has_letter = refl
