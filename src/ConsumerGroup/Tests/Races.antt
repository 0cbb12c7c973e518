-- ===== src/ConsumerGroup/Tests/Races.antt =====
-- Calls that run at once, on concrete inputs.
use queue_as_a_service.Base.{
  ℕ, ◌≡◌, ◌≤◌, ◌≢◌, refl, true, false, [], ◌∷◌, none, some, arith, ℕ_discrete, get,
}
use queue_as_a_service.Log.{synced, rejected, ok, failed, empty}
use queue_as_a_service.Types.{IdempotencyKey-discrete}
use queue_as_a_service.DeadLetter
use queue_as_a_service.ConsumerGroup.State.{Group, Leased, enqueued}
use queue_as_a_service.ConsumerGroup.Recovery.{
  open_group, replay, apply, attach, seed_dedup, find_pending,
}
use queue_as_a_service.ConsumerGroup.Messages.{Message, all, has_id}
use queue_as_a_service.ConsumerGroup.Enqueue.{enqueue_with_key, new_pending}
use queue_as_a_service.ConsumerGroup.Restart.{restart, fresh_group}
use queue_as_a_service.ConsumerGroup.Racing.{
  Racing, alone, everything, begin_enqueue, write_enqueue, finish_enqueue, begin_ack, write_ack,
}
use queue_as_a_service.ConsumerGroup.Deduplication.{keyed}
use queue_as_a_service.ConsumerGroup.Schedules.{
  Races, stop, next, begins, writes, finishes, one_message,
}
use queue_as_a_service.ConsumerGroup.Collisions.{enqueue_lost, ack_overtaken}
use queue_as_a_service.ConsumerGroup.Tests.{policy, float, to_text, key, opened}

-- Two enqueues, of which the second finds the key, and then the first ends.
abbrev first : Racing ℕ ℕ ℕ
first = (begin_enqueue 1 5 (some key) (alone opened)).0

abbrev second : Racing ℕ ℕ ℕ
second = (begin_enqueue 2 6 (some key) first).0

abbrev ended : Racing ℕ ℕ ℕ
ended = (finish_enqueue 0 (write_enqueue synced 0 second)).0

first_fresh : everything (has_id 1) (alone opened) ≡ 0
unfolding fresh_group open_group attach replay DeadLetter.open_queue DeadLetter.replay
first_fresh = refl

second_fresh : everything (has_id 2) first ≡ 0
unfolding fresh_group open_group attach replay DeadLetter.open_queue DeadLetter.replay
    DeadLetter.ids_and_keys begin_enqueue seed_dedup get ℕ_discrete
second_fresh = refl

abbrev races : Races float to_text (alone opened) ended
races =
    next (begins 1 5 (some key) first_fresh)
      (next (begins 2 6 (some key) second_fresh) (next (writes synced 0) (next (finishes 0) stop)))

one_message_example : everything (keyed key) ended ≤ 1
one_message_example = one_message float to_text 30 policy ended key races

key_free : get IdempotencyKey-discrete key opened.dedup ≡ none
unfolding fresh_group open_group attach replay DeadLetter.open_queue DeadLetter.replay
    DeadLetter.ids_and_keys seed_dedup get
key_free = refl

enqueue_lost_example :
    let (first, _) = begin_enqueue 1 5 (some key) (alone opened) in
    let (second, answer) = begin_enqueue 2 6 (some key) first in
    let (ended, result) = finish_enqueue 0 (write_enqueue rejected 0 second) in
    (answer ≡ some 1)
    × (result ≡ some failed)
    × (ended.enqueues ≡ [])
    × ((w : Message ℕ → ℕ) → all w ended.group ≡ all w opened)
    × (get IdempotencyKey-discrete key ended.group.dedup ≡ none)
enqueue_lost_example = enqueue_lost rejected 1 2 5 6 key opened key_free refl

abbrev lease : Leased ℕ ℕ
lease = record {
  item = 5;
  token = 3;
  expires_at = 40;
  delivery_count = 1;
  idempotency_key = some key;
  checkpoint = none;
  stream = [];
}

-- One message, which is leased.
abbrev leasing : Group ℕ ℕ ℕ
leasing = record {
  pending = [];
  leased = (1, lease) ∷ [];
  delayed = [];
  dedup = (key, 1) ∷ [];
  signals = [];
  wal = record { records = enqueued 1 (some key) 5 ∷ []; spoiled = false };
  dlq = record { entries = []; wal = empty };
  visibility_timeout = 30;
  retry_policy = policy;
  next_lease_token = 4;
}

is_leased : get ℕ_discrete 1 leasing.leased ≡ some lease
unfolding get ℕ_discrete
is_leased = refl

is_logged : find_pending 1 (replay leasing.wal.records).pending ≡ some (new_pending 1 5 (some key))
unfolding replay apply find_pending ℕ_discrete
is_logged = refl

none_dead : DeadLetter.replay leasing.dlq.wal.records ≡ []
unfolding DeadLetter.replay
none_dead = refl

two_differs : ◌≢◌ {A = ℕ} 2 1
two_differs e = absurd (omega (arith, e))

ack_overtaken_example :
    let released = (begin_ack 1 3 (alone leasing)).0 in
    let begun = (begin_enqueue 2 6 (some key) released).0 in
    let (enqueued_too, answer) = finish_enqueue 0 (write_enqueue synced 0 begun) in
    let (ended, answer') = write_ack synced 0 enqueued_too in
    let (g', answer'') = enqueue_with_key synced 7 8 key (restart 30 policy ended.group) in
    (answer ≡ some (ok 2))
    × (answer' ≡ some (ok true))
    × (answer'' ≡ ok 7)
    × (2 ≤ all (keyed key) g')
ack_overtaken_example =
    ack_overtaken 30 policy 1 2 7 3 6 8 key lease (new_pending 1 5 (some key)) leasing is_leased
      refl refl refl is_logged refl two_differs none_dead
