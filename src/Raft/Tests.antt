-- ===== src/Raft/Tests.antt =====
-- The storage of a Raft node on concrete inputs.
use mathlib.Core.Option.{Option}
use queue_as_a_service.Base.{
  ℕ, ◌≡◌, ◌<◌, refl, arith, true, ◌&&◌, ◌||◌, List, [], ◌∷◌, ◌++◌, none, some, Map, get, insert,
  ℕ_discrete, if◌then◌else◌,
}
use queue_as_a_service.Types.{Text}
use queue_as_a_service.Raft.{Entry, normal, set_value}
use queue_as_a_service.Raft.LogStore.{LogStore, new_store, append, try_get_log_entries}
use queue_as_a_service.Raft.Reading.{try_get_log_entries-append}
use queue_as_a_service.Raft.StateMachine.{
  StateMachineStore, StoredSnapshot, apply, build_snapshot, install_snapshot,
}
use queue_as_a_service.Raft.Snapshots.{install_snapshot-apply}
use queue_as_a_service.Raft.Membership.{RaftHandle, Poll, reconcile_once, run, contains, ids}
use queue_as_a_service.Raft.Reconciled.{not, IsFaithful}
use queue_as_a_service.Raft.Watching.{IsOutcome, run-IsOutcome}

abbrev entry : ℕ → Entry ℕ ℕ
entry n = record {
  log_id = record { leader = 1; index = n };
  payload = normal (set_value (n ∷ []) (n ∷ n ∷ []));
}

abbrev store : LogStore ℕ ℕ ℕ
store = append (entry 1 ∷ entry 2 ∷ entry 3 ∷ []) new_store

-- A leader's entries replace those from the second one on.
try_get_log_entries-append_example :
    (try_get_log_entries 2 2 (append (entry 2 ∷ entry 3 ∷ []) store) ≡ entry 2 ∷ entry 3 ∷ [])
    × ((i : ℕ)
        → i < 2
        → get ℕ_discrete i (append (entry 2 ∷ entry 3 ∷ []) store).log ≡ get ℕ_discrete i store.log)
try_get_log_entries-append_example =
    try_get_log_entries-append 2 (entry 2 ∷ entry 3 ∷ []) store (refl, (refl, tt))

abbrev machine : StateMachineStore ℕ ℕ
machine = record {
  contents = record {
    last_applied_log = none;
    last_membership = record { log_id = none; membership = 0 };
    kv = [];
  };
  current_snapshot = none;
  snapshot_idx = 0;
}

-- A coding of the maps with one short entry.
abbrev encode : Map Text Text → Option Text
encode ((k ∷ [], v ∷ w ∷ []) ∷ []) = some (k ∷ v ∷ w ∷ [])
encode _ = none

abbrev decode : Text → Option (Map Text Text)
decode (k ∷ v ∷ w ∷ []) = some ((k ∷ [], v ∷ w ∷ []) ∷ [])
decode _ = none

decode-encode :
    (kv : Map Text Text) (bytes : Text) → encode kv ≡ some bytes → decode bytes ≡ some kv
decode-encode ((k ∷ [], v ∷ w ∷ []) ∷ []) bytes h = ground (arith, h)
decode-encode _ bytes h = absurd (ground (arith, h))

abbrev snapshot : StoredSnapshot ℕ ℕ
snapshot = record {
  meta = record {
    last_log_id = some (record { leader = 1; index = 1 });
    last_membership = record { log_id = none; membership = 0 };
    snapshot_id = (some (record { leader = 1; index = 1 }), 0);
  };
  bytes = 1 ∷ 1 ∷ 1 ∷ [];
}

install_snapshot-apply_example :
    (installed : StateMachineStore ℕ ℕ) × (install_snapshot decode snapshot machine
      ≡ some installed)
    × ((apply (entry 2 ∷ []) installed).0.contents
        ≡ (apply (entry 1 ∷ entry 2 ∷ []) machine).0.contents)
    × ((apply (entry 1 ∷ entry 2 ∷ []) machine).1
        ≡ (apply (entry 1 ∷ []) machine).1 ++ (apply (entry 2 ∷ []) installed).1)
unfolding build_snapshot apply insert
install_snapshot-apply_example =
    install_snapshot-apply encode decode (entry 1 ∷ []) (entry 2 ∷ []) machine machine snapshot
      decode-encode refl

-- A cluster is the list of its voters.
abbrev without : List ℕ → List ℕ → List ℕ
without js [] = []
without js (i ∷ is) = let rest = without js is in if contains i js then rest else i ∷ rest

abbrev cluster : RaftHandle (List ℕ) ℕ
cluster = record {
  voter_ids = λ s. s;
  add_learner = λ id node s. (s, true);
  add_voters = λ nodes s. (s ++ ids nodes, true);
  remove_voters = λ nodes s. (without nodes s, true);
}

contains-append :
    (i : ℕ) (xs ys : List ℕ) → contains i (xs ++ ys) ≡ (contains i xs || contains i ys)
unfolding contains
contains-append i [] ys = refl
contains-append i (x ∷ xs) ys = ground (arith, contains-append i xs ys)

contains-without :
    (i : ℕ) (js xs : List ℕ) → contains i (without js xs) ≡ (contains i xs && not (contains i js))
unfolding contains
contains-without i js [] = refl
contains-without i js (x ∷ xs) = ground (arith, contains-without i js xs)

cluster-IsFaithful : IsFaithful cluster
cluster-IsFaithful = record {
  learner = λ id node s i. refl;
  added = λ nodes s i h. contains-append i s (ids nodes);
  removed = λ nodes s i h. contains-without i nodes s;
}

abbrev desired : Map ℕ ℕ
desired = (2, 20) ∷ (3, 30) ∷ []

-- The source cannot be read, then it reads what the cluster is to be.
abbrev unreadable : Poll (List ℕ) ℕ
unreadable = record { meanwhile = λ s. s; found = none }

abbrev readable : Poll (List ℕ) ℕ
readable = record { meanwhile = λ s. s; found = some desired }

run-IsOutcome_example :
    IsOutcome cluster desired
      (run cluster (unreadable ∷ []) (1 ∷ 2 ∷ []))
      (run cluster (unreadable ∷ readable ∷ []) (1 ∷ 2 ∷ []))
      (reconcile_once cluster (some desired) (run cluster (unreadable ∷ []) (1 ∷ 2 ∷ []))).1
run-IsOutcome_example =
    run-IsOutcome cluster cluster-IsFaithful (unreadable ∷ []) readable desired (1 ∷ 2 ∷ []) refl
